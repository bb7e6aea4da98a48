-- ===== src/Intelligence/WatchEngine/Claims.antt =====
-- What the activities and the alerts of `IncidentWatchEngine` claim never exceeds what is known.
use obschain.Prelude.{text_eq, nat_eq}
use obschain.Intelligence.WatchEngine.{outpoint_eq}
use obschain.Intelligence.WatchEngine.Justified.{Justified}
