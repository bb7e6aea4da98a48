-- ===== src/Core/Tests.antt =====
-- The theorems on the core types at concrete data, and runs of the definitions.
use obschain.Prelude.{
  ◌+◌, ◌*◌, ◌≢◌, ◌↔◌, ◌≡◌, refl, none, some, [], ◌∷◌, ◌++◌, Text, codes, show, show-injective,
  Lacks, leb, if◌then◌else◌, arith, parse_uint, is_whitespace, trim, split_first, is_ascii_digit,
}
use obschain.Prelude.Decimal.Fixed.{AllDigits}
use obschain.Prelude.Splitting.{NoSpace}
use obschain.Core.External.{Uuid}
use obschain.Core.Amount.{ok, err, negative, btc_str_to_sats, max_money_sats, sats_per_btc}
use obschain.Core.Amount.Reading.{decimal, fraction_sats, show-AllDigits}
use obschain.Core.Amount.RoundTrip.{btc_str_to_sats-decimal, btc_str_to_sats_ignores, refusal}
use obschain.Core.Event.{identity_key, deterministic_id}
use obschain.Core.Occurrence.{
  EventObservation, observation_key, live_observation, witnessed, mempool_seen, replayed,
}
use obschain.Core.Event.Identity.{target, identity_key_iff}
use obschain.Core.Occurrence.Keys.{IsUuidText, replay_key_iff}
use obschain.Core.Mode.{live, historical_replay}
use obschain.Core.Samples.{externals, core_zmq, transfer}

abbrev sample : EventObservation
sample = live_observation externals 3 core_zmq mempool_seen 100 none none none

one_and_half : btc_str_to_sats (codes " 1.5 ") ≡ ok 150_000_000
unfolding btc_str_to_sats trim split_first parse_uint
one_and_half = refl

minus_one : btc_str_to_sats (codes "-1") ≡ err negative
unfolding btc_str_to_sats trim
minus_one = refl

btc_str_to_sats-decimal_example : btc_str_to_sats (decimal 1 2 5) ≡ (
    if leb (1 * sats_per_btc + fraction_sats 2 5) max_money_sats
    then ok (1 * sats_per_btc + fraction_sats 2 5)
    else err (refusal 1 (1 * sats_per_btc + fraction_sats 2 5)))
btc_str_to_sats-decimal_example = btc_str_to_sats-decimal 1 2 5 (omega arith) (omega arith)

abc_plain : NoSpace (codes "abc")
unfolding is_whitespace
abc_plain = (refl, (refl, (refl, tt)))

btc_str_to_sats_ignores_example :
    btc_str_to_sats (decimal 1 8 7 ++ codes "abc") ≡ btc_str_to_sats (decimal 1 8 7)
btc_str_to_sats_ignores_example =
    btc_str_to_sats_ignores 1 7 (codes "abc") (omega arith, (omega arith, (omega arith, tt)))
      abc_plain

identity_key_iff_example :
    ((identity_key transfer ≡ identity_key (record transfer { block_height = some 5 })) ↔ (
      (transfer.event_type ≡ transfer.event_type)
      × (target transfer ≡ target (record transfer { block_height = some 5 }))))
    × ((transfer.event_type ≡ transfer.event_type)
        → target transfer ≡ target (record transfer { block_height = some 5 })
        → deterministic_id externals transfer
          ≡ deterministic_id externals (record transfer { block_height = some 5 }))
identity_key_iff_example =
    identity_key_iff externals transfer (record transfer { block_height = some 5 })

digit_no_colon : (s : Text) → AllDigits s → Lacks b':' s
unfolding is_ascii_digit
digit_no_colon [] h = tt
digit_no_colon (c ∷ s) h = (ground (arith, h.0), digit_no_colon s h.1)

show-IsUuidText : IsUuidText show
show-IsUuidText = record {
  injective = show-injective;
  no_colon = λ a. digit_no_colon (show a) (show-AllDigits a);
}

abbrev event_3 : Uuid
event_3 = 3

abbrev event_4 : Uuid
event_4 = 4

abbrev job_9 : Uuid
job_9 = 9

replay_key_iff_example :
    ((observation_key show event_3 historical_replay core_zmq replayed (some job_9) none
        ≡ observation_key show event_4 historical_replay core_zmq witnessed (some 9) none)
      ↔ ((event_3 ≡ event_4) × (job_9 ≡ job_9)))
    × (observation_key show event_3 historical_replay core_zmq replayed (some job_9) none
        ≢ observation_key show event_4 live core_zmq witnessed none none)
replay_key_iff_example =
    replay_key_iff show show-IsUuidText event_3 event_4 job_9 job_9 core_zmq core_zmq replayed
      witnessed none none none
