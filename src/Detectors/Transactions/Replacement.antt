-- ===== src/Detectors/Transactions/Replacement.antt =====
-- The signed fee difference of crates/obschain-detectors/src/rbf.rs.
use obschain.Prelude.{
  ℕ, ◌+◌, ◌-◌, ◌^◌, ◌<◌, ◌≤◌, ◌||◌, ◌++◌, codes, show, leb, if◌then◌else◌, arith, ◌≡◌, Bool-cases,
  inl, inr,
}
use obschain.Core.Event.{EventSeverity, low, medium, high}
use obschain.Detectors.Transactions.{i64_sub, show_signed, replacement_severity}

-- the severity by the fees themselves
abbrev pub severity_by_fees : ℕ → ℕ → ℕ → EventSeverity
severity_by_fees old new count =
    if leb (old + 1_000_000) new || leb 5 count
    then high
    else if leb (old + 100_000) new || leb 2 count
    then medium
    else low

i64_sub-above : (new old : ℕ) → new < 2 ^ 63 → old ≤ new → i64_sub new old ≡ new - old
i64_sub-above new old h k = omega arith

i64_sub-below : (new old : ℕ) → old < 2 ^ 63 → new < old → i64_sub new old ≡ 2 ^ 64 - (old - new)
i64_sub-below new old h k = omega arith

-- For fees below 2^63 satoshis, which every fee is, the signed difference is the true one: it
-- is printed with its sign and its absolute value, and the severity is high exactly when the new
-- fee is a million satoshis above the old one or five transactions are replaced, and medium
-- when it is 100,000 above or two are replaced.
replacement_severity-fees :
    (old new count : ℕ)
    → old < 2 ^ 63
    → new < 2 ^ 63
    → (replacement_severity (i64_sub new old) count ≡ severity_by_fees old new count)
      × (show_signed (i64_sub new old)
          ≡ (if leb old new then codes "+" ++ show (new - old) else codes "-" ++ show (old - new)))
unfolding replacement_severity
replacement_severity-fees old new count h k = elim (Bool-cases (leb old new)) [
  | inl e ↦ rw (i64_sub-above new old k (ground arith)) (ground arith, ground arith)
  | inr e ↦ rw (i64_sub-below new old h (ground arith)) (ground arith, ground arith)
]
