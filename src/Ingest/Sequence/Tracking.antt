-- ===== src/Ingest/Sequence/Tracking.antt =====
-- What the tracker of crates/obschain-ingest/src/bitcoin_zmq.rs says of a node that numbers its
-- notifications one by one, modulo 2^32.
use obschain.Prelude.{
  ℕ, zero, suc, ◌+◌, ◌%◌, ◌^◌, ◌<◌, some, List, [], ◌∷◌, All, arith, ◌≡◌, refl, nat_eq,
  if◌then◌else◌,
}
use obschain.Ingest.Sequence.{
  ZmqSequenceTracker, SequenceCheckResult, initial, consecutive, duplicate, gap, check, advances,
  wrapping_sub, observe_sequence, new_tracker,
}

-- the number that the node's `n`th notification carries
abbrev pub number_of : ℕ → ℕ
number_of n = n % 2 ^ 32

-- What is right to say when, after notification `n`, the next to arrive is the `n + k`th.
abbrev pub verdict : ℕ → ℕ → SequenceCheckResult
verdict n zero = duplicate (number_of n)
verdict n (suc zero) = consecutive (number_of (n + 1))
verdict n (suc (suc k)) = gap (number_of n) (number_of (n + (k + 2))) (k + 1)

wrapping_sub-number_of : (n k : ℕ) → k < 2 ^ 32 → wrapping_sub (number_of (n + k)) (number_of n) ≡ k
wrapping_sub-number_of n k h = omega arith

check-verdict : (n k : ℕ) → k < 2 ^ 31 → check (number_of n) (number_of (n + k)) ≡ verdict n k
unfolding check
check-verdict n zero h = rw (wrapping_sub-number_of n 0 (omega arith)) (ground arith)
check-verdict n (suc zero) h = rw (wrapping_sub-number_of n 1 (omega arith)) refl
check-verdict n (suc (suc k)) h =
    rw (wrapping_sub-number_of n (suc (suc k)) (omega arith)) (ground arith)

observe_sequence-verdict :
    (n k : ℕ)
    → k < 2 ^ 31
    → observe_sequence (number_of (n + k)) (record { last_seq = some (number_of n) })
      ≡ (verdict n k, record { last_seq = some (number_of (n + k)) })
unfolding observe_sequence
observe_sequence-verdict n k h = rw (check-verdict n k h) (taken k)
  where
    taken :
        (k : ℕ)
        → Path
            (SequenceCheckResult × ZmqSequenceTracker)
            (
              verdict n k,
              if advances (verdict n k)
                  then record { last_seq = some (number_of (n + k)) }
                  else record { last_seq = some (number_of n) },
            )
            (verdict n k, record { last_seq = some (number_of (n + k)) })
    taken zero = ground arith
    taken (suc zero) = refl
    taken (suc (suc k)) = refl

-- what the tracker says of numbers that arrive one after the other
unfoldable pub observe_all :
    List ℕ → ZmqSequenceTracker → List SequenceCheckResult × ZmqSequenceTracker
observe_all [] t = ([], t)
observe_all (c ∷ cs) t =
    let (result, t') = observe_sequence c t in
    let (results, t'') = observe_all cs t' in (result ∷ results, t'')

-- The numbers of the notifications that arrive after the `n`th, each so many after the one before,
-- and what is right to say of each.
abbrev pub arrivals : ℕ → List ℕ → List ℕ
arrivals n [] = []
arrivals n (k ∷ ks) = number_of (n + k) ∷ arrivals (n + k) ks

abbrev pub verdicts : ℕ → List ℕ → List SequenceCheckResult
verdicts n [] = []
verdicts n (k ∷ ks) = verdict n k ∷ verdicts (n + k) ks

abbrev pub last_of : ℕ → List ℕ → ℕ
last_of n [] = n
last_of n (k ∷ ks) = last_of (n + k) ks

observe_all-verdicts :
    (n : ℕ) (ks : List ℕ)
    → All (λ k. k < 2 ^ 31) ks
    → observe_all (arrivals n ks) (record { last_seq = some (number_of n) })
      ≡ (verdicts n ks, record { last_seq = some (number_of (last_of n ks)) })
unfolding observe_all
observe_all-verdicts n [] h = refl
observe_all-verdicts n (k ∷ ks) h =
    rw (observe_sequence-verdict n k h.0, observe_all-verdicts (n + k) ks h.1) refl

-- A fresh tracker that hears of the `n`th notification of a node and then of later ones, of which
-- each is less than 2^31 after the one before, says the right thing of each, over any number of
-- wrap-arounds: a repetition, the next one, or a gap with the exact number of those missed.
pub observe_all-right :
    (n : ℕ) (ks : List ℕ)
    → All (λ k. k < 2 ^ 31) ks
    → observe_all (number_of n ∷ arrivals n ks) new_tracker ≡ (
      initial (number_of n) ∷ verdicts n ks,
      record { last_seq = some (number_of (last_of n ks)) },
    )
unfolding observe_all observe_sequence
observe_all-right n ks h = rw (observe_all-verdicts n ks h) refl
