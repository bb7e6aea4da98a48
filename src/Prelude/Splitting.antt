-- ===== src/Prelude/Splitting.antt =====
-- `trim` and `split` at texts whose characters are known.
use mathlib.Core.Path.{◌≡◌, refl}
use mathlib.Core.Bool.{false}
use mathlib.Core.List.{List, [], ◌∷◌, ◌++◌, reverse, reverse-append, reverse-reverse}
use native.Mathlib.Omega.{arith}
use Prim.Native.Nat.{ℕ}
use obschain.Prelude.Lists.{All, All-append}
use obschain.Prelude.Tests.{nat_beq_iff}
use obschain.Prelude.Texts.{Text, Lacks, is_whitespace, trim, trim_start, split_first}

All-reverse {ℓ κ} : {A : Type ℓ} (P : A → Type κ) (xs : List A) → All P xs → All P (reverse xs)
All-reverse P [] h = tt
All-reverse P (x ∷ xs) h =
    rw (reverse-append (x ∷ []) xs)
      (All-append P (reverse xs) (x ∷ []) (All-reverse P xs h.1) (h.0, tt))

abbrev pub NoSpace : Text → Type 0
NoSpace = All (λ c. is_whitespace c ≡ false)

trim_start_id : (s : Text) → NoSpace s → trim_start s ≡ s
unfolding trim_start
trim_start_id [] h = refl
trim_start_id (c ∷ s) h = ground (arith, h.0)

pub trim_id : (s : Text) → NoSpace s → trim s ≡ s
unfolding trim
trim_id s h =
    rw (trim_start_id s h, trim_start_id (reverse s) (All-reverse _ s h)) (reverse-reverse s)

pub split_first_whole : (b : ℕ) (s : Text) → Lacks b s → split_first b s ≡ (s, [])
unfolding split_first
split_first_whole b [] h = refl
split_first_whole b (c ∷ s) h = ground (arith, split_first_whole b s h.1, nat_beq_iff c b, h.0)

pub split_first_at :
    (b : ℕ) (s t : Text) → Lacks b s → Lacks b t → split_first b (s ++ b ∷ t) ≡ (s, t ∷ [])
unfolding split_first
split_first_at b [] t hs ht = ground (arith, split_first_whole b t ht, nat_beq_iff b b)
split_first_at b (c ∷ s) t hs ht =
    ground (arith, split_first_at b s t hs.1 ht, nat_beq_iff c b, hs.0)
