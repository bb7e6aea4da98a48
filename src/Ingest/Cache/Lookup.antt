-- ===== src/Ingest/Cache/Lookup.antt =====
-- What was inserted is found: `UtxoCache` in crates/obschain-ingest/src/utxo_cache.rs.
use obschain.Prelude.{
  ℕ, ◌-◌, ◌<◌, false, Option, none, some, List, [], ◌∷◌, ◌++◌, All, Text, text_eq, nat_eq, arith,
  ◌≡◌, ◌⊎◌, ◌==◌, refl, lt→ltb, inl, inr, Bool-cases,
}
use obschain.Core.Observation.{SpentOutputContext}
use obschain.Prelude.Map.{remove, get-insert_self}
use obschain.Ingest.Cache.{
  UtxoCache, CacheEntry, CachedTxOutputs, forget, forget_all, expired_keys, clean_expired,
  get_output, output_at, evict, cleaned, make_space, file_entry, insert_tx, bump,
}

-- What making room leaves alone.
record Kept (c d : UtxoCache) : Type 0 where
  ttl : d.ttl ≡ c.ttl
  poisoned : d.poisoned ≡ c.poisoned

forget_all-Kept : (ks : List Text) (c : UtxoCache) → Kept c (forget_all ks c)
unfolding forget_all
forget_all-Kept [] c = record { ttl = refl; poisoned = refl }
forget_all-Kept (k ∷ ks) c = let ih = forget_all-Kept ks (forget k c) in ground (arith, ih)

evict-Kept : (order : List Text) (c : UtxoCache) → Kept c (evict order c)
unfolding evict
evict-Kept [] c = record { ttl = refl; poisoned = refl }
evict-Kept (k ∷ order) c =
    let ih =
      evict-Kept order
        (record c { map = remove k c.map; order = order; evictions = bump c.evictions }) in
    ground (arith, ih)

cleaned-Kept : (now : ℕ) (c : UtxoCache) → Kept c (cleaned now c)
unfolding cleaned clean_expired
cleaned-Kept now c = ground (arith, forget_all-Kept (expired_keys now c.ttl c.map) c)

make_space-Kept : (now : ℕ) (c : UtxoCache) → Kept c (make_space now c)
make_space-Kept now c =
    ground (arith, cleaned-Kept now c, evict-Kept (cleaned now c).order (cleaned now c))

file_entry-get :
    (now now' : ℕ) (txid : Text) (info : CachedTxOutputs) (vout : ℕ) (c : UtxoCache)
    → c.poisoned ≡ false
    → now' - now < c.ttl
    → (get_output now' txid vout (file_entry now txid info c)).0
      ≡ output_at txid vout info info.outputs
unfolding get_output
file_entry-get now now' txid info vout c open_lock soon =
    let entry : CacheEntry = record { cached = info; inserted_at = now } in
    simp (open_lock, get-insert_self txid entry c.map, lt→ltb (now' - now) c.ttl soon) refl

insert_tx-output_at :
    (now now' : ℕ) (txid : Text) (info : CachedTxOutputs) (vout : ℕ) (c : UtxoCache)
    → c.poisoned ≡ false
    → now' - now < c.ttl
    → (get_output now' txid vout (insert_tx now txid info c)).0
      ≡ output_at txid vout info info.outputs
unfolding insert_tx
insert_tx-output_at now now' txid info vout c open_lock soon =
    let k : Kept c (make_space now c) = make_space-Kept now c in
    simp open_lock (
      file_entry-get now now' txid info vout (make_space now c) (cc (k.poisoned))
        (omega (arith, k.ttl)))

-- an output that does not have the index
abbrev pub Other : ℕ → ℕ × ℕ → Type 0
Other vout (idx, val) = (idx == vout) ≡ false

-- The lookup of an index among outputs, in their order: none has it and nothing is found, or the
-- first that has it is found, with its value and when the transaction was confirmed.
abbrev pub Finds : Text → ℕ → CachedTxOutputs → List (ℕ × ℕ) → Option SpentOutputContext → Type 0
Finds txid vout info outputs found =
    (All (Other vout) outputs × (found ≡ none))
    ⊎ ((before : List (ℕ × ℕ)) × (val : ℕ) × (after : List (ℕ × ℕ)) × (outputs
          ≡ before ++ (vout, val) ∷ after)
        × All (Other vout) before
        × (found
            ≡ some (record {
              txid = txid;
              vout = vout;
              value_sats = val;
              confirmed_height = info.block_height;
              confirmed_at = info.confirmed_at;
            })))

output_at-Finds :
    (txid : Text) (vout : ℕ) (info : CachedTxOutputs) (outputs : List (ℕ × ℕ))
    → Finds txid vout info outputs (output_at txid vout info outputs)
unfolding output_at
output_at-Finds txid vout info [] = inl (tt, refl)
output_at-Finds txid vout info ((idx, val) ∷ outputs) = elim (Bool-cases (idx == vout)) [
  | inl here ↦
      let same : idx ≡ vout = ground (arith, here) in
      rw (output_at, here) (inr ([], val, outputs, rw same refl, tt, refl))
  | inr other ↦
      rw (output_at, other)
        (elim (output_at-Finds txid vout info outputs) [
          | inl (others, absent) ↦ inl ((refl, others), absent)
          | inr (before, v, after, split, others, found) ↦
              inr ((idx, val) ∷ before, v, after, rw split refl, (other, others), found)
        ])
]

-- While the lock is not poisoned, a lookup within the time to live after an insertion finds in the
-- inserted transaction the first output with the index asked for, with its value and the height and
-- time of its confirmation, and nothing if there is no such output, whatever had to be evicted.
pub insert_tx-get_output :
    (now now' : ℕ) (txid : Text) (info : CachedTxOutputs) (vout : ℕ) (c : UtxoCache)
    → c.poisoned ≡ false
    → now' - now < c.ttl
    → Finds txid vout info info.outputs (get_output now' txid vout (insert_tx now txid info c)).0
insert_tx-get_output now now' txid info vout c open_lock soon =
    rw (insert_tx-output_at now now' txid info vout c open_lock soon)
      (output_at-Finds txid vout info info.outputs)
