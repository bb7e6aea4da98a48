-- ===== src/Ingest/Cache/Bounds.antt =====
-- The output cache stays bounded: `UtxoCache` in crates/obschain-ingest/src/utxo_cache.rs.
use Prim.Native.Nat.{max}
use obschain.Prelude.{
  ℕ, ◌-◌, ◌<◌, ◌≤◌, List, [], ◌∷◌, Text, text_eq, contains-append, length, arith, ◌≡◌, refl, leb,
  ltb, inl, inr, Bool-cases, Option-cases,
}
use obschain.Prelude.Map.{
  get, remove, Distinct, get-insert, insert-Distinct, length-insert-le, remove-Distinct,
  length-remove-le,
}
use obschain.Prelude.Queue.{Queued, Queued-remove, Queued-nil, Queued-without}
use obschain.Ingest.Cache.{
  UtxoCache, CacheEntry, CachedTxOutputs, new_cache, forget, forget_all, expired_keys,
  clean_expired, get_output, evict, cleaned, bump, file_entry, insert_tx,
}

-- The cache holds at most `m` transactions.
pub record IsValid (m : ℕ) (c : UtxoCache) : Type 0 where
  pub limit : c.max_capacity ≡ m
  pub positive : 0 < c.max_capacity
  pub bounded : length c.map ≤ c.max_capacity
  pub distinct : Distinct c.map
  pub queued : Queued c.map c.order

-- One place is free.
record HasRoom (m : ℕ) (c : UtxoCache) : Type 0 where
  limit : c.max_capacity ≡ m
  room : length c.map < c.max_capacity
  distinct : Distinct c.map
  queued : Queued c.map c.order

new_cache-IsValid :
    (max_capacity ttl : ℕ) → IsValid (max max_capacity 1) (new_cache max_capacity ttl)
unfolding new_cache get
new_cache-IsValid max_capacity ttl = record {
  limit = refl;
  positive = omega arith;
  bounded = omega arith;
  distinct = tt;
  queued = λ k v h. cc;
}

forget-IsValid : {m : ℕ} (key : Text) (c : UtxoCache) → IsValid m c → IsValid m (forget key c)
forget-IsValid key c h = record {
  limit = h.limit;
  positive = h.positive;
  bounded = omega (arith, h.bounded, length-remove-le key c.map);
  distinct = remove-Distinct key c.map h.distinct;
  queued = Queued-without key c.map c.order h.queued;
}

forget_all-IsValid :
    {m : ℕ} (ks : List Text) (c : UtxoCache) → IsValid m c → IsValid m (forget_all ks c)
unfolding forget_all
forget_all-IsValid [] c h = h
forget_all-IsValid (k ∷ ks) c h = forget_all-IsValid ks (forget k c) (forget-IsValid k c h)

cleaned-IsValid : {m : ℕ} (now : ℕ) (c : UtxoCache) → IsValid m c → IsValid m (cleaned now c)
unfolding cleaned clean_expired
cleaned-IsValid now c h = elim (Bool-cases (leb c.max_capacity (length c.map))) [
  | inl full ↦ simp full (forget_all-IsValid (expired_keys now c.ttl c.map) c h)
  | inr spare ↦ simp spare h
]

evict-HasRoom :
    {m : ℕ} (order : List Text) (c : UtxoCache)
    → c.max_capacity ≡ m
    → 0 < c.max_capacity
    → Distinct c.map
    → Queued c.map order
    → HasRoom m (evict order c)
unfolding evict
evict-HasRoom [] c limit pos d q = record {
  limit = limit;
  room = omega (arith, Queued-nil c.map q);
  distinct = d;
  queued = q;
}
evict-HasRoom (oldest ∷ rest) c limit pos d q =
    elim (Bool-cases (leb c.max_capacity (length c.map))) [
      | inl full ↦
          rw (full, evict)
            (evict-HasRoom rest
              (record c { map = remove oldest c.map; order = rest; evictions = bump c.evictions })
              limit pos (remove-Distinct oldest c.map d) (Queued-remove c.map oldest rest q))
      | inr spare ↦
          rw (spare, evict)
            (record { limit = limit; room = ground (arith, spare); distinct = d; queued = q })
    ]

file_entry-IsValid :
    {m : ℕ} (now : ℕ) (txid : Text) (info : CachedTxOutputs) (c : UtxoCache)
    → HasRoom m c
    → IsValid m (file_entry now txid info c)
file_entry-IsValid now txid info c h =
    let entry : CacheEntry = record { cached = info; inserted_at = now } in
    record {
      limit = h.limit;
      positive = omega (arith, h.room);
      bounded = omega (arith, h.room, length-insert-le txid entry c.map);
      distinct = insert-Distinct txid entry c.map h.distinct;
      queued = λ k v p. ground (
        arith,
        contains-append k c.order (txid ∷ []),
        get-insert txid k entry c.map,
        h.queued k v,
      );
    }

insert_tx-IsValid :
    {m : ℕ} (now : ℕ) (txid : Text) (info : CachedTxOutputs) (c : UtxoCache)
    → IsValid m c
    → IsValid m (insert_tx now txid info c)
unfolding insert_tx
insert_tx-IsValid now txid info c h = elim (Bool-cases c.poisoned) [
  | inl p ↦ simp p h
  | inr p ↦
      let v = cleaned-IsValid now c h in
      simp p (
        file_entry-IsValid now txid info (evict (cleaned now c).order (cleaned now c)) (
          evict-HasRoom (cleaned now c).order (cleaned now c) v.limit v.positive v.distinct
            v.queued))
]

same_entries :
    {m : ℕ} (c d : UtxoCache)
    → IsValid m c
    → d.map ≡ c.map
    → d.order ≡ c.order
    → d.max_capacity ≡ c.max_capacity
    → IsValid m d
same_entries c d h m o k = record {
  limit = cc (h.limit);
  positive = omega (arith, h.positive, k);
  bounded = ground (arith, h.bounded);
  distinct = rw m h.distinct;
  queued = rw (m, o) h.queued;
}

get_output-IsValid :
    {m : ℕ} (now : ℕ) (txid : Text) (vout : ℕ) (c : UtxoCache)
    → IsValid m c
    → IsValid m (get_output now txid vout c).1
unfolding get_output
get_output-IsValid now txid vout c h = elim (Bool-cases c.poisoned) [
  | inl p ↦ simp p h
  | inr p ↦ elim (Option-cases (get txid c.map)) [
    | inl e ↦ simp (p, e) (same_entries c _ h refl refl refl)
    | inr (entry, e) ↦ elim (Bool-cases (ltb (now - entry.inserted_at) c.ttl)) [
      | inl fresh ↦ simp (p, e, fresh) (same_entries c _ h refl refl refl)
      | inr old ↦
          simp (p, e, old) (same_entries (forget txid c) _ (forget-IsValid txid c h) refl refl refl)
    ]
  ]
]

-- the operations on a cache, each at an instant
pub data CacheOp : Type 0 where
  insert_op : (now : ℕ) (txid : Text) (info : CachedTxOutputs) → CacheOp
  get_op : (now : ℕ) (txid : Text) (vout : ℕ) → CacheOp

abbrev pub apply_op : CacheOp → UtxoCache → UtxoCache
apply_op (insert_op now txid info) c = insert_tx now txid info c
apply_op (get_op now txid vout) c = (get_output now txid vout c).1

unfoldable pub apply_ops : List CacheOp → UtxoCache → UtxoCache
apply_ops [] c = c
apply_ops (op ∷ ops) c = apply_ops ops (apply_op op c)

apply_ops-keeps :
    {m : ℕ} (ops : List CacheOp) (c : UtxoCache) → IsValid m c → IsValid m (apply_ops ops c)
unfolding apply_ops
apply_ops-keeps [] c h = h
apply_ops-keeps (insert_op now txid info ∷ ops) c h =
    apply_ops-keeps ops (insert_tx now txid info c) (insert_tx-IsValid now txid info c h)
apply_ops-keeps (get_op now txid vout ∷ ops) c h =
    apply_ops-keeps ops (get_output now txid vout c).1 (get_output-IsValid now txid vout c h)

-- After any sequence of insertions and lookups at any instants, an output cache of any capacity,
-- 0 included, holds at most `max(capacity, 1)` transactions, each once, and each waits in the queue
-- for its eviction.
pub apply_ops-IsValid :
    (max_capacity ttl : ℕ) (ops : List CacheOp)
    → IsValid (max max_capacity 1) (apply_ops ops (new_cache max_capacity ttl))
apply_ops-IsValid max_capacity ttl ops = apply_ops-keeps ops _ (new_cache-IsValid max_capacity ttl)
