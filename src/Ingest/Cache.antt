-- ===== src/Ingest/Cache.antt =====
-- crates/obschain-ingest/src/utxo_cache.rs: `UtxoCache`. An `Instant` is a number of nanoseconds, and
-- one operation happens at one instant; the lock is poisoned once a thread has panicked.
pub mod Bounds
pub mod Lookup
use Prim.Native.Nat.{max}
use obschain.Prelude.{
  ℕ, ◌+◌, ◌-◌, ◌%◌, ◌^◌, Bool, false, Option, none, some, List, [], ◌∷◌, ◌++◌, Text, text_eq,
  length, ltb, leb, ◌==◌, nat_eq, if◌then◌else◌,
}
use obschain.Prelude.Map.{HashMap, get, insert, remove}
use obschain.Prelude.Queue.{without}
use obschain.Core.External.{DateTime}
use obschain.Core.Observation.{SpentOutputContext}

pub record CachedTxOutputs : Type 0 where
  pub confirmed : Bool
  pub block_height : Option ℕ
  pub confirmed_at : Option DateTime
  pub outputs : List (ℕ × ℕ)

pub record CacheEntry : Type 0 where
  pub cached : CachedTxOutputs
  pub inserted_at : ℕ

-- `UtxoCache` with what it shares
pub record UtxoCache : Type 0 where
  pub map : HashMap Text CacheEntry
  pub order : List Text
  pub max_capacity : ℕ
  pub ttl : ℕ
  pub poisoned : Bool
  pub hits : ℕ
  pub misses : ℕ
  pub evictions : ℕ

unfoldable pub new_cache : ℕ → ℕ → UtxoCache
new_cache max_capacity ttl = record {
  map = [];
  order = [];
  max_capacity = max max_capacity 1;
  ttl = ttl;
  poisoned = false;
  hits = 0;
  misses = 0;
  evictions = 0;
}

abbrev pub bump : ℕ → ℕ
bump n = (n + 1) % 2 ^ 64

-- A key that goes from the map and from the queue.
abbrev pub forget : Text → UtxoCache → UtxoCache
forget key c = record c { map = remove key c.map; order = without key c.order }

unfoldable pub expired_keys : ℕ → ℕ → HashMap Text CacheEntry → List Text
expired_keys now ttl [] = []
expired_keys now ttl ((k, entry) ∷ m) =
    let rest = expired_keys now ttl m in
    if leb ttl (now - entry.inserted_at) then k ∷ rest else rest

unfoldable pub forget_all : List Text → UtxoCache → UtxoCache
forget_all [] c = c
forget_all (k ∷ ks) c = forget_all ks (forget k c)

unfoldable pub clean_expired : ℕ → UtxoCache → UtxoCache
unfolding forget_all expired_keys
clean_expired now c = forget_all (expired_keys now c.ttl c.map) c

-- the first output with the index
unfoldable pub output_at : Text → ℕ → CachedTxOutputs → List (ℕ × ℕ) → Option SpentOutputContext
output_at txid vout info [] = none
output_at txid vout info ((idx, val) ∷ outputs) =
    if idx == vout
    then some (record {
      txid = txid;
      vout = vout;
      value_sats = val;
      confirmed_height = info.block_height;
      confirmed_at = info.confirmed_at;
    })
    else output_at txid vout info outputs

abbrev pub missed : UtxoCache → UtxoCache
missed c = record c { misses = bump c.misses }

-- `UtxoCache::get`
unfoldable pub get_output : ℕ → Text → ℕ → UtxoCache → Option SpentOutputContext × UtxoCache
unfolding output_at
get_output now txid vout c = if c.poisoned then (none, c) else elim (get txid c.map) [
  | none ↦ (none, missed c)
  | some entry ↦
      if ltb (now - entry.inserted_at) c.ttl
      then (output_at txid vout entry.cached entry.cached.outputs, record c { hits = bump c.hits })
      else (none, missed (forget txid c))
]

-- The loop that makes room: the argument is what is left of the queue.
unfoldable pub evict : List Text → UtxoCache → UtxoCache
evict [] c = record c { order = [] }
evict (oldest ∷ rest) c =
    if leb c.max_capacity (length c.map)
    then evict rest
        (record c { map = remove oldest c.map; order = rest; evictions = bump c.evictions })
    else record c { order = oldest ∷ rest }

unfoldable pub cleaned : ℕ → UtxoCache → UtxoCache
unfolding clean_expired
cleaned now c = if leb c.max_capacity (length c.map) then clean_expired now c else c

abbrev pub make_space : ℕ → UtxoCache → UtxoCache
make_space now c = let c' = cleaned now c in evict c'.order c'

abbrev pub file_entry : ℕ → Text → CachedTxOutputs → UtxoCache → UtxoCache
file_entry now txid info c = record c {
  map = insert txid (record { cached = info; inserted_at = now }) c.map;
  order = c.order ++ txid ∷ [];
}

-- `UtxoCache::insert`
unfoldable pub insert_tx : ℕ → Text → CachedTxOutputs → UtxoCache → UtxoCache
unfolding evict cleaned
insert_tx now txid info c = if c.poisoned then c else file_entry now txid info (make_space now c)

unfoldable pub cache_len : UtxoCache → ℕ
cache_len c = if c.poisoned then 0 else length c.map
