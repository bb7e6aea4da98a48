-- ===== src/Core/External.antt =====
-- What the core types take from the language and from other crates: floats, instants, identifiers,
-- JSON values, and the functions on them that are not the program's own.
use obschain.Prelude.{
  ℕ, ◌-◌, ◌/◌, Bool, Option, none, some, Text, String, string_eq, ◌==◌, if◌then◌else◌,
}

-- An `f64` is its 64-bit pattern; what floats compute is a parameter (`Externals`).
abbrev pub F64 : Type 0
F64 = ℕ

-- A `Uuid` is its 128-bit value.
abbrev pub Uuid : Type 0
Uuid = ℕ

-- A `DateTime<Utc>` is the number of nanoseconds since the Unix epoch. Earlier instants do not occur:
-- block times are unsigned seconds since the epoch.
abbrev pub DateTime : Type 0
DateTime = ℕ

abbrev pub nanos_per_second : ℕ
nanos_per_second = 1_000_000_000

-- `t.timestamp()`
abbrev pub timestamp : DateTime → ℕ
timestamp t = t / nanos_per_second

-- `t.signed_duration_since(since).num_seconds().max(0) as u64`
abbrev pub seconds_since : DateTime → DateTime → ℕ
seconds_since t since = (t - since) / nanos_per_second

-- A JSON number is an unsigned integer, a negative integer (by its absolute value) or a float.
pub data Number : Type 0 where
  unsigned : ℕ → Number
  negative : ℕ → Number
  float : F64 → Number

-- `serde_json::Value`, with its map and its arrays as types of their own.
mutual
  pub data Json : Type 0 where
    null : Json
    bool : Bool → Json
    number : Number → Json
    string : Text → Json
    array : Items → Json
    object : Fields → Json

  pub data Items : Type 0 where
    nil : Items
    item : Json → Items → Items

  pub data Fields : Type 0 where
    end : Fields
    field : String → Json → Fields → Fields

-- `Map::get`
unfoldable pub get_field : String → Fields → Option Json
get_field k end = none
get_field k (field j v m) = if j == k then some v else get_field k m

-- `Map::insert`: a key that is there keeps its place.
unfoldable pub insert_field : String → Json → Fields → Fields
insert_field k v end = field k v end
insert_field k v (field j w m) = if j == k then field k v m else field j w (insert_field k v m)

-- `Value::get`
unfoldable pub get_key : String → Json → Option Json
unfolding get_field
get_key k (object m) = get_field k m
get_key k _ = none

-- The functions of other crates and of the language that the program calls.
pub record Externals : Type 0 where
  -- `Uuid::new_v5(&Uuid::NAMESPACE_OID, key)`
  pub new_v5 : Text → Uuid
  -- `Display` of a `Uuid`
  pub uuid_text : Uuid → Text
  -- `n as f64`, `a / b`, `a * b`, `a >= b`
  pub to_f64 : ℕ → F64
  pub div : F64 → F64 → F64
  pub mul : F64 → F64 → F64
  -- `n as f64` of an `i64`, by its 64-bit pattern
  pub i64_to_f64 : ℕ → F64
  pub ge : F64 → F64 → Bool
  -- `format!("{:.p$}", x)`
  pub fixed : ℕ → F64 → Text
  -- `format!("{:+.p$}", x)`
  pub fixed_signed : ℕ → F64 → Text
  -- `str::to_lowercase`
  pub to_lowercase : Text → Text
  -- the JSON value of a float: `null` where it is not finite
  pub json_float : F64 → Json
  -- the JSON string of an instant
  pub time_text : DateTime → Text

-- What one construction of an event reads from the random source and from the clock.
pub record Readings : Type 0 where
  pub id : Uuid
  pub now : DateTime
  pub later : DateTime
