-- ===== src/Ingest/Sequence.antt =====
-- crates/obschain-ingest/src/bitcoin_zmq.rs: the sequence numbers of notifications, the frames of a
-- message, and the payload of a `sequence` notification. A byte is a number below 256.
pub mod Tracking
pub mod Payload
use obschain.Prelude.{
  ℕ, ◌+◌, ◌-◌, ◌*◌, ◌/◌, ◌%◌, ◌^◌, Bool, true, false, not, Option, none, some, List, [], ◌∷◌, Text,
  codes, length, take, drop, text_beq, ltb, ◌==◌, nat_eq, if◌then◌else◌,
}

-- `ZmqSequenceTracker`
pub record ZmqSequenceTracker : Type 0 where
  pub last_seq : Option ℕ

pub data SequenceCheckResult : Type 0 where
  initial : ℕ → SequenceCheckResult
  consecutive : ℕ → SequenceCheckResult
  duplicate : ℕ → SequenceCheckResult
  gap : (previous current missed : ℕ) → SequenceCheckResult
  stale : (previous current : ℕ) → SequenceCheckResult

abbrev pub new_tracker : ZmqSequenceTracker
new_tracker = record { last_seq = none }

abbrev pub reset : ZmqSequenceTracker → ZmqSequenceTracker
reset t = record t { last_seq = none }

-- `current.wrapping_sub(prev)` on `u32`
abbrev pub wrapping_sub : ℕ → ℕ → ℕ
wrapping_sub current prev = (current + 2 ^ 32 - prev) % 2 ^ 32

unfoldable pub check : ℕ → ℕ → SequenceCheckResult
check prev current =
    let diff = wrapping_sub current prev in
    if diff == 0
    then duplicate current
    else if diff == 1
    then consecutive current
    else if ltb diff 0x80000000
    then gap prev current (diff - 1)
    else stale prev current

-- whether the tracker takes over the number
abbrev pub advances : SequenceCheckResult → Bool
advances (initial n) = true
advances (consecutive n) = true
advances (duplicate n) = false
advances (gap p n m) = true
advances (stale p n) = false

unfoldable pub observe_sequence : ℕ → ZmqSequenceTracker → SequenceCheckResult × ZmqSequenceTracker
unfolding check
observe_sequence current t = elim t.last_seq [
  | none ↦ (initial current, record t { last_seq = some current })
  | some prev ↦
      let result = check prev current in
      (result, if advances result then record t { last_seq = some current } else t)
]

pub data BitcoinZmqTopic : Type 0 where
  raw_block raw_tx sequence : BitcoinZmqTopic

abbrev pub as_topic_str : BitcoinZmqTopic → Text
as_topic_str raw_block = codes "rawblock"
as_topic_str raw_tx = codes "rawtx"
as_topic_str sequence = codes "sequence"

-- `BitcoinZmqError`, as the functions below return it, without its texts
pub data BitcoinZmqError : Type 0 where
  malformed_message : BitcoinZmqError
  invalid_sequence_tag : ℕ → BitcoinZmqError

pub data ZmqResult {ℓ} (A : Type ℓ) : Type ℓ where
  ok : A → ZmqResult A
  err : BitcoinZmqError → ZmqResult A

-- `u32::from_le_bytes`, `u64::from_le_bytes`
abbrev pub from_le_bytes : List ℕ → ℕ
from_le_bytes [] = 0
from_le_bytes (b ∷ bs) = b + 256 * from_le_bytes bs

-- A topic that is not UTF-8 differs from every topic's name.
unfoldable pub validate_and_extract_multipart :
    List (List ℕ) → BitcoinZmqTopic → ZmqResult (List ℕ × ℕ)
validate_and_extract_multipart (topic ∷ body ∷ seq ∷ []) expected =
    if not (text_beq topic (as_topic_str expected))
    then err malformed_message
    else if not (length seq == 4)
    then err malformed_message
    else ok (body, from_le_bytes seq)
validate_and_extract_multipart _ expected = err malformed_message

-- `{:02x}`
abbrev pub hex_digit : ℕ → ℕ
hex_digit n = if ltb n 10 then b'0' + n else b'a' + (n - 10)

abbrev pub format_zmq_hash : List ℕ → Text
format_zmq_hash [] = []
format_zmq_hash (b ∷ bs) = hex_digit (b / 16) ∷ hex_digit (b % 16) ∷ format_zmq_hash bs

pub data BitcoinSequenceEvent : Type 0 where
  block_connected : (block_hash : Text) (zmq_sequence : ℕ) → BitcoinSequenceEvent
  block_disconnected : (block_hash : Text) (zmq_sequence : ℕ) → BitcoinSequenceEvent
  transaction_added : (txid : Text) (mempool_sequence zmq_sequence : ℕ) → BitcoinSequenceEvent
  transaction_removed : (txid : Text) (mempool_sequence zmq_sequence : ℕ) → BitcoinSequenceEvent

abbrev pub tag_of : List ℕ → ℕ
tag_of [] = 0
tag_of (t ∷ rest) = t

-- The tag, the hash and what stands behind the tag.
unfoldable pub parse_tagged : ℕ → Text → List ℕ → ℕ → ZmqResult BitcoinSequenceEvent
parse_tagged tag hash rest seq =
    if tag == b'C'
    then (if length rest == 0 then ok (block_connected hash seq) else err malformed_message)
    else if tag == b'D'
    then (if length rest == 0 then ok (block_disconnected hash seq) else err malformed_message)
    else if tag == b'A'
    then (if length rest == 8
        then ok (transaction_added hash (from_le_bytes rest) seq)
        else err malformed_message)
    else if tag == b'R'
    then (if length rest == 8
        then ok (transaction_removed hash (from_le_bytes rest) seq)
        else err malformed_message)
    else err (invalid_sequence_tag tag)

unfoldable pub parse_sequence_event : List ℕ → ℕ → ZmqResult BitcoinSequenceEvent
unfolding parse_tagged
parse_sequence_event payload zmq_sequence =
    if ltb (length payload) 33
    then err malformed_message
    else parse_tagged (tag_of (drop 32 payload)) (format_zmq_hash (take 32 payload))
        (drop 33 payload) zmq_sequence
