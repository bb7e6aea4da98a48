-- ===== src/Ingest/Sequence/Payload.antt =====
-- Notifications are read back as they were sent: `validate_and_extract_multipart` and
-- `parse_sequence_event` in crates/obschain-ingest/src/bitcoin_zmq.rs.
use obschain.Prelude.{ℕ, zero, suc, ◌/◌, ◌%◌, List, [], ◌∷◌, ◌++◌, nat_eq}
use obschain.Ingest.Sequence.{
  format_zmq_hash, BitcoinSequenceEvent, block_connected, block_disconnected, transaction_added,
  transaction_removed,
}

-- `n` little-endian bytes, as the node writes them
abbrev pub le_bytes : ℕ → ℕ → List ℕ
le_bytes zero v = []
le_bytes (suc n) v = (v % 256) ∷ le_bytes n (v / 256)

-- What the node announces: a hash of 32 bytes, and for transactions the mempool's number.
pub data Notice : Type 0 where
  connected : (hash : List ℕ) → Notice
  disconnected : (hash : List ℕ) → Notice
  added : (hash : List ℕ) (mempool_sequence : ℕ) → Notice
  removed : (hash : List ℕ) (mempool_sequence : ℕ) → Notice

abbrev pub hash_of : Notice → List ℕ
hash_of (connected h) = h
hash_of (disconnected h) = h
hash_of (added h s) = h
hash_of (removed h s) = h

abbrev pub number_in : Notice → ℕ
number_in (connected h) = 0
number_in (disconnected h) = 0
number_in (added h s) = s
number_in (removed h s) = s

-- the tag and what stands behind it
abbrev pub tail_of : Notice → List ℕ
tail_of (connected h) = b'C' ∷ []
tail_of (disconnected h) = b'D' ∷ []
tail_of (added h s) = b'A' ∷ le_bytes 8 s
tail_of (removed h s) = b'R' ∷ le_bytes 8 s

abbrev pub payload_of : Notice → List ℕ
payload_of n = hash_of n ++ tail_of n

abbrev pub event_of : Notice → ℕ → BitcoinSequenceEvent
event_of (connected h) seq = block_connected (format_zmq_hash h) seq
event_of (disconnected h) seq = block_disconnected (format_zmq_hash h) seq
event_of (added h s) seq = transaction_added (format_zmq_hash h) s seq
event_of (removed h s) seq = transaction_removed (format_zmq_hash h) s seq

abbrev behind_tag : List ℕ → List ℕ
behind_tag [] = []
behind_tag (t ∷ rest) = rest
