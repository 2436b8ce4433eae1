-- ===== src/Storage/Wal.antt =====
-- internal/storage/wal/format.go and writer.go: the fragments of the write-ahead log, and how records
-- are appended. A file takes every byte that it is given, up to a number where writes begin to fail; a
-- write that fails takes fewer bytes than it was given.
pub mod Reader
mod Header
mod Writes
pub mod Frames
mod Steps
pub mod Recovery
mod Progress
mod Rounds
mod Fragments
mod Accept
mod Pieces
mod Records
mod Torn
mod Cutoff
mod Partial
mod Scans
mod Appends
pub mod Repair
mod Outcomes
mod Log
mod Reopen
mod Witness
use Prim.Native.Nat.{bit_xor}
use rivet_db.Prelude.{
  ℕ, zero, suc, ◌+◌, ◌-◌, ◌*◌, ◌/◌, ◌%◌, ◌^◌, min, Bool, true, false, Option, none, some, List, [],
  ◌∷◌, ◌++◌, ◌&&◌, ◌||◌, not, ltb, leb, ◌==◌, if◌then◌else◌, length, take, drop, Result, ok, err,
}
use rivet_db.Prelude.Bytes.{le_bytes}

pub data Error : Type 0 where
  record_too_large closed_writer writer_failed : Error
  header_checksum_mismatch checksum_mismatch unsupported_version invalid_fragment_type : Error
  invalid_length invalid_padding : Error

abbrev pub block_size : ℕ
block_size = 32 * 2 ^ 10

abbrev pub header_size : ℕ
header_size = 11

abbrev pub max_record_size : ℕ
max_record_size = 64 * 2 ^ 20

-- The kinds of a fragment.
abbrev pub fragment_full : ℕ
fragment_full = 1

abbrev pub fragment_first : ℕ
fragment_first = 2

abbrev pub fragment_middle : ℕ
fragment_middle = 3

abbrev pub fragment_last : ℕ
fragment_last = 4

-- `crc32.Update` with the Castagnoli polynomial, a bit at a time.
abbrev pub crc_bits : ℕ → ℕ → ℕ
crc_bits zero v = v
crc_bits (suc n) v = crc_bits n (if v % 2 == 1 then bit_xor (v / 2) 0x82F63B78 else v / 2)

unfoldable pub crc_bytes : ℕ → List ℕ → ℕ
crc_bytes v [] = v
crc_bytes v (b ∷ bs) = crc_bytes (crc_bits 8 (bit_xor v b)) bs

unfoldable pub crc_update : ℕ → List ℕ → ℕ
unfolding crc_bytes
crc_update crc bytes = 2 ^ 32 - 1 - crc_bytes (2 ^ 32 - 1 - crc) bytes

-- The length and the kind, which the header's checksum covers; the format version is zero.
abbrev pub header_meta : List ℕ → ℕ → List ℕ
header_meta payload kind = le_bytes 2 (length payload) ++ kind ∷ []

abbrev pub header_crc : List ℕ → ℕ → ℕ
header_crc payload kind = crc_update 0 (header_meta payload kind)

unfoldable pub make_header : List ℕ → ℕ → List ℕ
make_header payload kind =
    le_bytes 4 (crc_update (header_crc payload kind) payload)
    ++ (le_bytes 4 (header_crc payload kind) ++ header_meta payload kind)

abbrev pub zeros : ℕ → List ℕ
zeros zero = []
zeros (suc n) = 0 ∷ zeros n

-- What is left of the block at an offset.
abbrev pub block_remaining : ℕ → ℕ
block_remaining offset = block_size - offset % block_size

abbrev pub padding_at : ℕ → ℕ
padding_at offset = if ltb (block_remaining offset) header_size then block_remaining offset else 0

-- The payload that fits after a header at an offset.
abbrev pub room_at : ℕ → ℕ
room_at offset = block_remaining offset - header_size

abbrev pub choose_fragment_kind : (first last : Bool) → ℕ
choose_fragment_kind true true = fragment_full
choose_fragment_kind true false = fragment_first
choose_fragment_kind false true = fragment_last
choose_fragment_kind false false = fragment_middle

pub data Durability : Type 0 where
  sync_batch sync_none : Durability

pub record Position : Type 0 where
  pub start : ℕ
  pub end : ℕ

-- `file` is what the file holds; `directory` says whether the directory is still to be synced.
pub record Writer : Type 0 where
  pub file : List ℕ
  pub offset : ℕ
  pub durability : Durability
  pub directory : Bool
  pub closed : Bool
  pub failed : Option Error
  pub close_failed : Bool

-- What the operating system does in a call: how many bytes the file still takes, where there is a
-- limit, and whether the syncs and the closing of the directory succeed.
pub record Device : Type 0 where
  pub accepts : Option ℕ
  pub file_syncs : Bool
  pub directory_syncs : Bool
  pub directory_closes : Bool

abbrev pub Disk : Type 0
Disk = Writer × Device

-- A step that may fail, and the next one if it does not.
abbrev pub and_then : Disk × Bool → (Disk → Disk × Bool) → Disk × Bool
and_then (d, true) next = next d
and_then (d, false) next = (d, false)

abbrev pub poison : Writer → Writer
poison w = record w { failed = some writer_failed }

abbrev pub grown : Writer → List ℕ → Writer
grown w bytes = record w { file = w.file ++ bytes; offset = w.offset + length bytes }

abbrev pub write_up_to : Option ℕ → List ℕ → Disk → Disk × Bool
write_up_to none bytes (w, s) = ((grown w bytes, s), true)
write_up_to (some limit) bytes (w, s) =
    if leb (length bytes) limit
    then ((grown w bytes, record s { accepts = some (limit - length bytes) }), true)
    else ((poison (grown w (take limit bytes)), record s { accepts = some 0 }), false)

abbrev pub write_all : List ℕ → Disk → Disk × Bool
write_all bytes (w, s) = write_up_to s.accepts bytes (w, s)

-- The loop of Append over what is left of the payload.
unfoldable pub write_fragments : ℕ → Bool → List ℕ → Disk → Disk × Bool
write_fragments zero first payload d = (d, true)
write_fragments (suc fuel) first payload d =
    let at = d.0.offset + padding_at d.0.offset in
    let size = min (length payload) (room_at at) in
    let fragment = take size payload in
    let kind = choose_fragment_kind first (size == length payload) in
    let fragments = and_then (write_all (zeros (padding_at d.0.offset)) d) (λ d1.
      and_then (write_all (make_header fragment kind) d1) (λ d2.
        and_then (write_all fragment d2)
          (λ d3. write_fragments fuel false (drop size payload) d3))) in
    if first || ltb 0 (length payload) then fragments else (d, true)

-- Two rounds for each byte and one to spare: a block may have room for a header only.
abbrev pub write_fuel : List ℕ → ℕ
write_fuel payload = 2 * length payload + 2

-- syncLocked
unfoldable pub sync_locked : Disk → Disk × Bool
sync_locked (w, s) =
    if not s.file_syncs
    then ((poison w, s), false)
    else if not w.directory
    then ((w, s), true)
    else if not s.directory_syncs
    then ((poison w, s), false)
    else if not s.directory_closes
    then ((poison (record w { directory = false }), s), false)
    else ((record w { directory = false }, s), true)

abbrev pub sync_after : Durability → Disk → Disk × Bool
sync_after sync_batch d = sync_locked d
sync_after sync_none d = (d, true)

abbrev pub positioned : ℕ → ℕ → Disk × Bool → Writer × Result Error Position
positioned start end ((w, s), true) = (w, ok (record { start = start; end = end }))
positioned start end ((w, s), false) = (w, err writer_failed)

abbrev pub appended : ℕ → Disk × Bool → Writer × Result Error Position
appended start ((w, s), false) = (w, err writer_failed)
appended start ((w, s), true) = positioned start w.offset (sync_after w.durability (w, s))

abbrev pub append_open : Option Error → List ℕ → Disk → Writer × Result Error Position
append_open (some e) payload (w, s) = (w, err e)
append_open none payload (w, s) =
    appended (w.offset + padding_at w.offset)
      (write_fragments (write_fuel payload) true payload (w, s))

unfoldable pub append : List ℕ → Disk → Writer × Result Error Position
append payload (w, s) =
    if ltb max_record_size (length payload)
    then (w, err record_too_large)
    else if w.closed
    then (w, err closed_writer)
    else append_open w.failed payload (w, s)

unfoldable pub sync : Disk → Writer × Result Error (Unit {0})
sync (w, s) =
    let synced = sync_locked (w, s) in
    if w.closed then (w, err closed_writer) else elim w.failed [
      | some e ↦ (w, err e)
      | none ↦ (synced.0.0, if synced.1 then ok tt else err writer_failed)
    ]

-- Close, given what the file's and the directory's answer; the Boolean says whether it went well.
abbrev pub close : (file_closes directory_closes : Bool) → Writer → Writer × Bool
close file_closes directory_closes w =
    let failing = not file_closes || (w.directory && not directory_closes) in
    if w.closed
    then (w, not w.close_failed)
    else (record w { closed = true; close_failed = failing; directory = false }, not failing)
