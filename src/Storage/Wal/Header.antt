-- ===== src/Storage/Wal/Header.antt =====
-- The header that makeHeader writes holds the fields that Next reads back.
use rivet_db.Prelude.{ℕ, ◌^◌, ◌<◌, ◌≡◌, refl, List, length, arith}
use rivet_db.Prelude.Bytes.{le_bytes, le_value, le_value-le_bytes}
use rivet_db.Storage.Wal.{header_size, header_meta, header_crc, crc_update, make_header}
use rivet_db.Storage.Wal.Reader.{content_crc_of, header_crc_of, meta_of, length_of, type_of}

pub length-make_header :
    (payload : List ℕ) (kind : ℕ) → length (make_header payload kind) ≡ header_size
unfolding make_header le_bytes
length-make_header payload kind = refl

crc_update-small : (crc : ℕ) (bytes : List ℕ) → crc_update crc bytes < 2 ^ 32
unfolding crc_update
crc_update-small crc bytes = omega arith

pub content_crc_of-make_header :
    (payload : List ℕ) (kind : ℕ)
    → content_crc_of (make_header payload kind) ≡ crc_update (header_crc payload kind) payload
content_crc_of-make_header payload kind =
    unfold make_header le_bytes le_value in
    le_value-le_bytes 4 (crc_update (header_crc payload kind) payload)
      (crc_update-small (header_crc payload kind) payload)

pub header_crc_of-make_header :
    (payload : List ℕ) (kind : ℕ)
    → header_crc_of (make_header payload kind) ≡ header_crc payload kind
header_crc_of-make_header payload kind =
    unfold make_header le_bytes le_value in
    le_value-le_bytes 4 (header_crc payload kind) (crc_update-small 0 (header_meta payload kind))

pub meta_of-make_header :
    (payload : List ℕ) (kind : ℕ) → meta_of (make_header payload kind) ≡ header_meta payload kind
unfolding make_header le_bytes
meta_of-make_header payload kind = refl

pub length_of-make_header :
    (payload : List ℕ) (kind : ℕ)
    → length payload < 2 ^ 16
    → length_of (make_header payload kind) ≡ length payload
length_of-make_header payload kind h =
    unfold make_header le_bytes le_value in le_value-le_bytes 2 (length payload) h

pub type_of-make_header : (payload : List ℕ) (kind : ℕ) → type_of (make_header payload kind) ≡ kind
unfolding make_header le_bytes le_value
type_of-make_header payload kind = omega arith
