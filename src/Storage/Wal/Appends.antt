-- ===== src/Storage/Wal/Appends.antt =====
-- Sequences of successful appends, and where their records stand in the file.
use rivet_db.Prelude.{
  drop, ℕ, ◌+◌, ◌≡◌, ap, ap₂, ◌∙◌, sym, subst, true, List, [], ◌∷◌, ◌++◌, length, drop, arith, ok,
  drop-append, length-append,
}
use mathlib.Core.List.{append_assoc, append-nil}
use rivet_db.Storage.Wal.{Writer, Device, Position, append, write_fuel}
use rivet_db.Storage.Wal.Frames.{frames}
use rivet_db.Storage.Wal.Writes.{append-Appended, Appended}
use rivet_db.Storage.Wal.Steps.{At}

-- Appends that succeed, one after the other, with the position that each returned.
pub data Appends : Writer → List (List ℕ × Position) → Writer → Type 0 where
  no_appends : {w : Writer} → Appends w [] w
  one_append :
      {w w1 w' : Writer} {entries : List (List ℕ × Position)} (payload : List ℕ) (s : Device)
      (p : Position)
      → append payload (w, s) ≡ (w1, ok p)
      → Appends w1 entries w'
      → Appends w ((payload, p) ∷ entries) w'

-- A writer whose offset is the end of its file.
abbrev pub AtEnd : Writer → Type 0
AtEnd w = w.offset ≡ length w.file

pub append-AtEnd :
    (payload : List ℕ) (w w' : Writer) (p : Position) → AtEnd w → Appended payload w w' p → AtEnd w'
append-AtEnd payload w w' p h a = omega (
  arith,
  a.offset,
  ap length a.file,
  length-append w.file (frames (write_fuel payload) true payload w.offset),
)

pub Appends-extends :
    (w w' : Writer) (entries : List (List ℕ × Position))
    → Appends w entries w'
    → (bytes : List ℕ) × (w'.file ≡ w.file ++ bytes)
Appends-extends w w' entries no_appends = ([], sym (append-nil w.file))
Appends-extends w w' entries (one_append {w1 = w1} {entries = rest} payload s p done more) =
    let a = append-Appended payload w w1 s p done in
    let (bytes, e) = Appends-extends w1 w' rest more in
    let added = frames (write_fuel payload) true payload w.offset in
    (added ++ bytes, e ∙ ap (λ l. l ++ bytes) a.file ∙ append_assoc w.file added bytes)

-- The first of the records, in the file that holds them all.
pub Appended-At :
    (payload : List ℕ) (w w1 : Writer) (file : List ℕ) (p : Position) (bytes : List ℕ) (offset : ℕ)
    → AtEnd w
    → Appended payload w w1 p
    → file ≡ w1.file ++ bytes
    → offset ≡ w.offset
    → At file offset (frames (write_fuel payload) true payload offset ++ bytes)
Appended-At payload w w1 file p bytes offset h a e same =
    let added = frames (write_fuel payload) true payload w.offset in
    let whole : file ≡ w.file ++ (added ++ bytes) =
      e ∙ ap (λ l. l ++ bytes) a.file ∙ append_assoc w.file added bytes in
    let here : At file w.offset (added ++ bytes) = record {
      holds = ap₂ drop h whole ∙ drop-append w.file (added ++ bytes);
      ends = omega (arith, h, ap length whole, length-append w.file (added ++ bytes));
    } in
    subst (λ o. At file o (frames (write_fuel payload) true payload o ++ bytes)) (sym same) here

pub frames-same :
    (payload : List ℕ) (w w1 : Writer) (p : Position) (offset : ℕ)
    → Appended payload w w1 p
    → offset ≡ w.offset
    → offset + length (frames (write_fuel payload) true payload offset) ≡ w1.offset
frames-same payload w w1 p offset a same =
    ap (λ o. o + length (frames (write_fuel payload) true payload o)) same ∙ sym a.offset

pub Appends-AtEnd :
    (w w' : Writer) (entries : List (List ℕ × Position)) → Appends w entries w' → AtEnd w → AtEnd w'
Appends-AtEnd w w' entries no_appends h = h
Appends-AtEnd w w' entries (one_append {w1 = w1} {entries = rest} payload s p done more) h =
    Appends-AtEnd w1 w' rest more
      (append-AtEnd payload w w1 p h (append-Appended payload w w1 s p done))
