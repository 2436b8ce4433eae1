-- ===== src/Storage/Wal/Torn.antt =====
-- What Next makes of a log that ends within a record.
use rivet_db.Prelude.{
  ℕ, zero, suc, ◌+◌, ◌-◌, ◌≤◌, ◌<◌, min, ◌≡◌, refl, ap, ap₂, Bool, ◌||◌, not, ◌∙◌, sym, subst, true,
  false, none, some, List, [], ◌∷◌, ◌++◌, ltb, ◌==◌, length, arith, Bool-cases, inl, inr,
  length-append, ◌⊎◌, ==_iff,
}
use mathlib.Core.List.{append-nil}
use rivet_db.Prelude.Bytes.{equal_bytes_refl}
use rivet_db.Storage.Wal.{
  header_size, block_remaining, zeros, make_header, fragment_full, fragment_last,
}
use rivet_db.Storage.Wal.Header.{length-make_header, length_of-make_header}
use rivet_db.Storage.Wal.Steps.{At, At-read, header_step, room_left}
use rivet_db.Storage.Wal.Reader.{
  Reader, again, stop, round, consume_padding, read_at, mark_tail, incomplete_start,
}
use rivet_db.Storage.Wal.Recovery.{is_truncated}
use rivet_db.Storage.Wal.Accept.{Going}

-- Whether so many bytes of a record, that many of padding before it, are a truncated tail: nothing
-- at all is none, nor is the padding alone.
abbrev pub leaves_tail : (bytes padding : ℕ) → Bool
leaves_tail bytes padding = not (bytes == 0 || bytes == padding)

pub leaves_tail-inside : (n p : ℕ) → 0 < n → n < p → leaves_tail n p ≡ true
leaves_tail-inside n p some_here short = ground arith

pub leaves_tail-past : (n p : ℕ) → p < n → leaves_tail n p ≡ true
leaves_tail-past n p far = ground arith

pub leaves_tail-padding : (n p : ℕ) → n ≡ p → leaves_tail n p ≡ false
leaves_tail-padding n p same = ground arith

-- The reader stopped where it was, with no error, and marked a tail or did not.
pub record Cut (r r' : Reader) (marks : Bool) : Type 0 where
  pub truncated : is_truncated r'.tail ≡ marks
  pub error : r'.error ≡ none
  pub valid_end : r'.valid_end ≡ r.valid_end

-- Rounds that end with no record.
pub data Stops (file : List ℕ) : Reader → Reader → Type 0 where
  stop_now : {r r' : Reader} → round file r ≡ stop r' → Stops file r r'
  stop_later : {r r1 r' : Reader} → round file r ≡ again r1 → Stops file r1 r' → Stops file r r'

abbrev pub Halts : List ℕ → Reader → Bool → Type 0
Halts file r marks = (r' : Reader) × Stops file r r' × Cut r r' marks

-- A list that begins two others, cut where the first of them ends.
pub cut_in_two :
    (xs ys bytes cut : List ℕ)
    → bytes ++ cut ≡ xs ++ ys
    → ((c : List ℕ) × (0 < length c) × (bytes ++ c ≡ xs))
      ⊎ ((b : List ℕ) × (bytes ≡ xs ++ b) × (b ++ cut ≡ ys))
cut_in_two [] ys bytes cut h = inr (bytes, refl, h)
cut_in_two (x ∷ xs) ys [] cut h = inl (x ∷ xs, omega arith, refl)
cut_in_two (x ∷ xs) ys (b ∷ bs) cut h =
    let head : b ≡ x = cc in
    let tails : bs ++ cut ≡ xs ++ ys = cc in
    elim (cut_in_two xs ys bs cut tails) [
      | inl (c, some_left, e) ↦ inl (c, some_left, ap₂ (λ a l. a ∷ l) head e)
      | inr (rest, e, e') ↦ inr (rest, ap₂ (λ a l. a ∷ l) head e, e')
    ]

part_of_zeros : (n : ℕ) (bytes c : List ℕ) → bytes ++ c ≡ zeros n → bytes ≡ zeros (length bytes)
part_of_zeros n [] c h = refl
part_of_zeros zero (b ∷ bs) c h = cc
part_of_zeros (suc n) (b ∷ bs) c h =
    let tails : bs ++ c ≡ zeros n = cc in
    let head : b ≡ 0 = cc in ap₂ (λ a l. a ∷ l) head (part_of_zeros n bs c tails)

-- The end of the file, within a record or not.
pub nothing_left :
    (file : List ℕ) (r : Reader) → Going r → At file r.offset [] → Halts file r r.assembling
unfolding round
nothing_left file r going h =
    let ended : (r.offset == length file) ≡ true =
      (==_iff r.offset (length file)).1 (omega (arith, h.ends)) in
    elim (Bool-cases r.assembling) [
      | inl e ↦ (
        record r { tail = some (record { start = r.record_at; end = length file }); done = true },
        stop_now (simp (ended, e) refl),
        record { truncated = sym e; error = going.error; valid_end = refl },
      )
      | inr e ↦ (
        record r { done = true },
        stop_now (simp (ended, e) refl),
        record {
          truncated = ap is_truncated going.tail ∙ sym e;
          error = going.error;
          valid_end = refl;
        },
      )
    ]

marked :
    (file : List ℕ) (r r1 : Reader) (start : ℕ)
    → Going r
    → r1.error ≡ r.error
    → r1.valid_end ≡ r.valid_end
    → round file r ≡ mark_tail (length file) start r1
    → Halts file r true
marked file r r1 start going same kept e =
    (_, stop_now e, record { truncated = refl; error = same ∙ going.error; valid_end = kept })

pub short_padding :
    (file bytes c : List ℕ) (r : Reader)
    → Going r
    → block_remaining r.offset < header_size
    → 0 < length bytes
    → length bytes < block_remaining r.offset
    → bytes ++ c ≡ zeros (block_remaining r.offset)
    → At file r.offset bytes
    → Halts file r true
unfolding round consume_padding
short_padding file bytes c r going short some_left part zeroes h =
    let left = block_remaining r.offset in
    let inside : (r.offset == length file) ≡ false = ground (arith, h.ends) in
    let near : ltb left header_size ≡ true = ground arith in
    let available : min left (length file - r.offset) ≡ length bytes = omega (arith, h.ends) in
    let read : read_at file r.offset (length bytes) ≡ zeros (length bytes) =
      At-read (length bytes) bytes [] refl (subst (At file r.offset) (sym (append-nil bytes)) h)
      ∙ part_of_zeros left bytes c zeroes in
    let cut : ltb (length bytes) left ≡ true = ground arith in
    marked file r (record r { offset = r.offset + length bytes }) (incomplete_start r) going refl
      refl (rw (inside, near, available, read, equal_bytes_refl (zeros (length bytes)), cut) refl)

pub short_header :
    (file bytes : List ℕ) (r : Reader)
    → Going r
    → header_size ≤ block_remaining r.offset
    → 0 < length bytes
    → length bytes < header_size
    → At file r.offset bytes
    → Halts file r true
unfolding round
short_header file bytes r going room some_left short h =
    let inside : (r.offset == length file) ≡ false = ground (arith, h.ends) in
    let far : ltb (block_remaining r.offset) header_size ≡ false = ground arith in
    let cut : ltb (length file - r.offset) header_size ≡ true = ground (arith, h.ends) in
    marked file r r (incomplete_start r) going refl refl (rw (inside, far, cut) refl)

pub short_body :
    (file body part : List ℕ) (kind : ℕ) (r : Reader)
    → Going r
    → header_size ≤ block_remaining r.offset
    → length body ≤ block_remaining r.offset - header_size
    → fragment_full ≤ kind
    → kind ≤ fragment_last
    → length part < length body
    → At file r.offset (make_header body kind ++ part)
    → Halts file r true
short_body file body part kind r going room fit low high short h =
    let size : r.offset + (header_size + length part) ≡ length file =
      omega
        (arith, h.ends, length-append (make_header body kind) part, length-make_header body kind) in
    let stored = length_of-make_header body kind (omega (arith, room_left r.offset)) in
    let cut : ltb (length file - (r.offset + header_size)) (length body) ≡ true = ground arith in
    marked file r r (incomplete_start r) going refl refl
      (header_step file body part kind r room fit low high h ∙ rw (stored, cut) refl)
