-- ===== src/Storage/Wal/Cutoff.antt =====
-- A file that ends within one fragment, its header or its padding.
use rivet_db.Prelude.{
  ℕ, ◌+◌, ◌≤◌, ◌<◌, ◌≡◌, refl, ap, ◌∙◌, subst, Bool, true, false, ◌||◌, not, List, [], ◌∷◌, ◌++◌,
  ltb, ◌==◌, length, arith, Bool-cases, inl, inr, length-append, ◌⊎◌, ==_iff,
}
use rivet_db.Storage.Wal.{header_size, block_remaining, padding_at, zeros, make_header}
use rivet_db.Storage.Wal.Frames.{starts, fragment, kind_at, length-fragment, length-zeros}
use rivet_db.Storage.Wal.Header.{length-make_header}
use rivet_db.Storage.Wal.Steps.{At, At-skip}
use rivet_db.Storage.Wal.Reader.{Reader, again, round}
use rivet_db.Storage.Wal.Fragments.{past_padding, room_after_padding, kind_low, kind_high, frame}
use rivet_db.Storage.Wal.Accept.{Going}
use rivet_db.Storage.Wal.Pieces.{moved-Going}
use rivet_db.Storage.Wal.Torn.{
  leaves_tail, leaves_tail-inside, leaves_tail-past, Halts, stop_later, cut_in_two, nothing_left,
  short_padding, short_header, short_body,
}

-- A reader that halts after a round halts.
pub again-Halts :
    (file : List ℕ) (r r1 : Reader) (marks : Bool)
    → r1.valid_end ≡ r.valid_end
    → round file r ≡ again r1
    → Halts file r1 marks
    → Halts file r marks
again-Halts file r r1 marks kept e (r', stops, cut) = (
  r',
  stop_later e stops,
  record { truncated = cut.truncated; error = cut.error; valid_end = cut.valid_end ∙ kept },
)

-- What a halt marks, by another name.
pub Halts-as :
    (file : List ℕ) (r : Reader) {marks marks' : Bool}
    → marks ≡ marks'
    → Halts file r marks
    → Halts file r marks'
Halts-as file r e halts = subst (Halts file r) e halts

pub padded-Halts :
    (file rest : List ℕ) (r : Reader) (marks : Bool)
    → At file r.offset (zeros (padding_at r.offset) ++ rest)
    → Halts file (record r { offset = starts r.offset }) marks
    → Halts file r marks
padded-Halts file rest r marks h halts = elim (past_padding file rest r h) [
  | inl e ↦ again-Halts file r (record r { offset = starts r.offset }) marks refl e halts
  | inr e ↦ subst (λ n. Halts file (record r { offset = n }) marks) e halts
]

-- What is marked, in a record or before it.
abbrev pub marks_at : Reader → ℕ → Bool
marks_at r n = r.assembling || leaves_tail n (padding_at r.offset)

-- The file ends where the padding begins or ends.
marks_none :
    (r : Reader) (n : ℕ) → leaves_tail n (padding_at r.offset) ≡ false → r.assembling ≡ marks_at r n
marks_none r n e = ground (arith, e)

marks_some : (r : Reader) (n : ℕ) → leaves_tail n (padding_at r.offset) ≡ true → true ≡ marks_at r n
marks_some r n e = ground (arith, e)

pub no_bytes : (bytes : List ℕ) → length bytes ≡ 0 → bytes ≡ []
no_bytes [] e = refl
no_bytes (b ∷ bs) e = absurd (omega arith)

-- The file ends in the padding.
pub padding-Halts :
    (file bytes c : List ℕ) (r : Reader)
    → Going r
    → At file r.offset bytes
    → 0 < length c
    → bytes ++ c ≡ zeros (padding_at r.offset)
    → Halts file r (marks_at r (length bytes))
padding-Halts file bytes c r going h some_left e =
    let size : length bytes + length c ≡ padding_at r.offset =
      omega (arith, ap length e, length-append bytes c, length-zeros (padding_at r.offset)) in
    elim (Bool-cases (ltb (block_remaining r.offset) header_size)) [
      | inl short ↦
          let padded : padding_at r.offset ≡ block_remaining r.offset = rw short refl in
          elim (Bool-cases (length bytes == 0)) [
            | inl none_here ↦
                let none_left = no_bytes bytes ((==_iff (length bytes) 0).0 none_here) in
                Halts-as file r
                  (marks_none r (length bytes)
                    (ap (λ (l : List ℕ). leaves_tail (length l) (padding_at r.offset)) none_left))
                  (nothing_left file r going (subst (At file r.offset) none_left h))
            | inr here ↦
                let some_here : 0 < length bytes = ground (arith, here) in
                Halts-as file r
                  (marks_some r (length bytes) (
                    leaves_tail-inside (length bytes) (padding_at r.offset) some_here
                      (omega (arith, size, padded))))
                  (short_padding file bytes c r going (ground (arith, short)) some_here
                    (omega (arith, size, padded)) (subst (λ n. bytes ++ c ≡ zeros n) padded e) h)
          ]
      | inr long ↦
          let unpadded : padding_at r.offset ≡ 0 = rw long refl in
          absurd (omega (arith, size, unpadded))
    ]

-- The file ends in a header.
pub header-Halts :
    (file bytes c header : List ℕ) (r : Reader)
    → Going r
    → header_size ≤ block_remaining r.offset
    → length header ≡ header_size
    → At file r.offset bytes
    → 0 < length c
    → bytes ++ c ≡ header
    → Halts file r (r.assembling || not (length bytes == 0))
header-Halts file bytes c header r going room sized h some_left e =
    let size : length bytes + length c ≡ header_size =
      omega (arith, ap length e, length-append bytes c, sized) in
    elim (Bool-cases (length bytes == 0)) [
      | inl none_here ↦ Halts-as file r (ground (arith, none_here)) (
          nothing_left file r going
            (subst (At file r.offset) (no_bytes bytes ((==_iff (length bytes) 0).0 none_here)) h))
      | inr here ↦
          Halts-as file r (ground (arith, here))
            (short_header file bytes r going room (ground (arith, here)) (omega (arith, size)) h)
    ]

header_marks : (n p b : ℕ) → n ≡ p + b → not (b == 0) ≡ leaves_tail n p
header_marks n p b e = ground (arith, e)

-- The file ends in a fragment, or has the whole of it.
pub frame-Halts :
    (file : List ℕ) (first : Bool) (payload more bytes cut : List ℕ) (r : Reader)
    → Going r
    → At file r.offset bytes
    → bytes ++ cut ≡ frame first payload r.offset more
    → Halts file r (marks_at r (length bytes))
      ⊎ ((b : List ℕ) × (bytes ≡ frame first payload r.offset b) × (b ++ cut ≡ more))
frame-Halts file first payload more bytes cut r going h e =
    let body = fragment payload r.offset in
    let kind = kind_at first payload r.offset in
    let header = make_header body kind in
    let sized = length-make_header body kind in
    let at = starts r.offset in
    let r1 = record r { offset = at } in
    let padding = zeros (padding_at r.offset) in
    let going1 = moved-Going r at r.record_at r.assembly r.assembling going in
    let room = room_after_padding r.offset in
    elim (cut_in_two padding (header ++ (body ++ more)) bytes cut e) [
      | inl (c, some_left, e0) ↦ inl (padding-Halts file bytes c r going h some_left e0)
      | inr (b1, e1, e1') ↦
          let h0 = subst (At file r.offset) e1 h in
          let h1 : At file at b1 =
            subst (λ n. At file (r.offset + n) b1) (length-zeros (padding_at r.offset))
              (At-skip padding b1 h0) in
          let counted : length bytes ≡ padding_at r.offset + length b1 =
            omega
              (arith, ap length e1, length-append padding b1, length-zeros (padding_at r.offset)) in
          elim (cut_in_two header (body ++ more) b1 cut e1') [
            | inl (c, some_left, e0) ↦ inl (
                padded-Halts file b1 r (marks_at r (length bytes)) h0 (
                  Halts-as file r1
                    (ap (λ b. r.assembling || b)
                      (header_marks (length bytes) (padding_at r.offset) (length b1) counted))
                    (header-Halts file b1 c header r1 going1 room sized h1 some_left e0)))
            | inr (b2, e2, e2') ↦ elim (cut_in_two body more b2 cut e2') [
              | inl (c, some_left, e0) ↦ inl (
                  padded-Halts file b1 r (marks_at r (length bytes)) h0 (
                    Halts-as file r1
                      (marks_some r (length bytes) (
                        leaves_tail-past (length bytes) (padding_at r.offset)
                          (omega (arith, counted, ap length e2, length-append header b2, sized))))
                      (short_body file body b2 kind r1 going1 room
                        (omega (arith, length-fragment payload r.offset)) (kind_low first _)
                        (kind_high first _) (omega (arith, ap length e0, length-append b2 c))
                        (subst (At file at) e2 h1))))
              | inr (b3, e3, e3') ↦
                  inr (b3, e1 ∙ ap (λ l. padding ++ l) (e2 ∙ ap (λ l. header ++ l) e3), e3')
            ]
          ]
    ]
