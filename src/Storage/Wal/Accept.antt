-- ===== src/Storage/Wal/Accept.antt =====
-- What acceptFragment makes of a fragment that comes in its place.
use rivet_db.Prelude.{
  ℕ, ◌+◌, ◌-◌, ◌%◌, ◌^◌, ◌≤◌, ◌≡◌, refl, ap, true, false, none, some, List, [], ◌∷◌, ◌++◌, ltb,
  length, take, drop, arith, length-append,
}
use rivet_db.Storage.Wal.{
  max_record_size, fragment_full, fragment_first, fragment_middle, fragment_last,
}
use rivet_db.Storage.Wal.Reader.{Reader, again, found, accept_fragment}

-- A reader that may go on.
pub record Going (r : Reader) : Type 0 where
  pub tail : r.tail ≡ none
  pub error : r.error ≡ none
  pub done : r.done ≡ false
  pub closed : r.closed ≡ false

-- What Next leaves when it found a record.
pub record Delivered (payload : List ℕ) (start end n : ℕ) (r : Reader) : Type 0 where
  pub current :
      r.current
      ≡ some
          (record { payload = payload; position = record { start = start; end = end }; number = n })
  pub offset : r.offset ≡ end
  pub valid_end : r.valid_end ≡ end
  pub number : r.number ≡ (n + 1) % 2 ^ 64
  pub assembling : r.assembling ≡ false
  pub going : Going r

pub take_all : (payload : List ℕ) → take (length payload) payload ≡ payload
take_all [] = refl
take_all (x ∷ xs) = ap (λ l. x ∷ l) (take_all xs)

pub drop_all : (payload : List ℕ) → drop (length payload) payload ≡ []
drop_all [] = refl
drop_all (x ∷ xs) = drop_all xs

pub accept_middle :
    (body : List ℕ) (at : ℕ) (r : Reader)
    → r.assembling ≡ true
    → length r.assembly + length body ≤ max_record_size
    → accept_fragment fragment_middle body at r ≡ again (record r { assembly = r.assembly ++ body })
unfolding accept_fragment
accept_middle body at r assembling small =
    let room : ltb (max_record_size - length r.assembly) (length body) ≡ false = ground arith in
    simp (assembling, room) refl

-- What finishRecord makes of a reader.
abbrev pub delivered : List ℕ → ℕ → Reader → Reader
delivered payload start r = record r {
  current = some (record {
    payload = payload;
    position = record { start = start; end = r.offset };
    number = r.number;
  });
  number = (r.number + 1) % 2 ^ 64;
  valid_end = r.offset;
}

pub delivered-Delivered :
    (payload : List ℕ) (start : ℕ) (r : Reader)
    → r.assembling ≡ false
    → Going r
    → Delivered payload start r.offset r.number (delivered payload start r)
delivered-Delivered payload start r assembling going = record {
  current = refl;
  offset = refl;
  valid_end = refl;
  number = refl;
  assembling = assembling;
  going = record {
    tail = going.tail;
    error = going.error;
    done = going.done;
    closed = going.closed;
  };
}

pub accept_last :
    (body : List ℕ) (at : ℕ) (r : Reader)
    → r.assembling ≡ true
    → length r.assembly + length body ≤ max_record_size
    → accept_fragment fragment_last body at r
      ≡ found (
          delivered
            (r.assembly ++ body)
            r.record_at
            (record r { assembly = []; assembling = false }))
unfolding accept_fragment
accept_last body at r assembling small =
    let room : ltb (max_record_size - length r.assembly) (length body) ≡ false = ground arith in
    let whole : ltb max_record_size (length (r.assembly ++ body)) ≡ false =
      ground (arith, length-append r.assembly body) in
    simp (assembling, room, whole) refl

pub accept_full :
    (body : List ℕ) (at : ℕ) (r : Reader)
    → r.assembling ≡ false
    → length body ≤ max_record_size
    → accept_fragment fragment_full body at r ≡ found (delivered body at r)
unfolding accept_fragment
accept_full body at r assembling small =
    let whole : ltb max_record_size (length body) ≡ false = ground arith in
    simp (assembling, whole) refl

pub accept_first :
    (body : List ℕ) (at : ℕ) (r : Reader)
    → r.assembling ≡ false
    → accept_fragment fragment_first body at r
      ≡ again (record r { assembly = body; assembling = true; record_at = at })
unfolding accept_fragment
accept_first body at r assembling = simp assembling refl
