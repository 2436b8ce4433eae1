-- ===== src/Storage/Wal/Log.antt =====
-- Append and recovery together: a log that only successful appends have written.
use rivet_db.Prelude.{
  ℕ, zero, suc, ◌+◌, ◌%◌, ◌^◌, ◌≤◌, ◌<◌, ◌≡◌, refl, ap, ◌∙◌, sym, subst, Bool, true, false, some,
  List, [], ◌∷◌, ◌++◌, length, drop, arith, drop-append, length-append, Option-cases, inl, inr,
}
use mathlib.Core.List.{append_assoc, append-nil}
use rivet_db.Storage.Wal.{padding_at, max_record_size, Writer, Position, write_fuel}
use rivet_db.Storage.Wal.Frames.{frames, starts}
use rivet_db.Storage.Wal.Writes.{append-Appended}
use rivet_db.Storage.Wal.Steps.{At}
use rivet_db.Storage.Wal.Records.{record-Finds}
use rivet_db.Storage.Wal.Reader.{Reader, new_reader}
use rivet_db.Storage.Wal.Recovery.{
  accept_every, Recovery, recover_from, recover, give_current, is_truncated,
}
use rivet_db.Storage.Wal.Partial.{record-Halts}
use rivet_db.Storage.Wal.Torn.{leaves_tail}
use rivet_db.Storage.Wal.Rounds.{recover_total}
use rivet_db.Storage.Wal.Scans.{Finds-next, Stops-next, at_end_next}
use rivet_db.Storage.Wal.Appends.{
  Appends, no_appends, one_append, AtEnd, append-AtEnd, Appends-extends, Appended-At, frames-same,
  Appends-AtEnd,
}
use rivet_db.Storage.Wal.Outcomes.{
  Recovered, then_consumed-some, Ready, Closes, recover_round, recover_nothing, Recovered-end,
}

Appends-Recovered :
    (P : Bool → Type 0) (fuel n : ℕ) (w w' : Writer) (entries : List (List ℕ × Position))
    (file tail : List ℕ) (r : Reader) (out : Recovery)
    → Appends w entries w'
    → file ≡ w'.file ++ tail
    → Closes P file w'
    → AtEnd w
    → n < 2 ^ 64
    → Ready w r
    → recover_from fuel accept_every file n r ≡ some out
    → Recovered entries file w'.offset n out × P out.result.tail_truncated
Appends-Recovered P zero n w w' entries file tail r out written whole closes h small ready e =
    absurd (recover_nothing n file r out e)
Appends-Recovered P (suc fuel) n w w' entries file tail r out no_appends whole closes h small ready
      e =
    let (r1, stopped, fine, valid, known) = closes r ready in
    Recovered-end P n file w r r1 out small fine valid known
      (recover_round fuel n file r r1 false out stopped e)
Appends-Recovered P (suc fuel) n w w' entries file tail r out
      (one_append {w1 = w1} {entries = rest} payload s p done more) whole closes h small ready e =
    let a = append-Appended payload w w1 s p done in
    let (bytes, extends) = Appends-extends w1 w' rest more in
    let all = whole ∙ ap (λ l. l ++ tail) extends ∙ append_assoc w1.file bytes tail in
    let at = Appended-At payload w w1 file p (bytes ++ tail) r.offset h a all ready.offset in
    let moved = frames-same payload w w1 p r.offset a ready.offset in
    let (r', finds, d) =
      record-Finds file payload (bytes ++ tail) r ready.going ready.assembling a.small at in
    let reached = Finds-next file r r' ready.going (omega (arith, at.ends)) finds in
    let after = recover_from fuel accept_every file ((n + 1) % 2 ^ 64) r' in
    let given =
      subst (λ c. give_current accept_every file n r' c after ≡ some out) d.current
        (recover_round fuel n file r r' true out reached e) in
    let (out', left, same) = then_consumed-some _ after out given in
    let ready' : Ready w1 r' = record {
      going = d.going;
      assembling = d.assembling;
      offset = d.offset ∙ moved;
      valid_to = d.valid_end ∙ moved;
    } in
    let (ih, known) =
      Appends-Recovered P fuel ((n + 1) % 2 ^ 64) w1 w' rest file tail r' out' more whole closes
        (append-AtEnd payload w w1 p h a) (omega arith) ready' left in
    let start = ap starts ready.offset ∙ sym a.start in
    let end = moved ∙ sym a.end in
    subst (λ o. Recovered ((payload, p) ∷ rest) file w'.offset n o × P o.result.tail_truncated)
      (sym same)
      (
        record {
          consumed = λ i. (payload, record { start = start i; end = end i }) ∷ ih.consumed i;
          failure = ih.failure;
          valid_end = ih.valid_end;
          file_end = ih.file_end;
          records = omega (arith, ih.records);
        },
        known,
      )

-- From an empty log on.
recover-closed :
    (P : Bool → Type 0) (w w' : Writer) (entries : List (List ℕ × Position)) (tail : List ℕ)
    → w.file ≡ []
    → w.offset ≡ 0
    → Appends w entries w'
    → Closes P (w'.file ++ tail) w'
    → (out : Recovery) × (recover accept_every (w'.file ++ tail) ≡ some out)
      × Recovered entries (w'.file ++ tail) w'.offset 0 out
      × P out.result.tail_truncated
unfolding recover
recover-closed P w w' entries tail empty start written closes =
    let file = w'.file ++ tail in
    elim (Option-cases (recover accept_every file)) [
      | inl e ↦ absurd (recover_total accept_every file e)
      | inr (out, e) ↦
          let ready : Ready w new_reader = record {
            going = record { tail = refl; error = refl; done = refl; closed = refl };
            assembling = refl;
            offset = sym start;
            valid_to = sym start;
          } in
          let (recovered, known) =
            Appends-Recovered P (suc (length file)) 0 w w' entries file tail new_reader out written
              refl closes (start ∙ sym (ap length empty)) (omega arith) ready e in
          (out, e, recovered, known)
    ]

-- Recovery of a log that only successful appends have written, to an empty file, ends, and gives
-- every payload with the position that its append returned, in order. It reports no failure and no
-- truncated tail, the number of the records modulo 2 ^ 64, and a valid part that is the whole file.
pub recover-Appends :
    (w w' : Writer) (entries : List (List ℕ × Position))
    → w.file ≡ []
    → w.offset ≡ 0
    → Appends w entries w'
    → (out : Recovery) × (recover accept_every w'.file ≡ some out)
      × Recovered entries w'.file (length w'.file) 0 out
      × (out.result.tail_truncated ≡ false)
recover-Appends w w' entries empty start written =
    let at_end = Appends-AtEnd w w' entries written (start ∙ sym (ap length empty)) in
    let closes : Closes (λ b. b ≡ false) (w'.file ++ []) w' = λ r ready. (
      record r { done = true },
      at_end_next (w'.file ++ []) r ready.going ready.assembling
          (ready.offset ∙ at_end ∙ sym (ap length (append-nil w'.file))),
      ready.going.error,
      ready.valid_to,
      ap is_truncated ready.going.tail,
    ) in
    let result = recover-closed (λ b. b ≡ false) w w' entries [] empty start written closes in
    subst
      (λ k.
        (out : Recovery) × (recover accept_every w'.file ≡ some out)
        × Recovered entries w'.file k 0 out
        × (out.result.tail_truncated ≡ false))
      at_end
      (subst
        (λ file.
          (out : Recovery) × (recover accept_every file ≡ some out)
          × Recovered entries file w'.offset 0 out
          × (out.result.tail_truncated ≡ false))
        (append-nil w'.file) result)

-- Recovery of a log that only successful appends have written, to an empty file, and of a proper
-- prefix of the frames of one more record after it: it ends, and gives the payloads and positions of
-- the successful appends, in order, and nothing else. It reports no failure, and a valid part that
-- ends where those records end. It reports a truncated tail, unless what there is of the last record
-- is nothing, or just the padding that ends a block.
pub recover_torn :
    (w w' : Writer) (entries : List (List ℕ × Position)) (payload bytes cut : List ℕ)
    → w.file ≡ []
    → w.offset ≡ 0
    → Appends w entries w'
    → length payload ≤ max_record_size
    → bytes ++ cut ≡ frames (write_fuel payload) true payload w'.offset
    → 0 < length cut
    → (out : Recovery) × (recover accept_every (w'.file ++ bytes) ≡ some out)
      × Recovered entries (w'.file ++ bytes) (length w'.file) 0 out
      × (out.result.tail_truncated ≡ leaves_tail (length bytes) (padding_at w'.offset))
recover_torn w w' entries payload bytes cut empty start written small part some_left =
    let file = w'.file ++ bytes in
    let at_end = Appends-AtEnd w w' entries written (start ∙ sym (ap length empty)) in
    let here : At file w'.offset bytes = record {
      holds = ap (λ k. drop k file) at_end ∙ drop-append w'.file bytes;
      ends = omega (arith, at_end, length-append w'.file bytes);
    } in
    let marks = leaves_tail (length bytes) (padding_at w'.offset) in
    let closes : Closes (λ b. b ≡ marks) file w' = λ r ready.
      let at = subst (λ k. At file k bytes) (sym ready.offset) here in
      let (r1, stops, cut_off) =
        record-Halts file payload bytes cut r ready.going ready.assembling small at some_left
          (part ∙ ap (frames (write_fuel payload) true payload) (sym ready.offset)) in
      (
        r1,
        Stops-next file r r1 ready.going (omega (arith, at.ends)) stops,
        cut_off.error,
        cut_off.valid_end ∙ ready.valid_to,
        cut_off.truncated ∙ ap (λ k. leaves_tail (length bytes) (padding_at k)) ready.offset,
      ) in
    let (out, e, recovered, truncated) =
      recover-closed (λ b. b ≡ marks) w w' entries bytes empty start written closes in
    (out, e, subst (λ k. Recovered entries file k 0 out) at_end recovered, truncated)
