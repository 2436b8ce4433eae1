-- ===== src/Storage/Wal/Reopen.antt =====
-- Repair and opening after a crash.
use rivet_db.Prelude.{
  ℕ, ◌≤◌, ◌<◌, ◌≡◌, refl, ap, ◌∙◌, Bool, true, false, none, some, List, [], ◌++◌, length, take,
  ◌&&◌, if◌then◌else◌, Result, ok, err, take-append, ==_refl,
}
use rivet_db.Storage.Wal.{padding_at, Writer, Durability, Position, max_record_size, write_fuel}
use rivet_db.Storage.Wal.Frames.{frames}
use rivet_db.Storage.Wal.Torn.{leaves_tail}
use rivet_db.Storage.Wal.Appends.{Appends}
use rivet_db.Storage.Wal.Log.{recover-Appends, recover_torn}
use rivet_db.Storage.Wal.Recovery.{Recovery, RecoveryResult, recover, accept_every}
use rivet_db.Storage.Wal.Repair.{
  repair_tail, repaired, cut_tail, open_scanned, truncated_tail, recovery_state_changed,
  same_result, same_bool, open_writer, opened, new_writer, RepairError, no_truncated_tail,
}

tested_twice {ℓ} :
    {A : Type ℓ} (b : Bool) (x y z : A)
    → (if b then (if b then x else y) else z) ≡ (if b then x else z)
tested_twice true x y z = refl
tested_twice false x y z = refl

same_bool_refl : (b : Bool) → same_bool b b ≡ true
same_bool_refl true = refl
same_bool_refl false = refl

same_result_refl : (r : RecoveryResult) → same_result r r ≡ true
same_result_refl r =
    rw (==_refl r.valid_end, ==_refl r.file_end, ==_refl r.records, same_bool_refl r.tail_truncated)
      refl

-- What recovery found, RepairTail finds again.
repair_tail-recovered :
    (file kept : List ℕ) (out : Recovery)
    → recover accept_every file ≡ some out
    → out.failure ≡ none
    → take out.result.valid_end file ≡ kept
    → repair_tail out.result file
      ≡ (if out.result.tail_truncated then ok kept else err no_truncated_tail)
unfolding repair_tail
repair_tail-recovered file kept out e fine prefix =
    let agreed : (same_result out.result out.result && out.result.tail_truncated)
        ≡ out.result.tail_truncated =
      ap (λ b. b && out.result.tail_truncated) (same_result_refl out.result) in
    let again : repaired out.result file (recover accept_every file)
        ≡ (if out.result.tail_truncated then ok kept else err recovery_state_changed) =
      ap (repaired out.result file) e
      ∙ ap (cut_tail out.result file out.result) fine
      ∙ ap (λ b. if b then ok (take out.result.valid_end file) else err recovery_state_changed)
          agreed
      ∙ ap (λ l. if out.result.tail_truncated then ok l else err recovery_state_changed) prefix in
    ap
      (λ (x : Result RepairError (List ℕ)).
        if out.result.tail_truncated then x else err no_truncated_tail)
      again
    ∙ tested_twice out.result.tail_truncated (ok kept) _ _

open_writer-recovered :
    (created : Bool) (durability : Durability) (file : List ℕ) (out : Recovery)
    → recover accept_every file ≡ some out
    → out.failure ≡ none
    → open_writer created durability file ≡ (
        if out.result.tail_truncated
        then err truncated_tail
        else ok (new_writer created durability file))
unfolding open_writer
open_writer-recovered created durability file out e fine =
    ap (opened created durability file) e
    ∙ ap (open_scanned created durability file out.result.tail_truncated) fine

-- After a crash that leaves a proper prefix of the frames of one more record behind a log that only
-- successful appends have written, from an empty file on. Where the prefix is neither empty nor just
-- the padding that ends a block, recovery reports a truncated tail, OpenWriter refuses the file for
-- it, and RepairTail with what recovery found cuts the file back to the records before. Where it is
-- one of the two, recovery reports none, RepairTail refuses, and OpenWriter opens the file at its
-- end. The file of just the records before always opens, at its end.
pub repair_reopens :
    (created : Bool) (durability : Durability) (w w' : Writer) (entries : List (List ℕ × Position))
    (payload bytes cut : List ℕ)
    → w.file ≡ []
    → w.offset ≡ 0
    → Appends w entries w'
    → length payload ≤ max_record_size
    → bytes ++ cut ≡ frames (write_fuel payload) true payload w'.offset
    → 0 < length cut
    → (out : Recovery) × (recover accept_every (w'.file ++ bytes) ≡ some out)
      × (out.result.tail_truncated ≡ leaves_tail (length bytes) (padding_at w'.offset))
      × (repair_tail out.result (w'.file ++ bytes) ≡ (
          if leaves_tail (length bytes) (padding_at w'.offset)
          then ok w'.file
          else err no_truncated_tail))
      × (open_writer created durability (w'.file ++ bytes) ≡ (
          if leaves_tail (length bytes) (padding_at w'.offset)
          then err truncated_tail
          else ok (new_writer created durability (w'.file ++ bytes))))
      × (open_writer created durability w'.file ≡ ok (new_writer created durability w'.file))
repair_reopens created durability w w' entries payload bytes cut empty start written small part
      some_left =
    let file = w'.file ++ bytes in
    let (out, e, recovered, truncated) =
      recover_torn w w' entries payload bytes cut empty start written small part some_left in
    let (clean, e', recovered', whole) = recover-Appends w w' entries empty start written in
    let prefix = ap (λ n. take n file) recovered.valid_end ∙ take-append w'.file bytes in
    (
      out,
      e,
      truncated,
      repair_tail-recovered file w'.file out e recovered.failure prefix
          ∙ ap (λ b. if b then ok w'.file else err no_truncated_tail) truncated,
      open_writer-recovered created durability file out e recovered.failure
          ∙ ap (λ b. if b then err truncated_tail else ok (new_writer created durability file))
              truncated,
      open_writer-recovered created durability w'.file clean e' recovered'.failure
          ∙ ap (λ b. if b then err truncated_tail else ok (new_writer created durability w'.file))
              whole,
    )
