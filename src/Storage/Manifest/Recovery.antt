-- ===== src/Storage/Manifest/Recovery.antt =====
-- recoverManifest of internal/storage/manifest/recovery.go, over the edits that the records of the log
-- decode to.
use rivet_db.Prelude.{
  ℕ, ◌+◌, ◌≡◌, refl, subst, ap, Bool, true, false, List, [], ◌∷◌, ◌||◌, not, ◌==◌, length,
  if◌then◌else◌, Result, ok, err, ◌>>=◌, arith, ok_injective, >>=-ok, not-false, ||_false,
}
use rivet_db.Prelude.Bytes.{equal_bytes, equal_bytes→eq}
use rivet_db.Storage.Manifest.Edit.{Error, manifest_corrupt, VersionEdit, comparator_name}
use rivet_db.Storage.Manifest.Version.{Version, initial_version}
use rivet_db.Storage.Manifest.Apply.{apply}
use rivet_db.Storage.Manifest.Apply.Grows.{apply-Advances}
use rivet_db.Storage.Manifest.Apply.WellFormed.{IsWellFormed, apply-IsWellFormed}

-- The callback's effect over the records: each edit applies to the version that the last one made.
abbrev pub apply_all : Version → List VersionEdit → Result Error Version
apply_all v [] = ok v
apply_all v (edit ∷ edits) = apply v edit >>= λ candidate. apply_all candidate edits

-- An error of the scan is joined with ErrManifestCorrupt.
abbrev pub recovered : ℕ → Result Error Version → Result Error Version
recovered applied (err e) = err manifest_corrupt
recovered applied (ok v) =
    if applied == 0 || not (equal_bytes v.comparator comparator_name)
    then err manifest_corrupt
    else ok v

unfoldable pub recover_manifest : List VersionEdit → Result Error Version
recover_manifest edits = recovered (length edits) (apply_all initial_version edits)

pub initial-IsWellFormed : IsWellFormed initial_version
initial-IsWellFormed = record {
  levels = refl;
  unique = λ n. omega arith;
  allocated = λ n h. absurd (omega arith);
  placed = (tt, (tt, (tt, (tt, (tt, (tt, (tt, (tt, tt))))))));
  disjoint = (refl, (refl, (refl, (refl, (refl, (refl, (refl, tt)))))));
  frontier = tt;
  mode = refl;
}

apply_all-IsWellFormed :
    (v : Version) (edits : List VersionEdit) (r : Version)
    → IsWellFormed v
    → apply_all v edits ≡ ok r
    → IsWellFormed r × (r.generation ≡ v.generation + length edits)
apply_all-IsWellFormed v [] r w h =
    let same = ok_injective h in
    (subst IsWellFormed same w, omega (arith, ap (λ (x : Version). x.generation) same))
apply_all-IsWellFormed v (edit ∷ edits) r w h =
    let (c, e, rest) = >>=-ok (apply v edit) (λ candidate. apply_all candidate edits) h in
    let (w', g) = apply_all-IsWellFormed c edits r (apply-IsWellFormed v edit c w e) rest in
    (w', omega (arith, g, (apply-Advances v edit c e).generation))

kept_ok :
    (b : Bool) (u v : Version)
    → (if b then err manifest_corrupt else ok u) ≡ ok v
    → (b ≡ false) × (u ≡ v)
kept_ok true u v h = cc
kept_ok false u v h = (refl, ok_injective h)

recovered-ok :
    (applied : ℕ) (m : Result Error Version) (v : Version)
    → recovered applied m ≡ ok v
    → (m ≡ ok v) × (equal_bytes v.comparator comparator_name ≡ true)
recovered-ok applied (err e) v h = cc
recovered-ok applied (ok u) v h =
    let (fine, same) =
      kept_ok (applied == 0 || not (equal_bytes u.comparator comparator_name)) u v h in
    let name = not-false _ (||_false (applied == 0) _ fine).1 in
    (ap ok same, subst (λ (w : Version). equal_bytes w.comparator comparator_name ≡ true) same name)

-- The version that a manifest recovers to has the invariant, its comparator is the only one there is,
-- and its generation is the number of its edits.
pub recover_manifest-IsWellFormed :
    (edits : List VersionEdit) (v : Version)
    → recover_manifest edits ≡ ok v
    → IsWellFormed v × (v.comparator ≡ comparator_name) × (v.generation ≡ length edits)
unfolding recover_manifest
recover_manifest-IsWellFormed edits v h =
    let (e, name) = recovered-ok (length edits) (apply_all initial_version edits) v h in
    let (w, g) = apply_all-IsWellFormed initial_version edits v initial-IsWellFormed e in
    (w, equal_bytes→eq v.comparator comparator_name name, omega (arith, g))
