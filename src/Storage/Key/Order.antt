-- ===== src/Storage/Key/Order.antt =====
-- `CompareInternal` is a strict total order whose equality is equality of keys.
use rivet_db.Prelude.{◌≡◌, ◌↔◌, Ordering, arith}
use rivet_db.Prelude.Bytes.{
  compare_bytes_refl, compare_bytes→eq, compare_bytes-flip, compare_bytes_trans, flip,
}
use rivet_db.Storage.Key.{InternalKey, compare_internal, after_user}

after_user→eq : (a b : InternalKey) → a.user_key ≡ b.user_key → after_user a b ≡ Ordering.eq → a ≡ b
unfolding after_user
after_user→eq a b u h = ground arith

after_user_refl : (a : InternalKey) → after_user a a ≡ Ordering.eq
unfolding after_user
after_user_refl a = ground arith

after_user-flip : (a b : InternalKey) → after_user b a ≡ flip (after_user a b)
unfolding after_user
after_user-flip a b = ground arith

after_user_trans :
    (a b c : InternalKey)
    → after_user a b ≡ Ordering.lt
    → after_user b c ≡ Ordering.lt
    → after_user a c ≡ Ordering.lt
unfolding after_user
after_user_trans a b c h k = ground arith

compare_internal_refl : (a : InternalKey) → compare_internal a a ≡ Ordering.eq
unfolding compare_internal
compare_internal_refl a = ground (arith, compare_bytes_refl a.user_key, after_user_refl a)

-- Two keys compare equal exactly when they are the same key.
pub compare_internal_eq_iff : (a b : InternalKey) → (compare_internal a b ≡ Ordering.eq) ↔ (a ≡ b)
unfolding compare_internal
compare_internal_eq_iff a b = (
  λ h. ground (arith, compare_bytes→eq a.user_key b.user_key, after_user→eq a b),
  λ e. rw e (compare_internal_refl b),
)

-- Swapping the arguments flips the result.
pub compare_internal-flip : (a b : InternalKey) → compare_internal b a ≡ flip (compare_internal a b)
unfolding compare_internal
compare_internal-flip a b =
    ground (arith, compare_bytes-flip a.user_key b.user_key, after_user-flip a b)

-- The strict order of internal keys is transitive.
pub compare_internal_trans :
    (a b c : InternalKey)
    → compare_internal a b ≡ Ordering.lt
    → compare_internal b c ≡ Ordering.lt
    → compare_internal a c ≡ Ordering.lt
unfolding compare_internal
compare_internal_trans a b c h k = ground (
  arith,
  compare_bytes_trans a.user_key b.user_key c.user_key,
  compare_bytes→eq a.user_key b.user_key,
  compare_bytes→eq b.user_key c.user_key,
  compare_bytes_refl a.user_key,
  after_user_trans a b c,
)
