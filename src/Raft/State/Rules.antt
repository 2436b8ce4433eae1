-- ===== src/Raft/State/Rules.antt =====
-- Rules for what an action does to the node, whatever its outcome: an error and a panic leave the
-- state that they leave, and that is related too.
use rivet_db.Prelude.{◌≡◌, refl, Bool, true, false, if◌then◌else◌}
use rivet_db.Raft.Types.{Error}
use rivet_db.Raft.State.{
  Node, Outcome, done, fail, panic, M, continue, ◌>>=◌, pure, raise, read, gets, assert, when,
}

-- A relation that holds across nothing and composes.
pub record IsPreorder (R : Node → Node → Type 0) : Type 0 where
  pub stay : (n : Node) → R n n
  pub compose : (a b c : Node) → R a b → R b c → R a c

pub record Moves (R : Node → Node → Type 0) {A : Type 0} (m : M A) : Type 0 where
  pub at : (n : Node) → R n (m n).1

module _ {R : Node → Node → Type 0} (p : IsPreorder R) where
  pub Moves-same : {A : Type 0} (m : M A) → ((n : Node) → (m n).1 ≡ n) → Moves R m
  Moves-same m h = record { at = λ n. rw (h n) (p.stay n) }

  pub Moves-pure : {A : Type 0} (a : A) → Moves R (pure a)
  Moves-pure a = record { at = p.stay }

  pub Moves-raise : {A : Type 0} (e : Error) → Moves R (raise {A = A} e)
  Moves-raise e = record { at = p.stay }

  pub Moves-read : {A : Type 0} (f : Node → Outcome A) → Moves R (read f)
  Moves-read f = record { at = p.stay }

  pub Moves-gets : {A : Type 0} (f : Node → A) → Moves R (gets f)
  Moves-gets f = record { at = p.stay }

  pub Moves-continue :
      {A B : Type 0} (r : Outcome A) (f : A → M B)
      → ((a : A) → Moves R (f a))
      → Moves R (continue r f)
  Moves-continue (done a) f h = record { at = λ n. (h a).at n }
  Moves-continue (fail e) f h = record { at = p.stay }
  Moves-continue panic f h = record { at = p.stay }

  pub Moves-bind :
      {A B : Type 0} (m : M A) (f : A → M B)
      → Moves R m
      → ((a : A) → Moves R (f a))
      → Moves R (m >>= f)
  Moves-bind m f hm hf = record {
    at = λ n. p.compose n (m n).1 _ (hm.at n) ((Moves-continue (m n).0 f hf).at (m n).1);
  }

  pub Moves-assert : (b : Bool) → Moves R (assert b)
  Moves-assert true = record { at = p.stay }
  Moves-assert false = record { at = p.stay }

  pub Moves-when : (b : Bool) (m : M (Unit {0})) → Moves R m → Moves R (when b m)
  Moves-when true m h = h
  Moves-when false m h = record { at = p.stay }

-- A choice made on the state, from the results of its two branches.
pub choose :
    (R : Node → Node → Type 0) {A : Type 0} (n : Node) (b : Bool) (x y : Outcome A × Node)
    → (b ≡ true → R n x.1)
    → (b ≡ false → R n y.1)
    → R n (if b then x else y).1
choose R n true x y hx hy = hx refl
choose R n false x y hx hy = hy refl

-- A choice between two actions.
pub Moves-if :
    (R : Node → Node → Type 0) {A : Type 0} (b : Bool) (m k : M A)
    → Moves R m
    → Moves R k
    → Moves R (if b then m else k)
Moves-if R true m k hm hk = hm
Moves-if R false m k hm hk = hk

-- Two relations in a row: `R` for the first action, `S` for the rest and for the whole.
module _ {R S : Node → Node → Type 0} where
  then_continue :
      {A B : Type 0} (a b : Node) (r : Outcome A) (f : A → M B)
      → R a b
      → ((a b : Node) → R a b → S a b)
      → ((a b c : Node) → R a b → S b c → S a c)
      → ((x : A) → Moves S (f x))
      → S a (continue r f b).1
  then_continue a b (done x) f h weak comp hf = comp a b _ h ((hf x).at b)
  then_continue a b (fail e) f h weak comp hf = weak a b h
  then_continue a b panic f h weak comp hf = weak a b h

  pub Moves-then :
      {A B : Type 0} (m : M A) (f : A → M B)
      → ((a b : Node) → R a b → S a b)
      → ((a b c : Node) → R a b → S b c → S a c)
      → Moves R m
      → ((x : A) → Moves S (f x))
      → Moves S (m >>= f)
  Moves-then m f weak comp hm hf = record {
    at = λ n. then_continue n (m n).1 (m n).0 f (hm.at n) weak comp hf;
  }
