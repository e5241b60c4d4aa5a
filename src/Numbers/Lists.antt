-- ===== src/Numbers/Lists.antt =====
-- src/connection.rs: membership in the lists of numbers, and the numbers of a run.
use mathlib.Core.Path.{subst}
use cmppprotocol.Prelude.{
  ℕ, zero, suc, ◌+◌, ◌^◌, ◌<◌, ◌≡◌, ◌≢◌, inl, inr, refl, sym, ap, ◌∙◌, List, [], ◌∷◌, ◌++◌, All,
  Bool, true, false, ◌||◌, ◌==◌, arith, Bool-cases, ==_iff,
}
use cmppprotocol.Sequence.Registry.{contains, set_remove}
use cmppprotocol.Sequence.Batch.{batch_ids}

pub contains-set_remove :
    (l : List ℕ) (y x : ℕ) → x ≢ y → contains (set_remove y l) x ≡ contains l x
unfolding contains set_remove
contains-set_remove [] y x n = refl
contains-set_remove (z ∷ l) y x n = elim (Bool-cases (z == y)) [
  | inl e ↦ rw e (contains-set_remove l y x n ∙ ground (arith, e, n))
  | inr e ↦ rw e (ap (λ (b : Bool). z == x || b) (contains-set_remove l y x n))
]

pub contains-append : (l m : List ℕ) (x : ℕ) → contains (l ++ m) x ≡ (contains l x || contains m x)
unfolding contains
contains-append [] m x = refl
contains-append (y ∷ l) m x = ground (arith, contains-append l m x)

pub batch_ids-small : (base index n x : ℕ) → contains (batch_ids base index n) x ≡ true → x < 2 ^ 32
unfolding contains batch_ids
batch_ids-small base index zero x h = cc
batch_ids-small base index (suc n) x h = ground (arith, h, batch_ids-small base (index + 1) n x)

pub front_contains : (y : ℕ) (l : List ℕ) (x : ℕ) → contains l x ≡ true → contains (y ∷ l) x ≡ true
unfolding contains
front_contains y l x h = ground (arith, h)

pub or_right : (b : Bool) {c : Bool} → c ≡ true → (b || c) ≡ true
or_right true h = refl
or_right false h = h

pub front_absent :
    (y : ℕ) (l : List ℕ) (x : ℕ) → x ≢ y → contains l x ≡ false → contains (y ∷ l) x ≡ false
unfolding contains
front_absent y l x n h = elim (Bool-cases (y == x)) [
  | inl e ↦ absurd (n (sym ((==_iff y x).0 e)))
  | inr e ↦ rw e h
]

pub behind :
    (y : ℕ) (l : List ℕ) (x : ℕ)
    → (y == x) ≡ false
    → contains (y ∷ l) x ≡ true
    → contains l x ≡ true
unfolding contains
behind y l x n h = ground (arith, n, h)

pub All-contains : (P : ℕ → Type 0) (l : List ℕ) (x : ℕ) → All P l → contains l x ≡ true → P x
unfolding contains
All-contains P [] x h c = cc
All-contains P (y ∷ l) x (p, h) c = elim (Bool-cases (y == x)) [
  | inl e ↦ subst P ((==_iff y x).0 e) p
  | inr e ↦ All-contains P l x h (rw e at c)
]
