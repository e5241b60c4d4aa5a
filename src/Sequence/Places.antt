-- ===== src/Sequence/Places.antt =====
-- src/connection.rs: what the lookups before and behind a number find among the retired intervals.
use cmppprotocol.Prelude.{
  ℕ, ◌+◌, ◌^◌, ◌≤◌, ◌<◌, ◌≡◌, ◌≢◌, ◌↔◌, inl, inr, refl, sym, ap, ◌∙◌, [], ◌∷◌, ◌++◌, append_assoc,
  none, some, true, false, arith, le→leb, lt→leb, Bool-cases,
}
use mathlib.Core.Path.{subst}
use cmppprotocol.Sequence.{
  Interval, Intervals, floor, ceiling, retired_sequence_contains, reaches, is_succ,
  joining_previous, joining_next,
}
use cmppprotocol.Sequence.Intervals.{
  Covers, Chain, Chain-le, Chain-widen, Covers-append, inside, between, place, floor-above,
  floor-middle, ceiling-append, ceiling-here, between-¬Covers,
}

-- The last interval of a chain that is not empty.
data LastOf (lo hi : ℕ) (m : Intervals) : Type 0 where
  no_last : m ≡ [] → LastOf lo hi m
  last :
      (b : Intervals) (i : Interval)
      → m ≡ b ++ (i ∷ [])
      → Chain lo i.start b
      → i.start ≤ i.end
      → i.end + 1 ≤ hi
      → LastOf lo hi m

last_of : (lo hi : ℕ) (m : Intervals) → Chain lo hi m → LastOf lo hi m
unfolding Chain
last_of lo hi [] c = no_last refl
last_of lo hi (i ∷ m) (p, q, c) = elim (last_of (i.end + 1) hi m c) [
  | no_last e ↦ last [] i (ap (◌∷◌ i) e) p q (Chain-le (i.end + 1) hi m c)
  | last b j e cb s t ↦ last (i ∷ b) j (ap (◌∷◌ i) e) (p, q, cb) s t
]

pub missed :
    (m : Intervals) (x : ℕ) (b a : Intervals)
    → m ≡ b ++ a
    → Chain 0 x b
    → Chain (x + 1) (2 ^ 32) a
    → retired_sequence_contains m x ≡ false
unfolding retired_sequence_contains reaches
missed m x b a e cb ca = elim (last_of 0 x b cb) [
  | no_last none_before ↦ rw (e, none_before, floor-above x (2 ^ 32) a ca)
  | last b' i eb cb' s t ↦
      let found : floor x m ≡ some i =
        rw (e, eb)
          (ap (floor x) (append_assoc b' (i ∷ []) a)
            ∙ floor-middle x 0 b' i a cb' (omega arith) (floor-above x (2 ^ 32) a ca)) in
      rw (found, lt→leb x i.end (omega arith))
]

true-false : true ≢ false
true-false h = cc

-- The membership test of the code is membership.
pub retired_sequence_contains-Covers :
    (m : Intervals) (x : ℕ)
    → Chain 0 (2 ^ 32) m
    → x < 2 ^ 32
    → (retired_sequence_contains m x ≡ true) ↔ Covers m x
unfolding retired_sequence_contains reaches
retired_sequence_contains-Covers m x c h = elim (place 0 (2 ^ 32) m x c (omega arith) h) [
  | inside b i a e cb s t ca ↦
      let found : floor x m ≡ some i = rw e (
        floor-middle x 0 b i a cb s (
          floor-above x (2 ^ 32) a (
            Chain-widen (i.end + 1) (x + 1) (2 ^ 32) (2 ^ 32) a (omega arith) (omega arith) ca))) in
      let yes : Covers m x =
        subst (λ (l : Intervals). Covers l x) (sym e)
          ((Covers-append b (i ∷ a) x).1 (inr (unfold Covers in inl (s, t)))) in
      (λ _. yes, λ _. rw (found, le→leb x i.end t))
  | between b a e cb ca ↦
      let no : Covers m x → ⊥ =
        λ k. between-¬Covers 0 (2 ^ 32) b a x cb ca (subst (λ (l : Intervals). Covers l x) e k) in
      (λ k. absurd (true-false (sym k ∙ missed m x b a e cb ca)), λ k. absurd (no k))
]

-- The interval that ends just below the number, at the end of what stands before it.
pub data Before (x : ℕ) (b a : Intervals) : Type 0 where
  apart_before : joining_previous x (floor x (b ++ a)) ≡ none → Before x b a
  joins_before :
      (b' : Intervals) (i : Interval)
      → joining_previous x (floor x (b ++ a)) ≡ some i
      → b ≡ b' ++ (i ∷ [])
      → i.end + 1 ≡ x
      → Chain 0 i.start b'
      → i.start ≤ i.end
      → Before x b a

pub before :
    (x : ℕ) (b a : Intervals) → x < 2 ^ 32 → Chain 0 x b → Chain (x + 1) (2 ^ 32) a → Before x b a
unfolding joining_previous
before x b a h cb ca = elim (last_of 0 x b cb) [
  | no_last e ↦ apart_before (rw (e, floor-above x (2 ^ 32) a ca))
  | last b' i e cb' s t ↦
      let found : floor x (b ++ a) ≡ some i = rw e (
        ap (floor x) (append_assoc b' (i ∷ []) a)
        ∙ floor-middle x 0 b' i a cb' (omega arith) (floor-above x (2 ^ 32) a ca)) in
      elim (Bool-cases (is_succ i.end x)) [
        | inl y ↦ joins_before b' i (rw (found, y)) e (ground arith) cb' s
        | inr n ↦ apart_before (rw (found, n))
      ]
]

pub data Behind (x : ℕ) (b a : Intervals) : Type 0 where
  apart_behind : joining_next x (ceiling x (b ++ a)) ≡ none → Behind x b a
  joins_behind :
      (i : Interval) (a' : Intervals)
      → joining_next x (ceiling x (b ++ a)) ≡ some i
      → a ≡ i ∷ a'
      → x + 1 ≡ i.start
      → i.start ≤ i.end
      → Chain (i.end + 1) (2 ^ 32) a'
      → Behind x b a

pub behind :
    (x : ℕ) (b a : Intervals) → x < 2 ^ 32 → Chain 0 x b → Chain (x + 1) (2 ^ 32) a → Behind x b a
unfolding joining_next ceiling Chain
behind x b [] h cb ca = apart_behind (rw (ceiling-append x 0 b [] cb))
behind x b (i ∷ a) h cb (p, q, c) =
    let found : ceiling x (b ++ (i ∷ a)) ≡ some i =
      ceiling-append x 0 b (i ∷ a) cb ∙ ceiling-here x i a (omega arith) in
    elim (Bool-cases (is_succ x i.start)) [
      | inl y ↦ joins_behind i a (rw (found, y)) refl (ground arith) q c
      | inr n ↦ apart_behind (rw (found, n))
    ]
