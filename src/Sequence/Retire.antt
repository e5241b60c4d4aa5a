-- ===== src/Sequence/Retire.antt =====
-- src/connection.rs, `insert_retired_sequence`: the intervals with a number put in, or full.
use cmppprotocol.Prelude.{
  ℕ, ◌+◌, ◌^◌, ◌≤◌, ◌<◌, ◌≡◌, ◌↔◌, ◌⊎◌, inl, inr, sym, ap, ◌∙◌, [], ◌∷◌, ◌++◌, append_assoc, none,
  some, true, false, leb, length, arith, Bool-cases,
}
use mathlib.Core.Path.{subst}
use cmppprotocol.Sequence.{
  Interval, Intervals, floor, ceiling, joining_previous, joining_next, join,
  insert_retired_sequence,
}
use cmppprotocol.Sequence.Intervals.{
  Covers, Chain, Chain-append, Chain-widen, Covers-append, inside, between, place,
  map_insert-between, map_remove-middle, map_remove-second, map_update-middle,
}
use cmppprotocol.Sequence.Places.{
  apart_before, joins_before, before, apart_behind, joins_behind, behind,
}

-- The intervals `m'` are in order, and cover what `m` covers, and `x`.
pub record Inserted (m : Intervals) (x : ℕ) (m' : Intervals) : Type 0 where
  pub chain : Chain 0 (2 ^ 32) m'
  pub covers : (y : ℕ) → Covers m' y ↔ (Covers m y ⊎ (y ≡ x))

-- Covering, for three parts one behind the other.
covers3 :
    (b c a : Intervals) (y : ℕ) → Covers (b ++ (c ++ a)) y ↔ (Covers b y ⊎ Covers c y ⊎ Covers a y)
covers3 b c a y =
    let (f, g) = Covers-append b (c ++ a) y in
    let (f', g') = Covers-append c a y in
    (
      λ h. elim (f h) [ inl p ↦ inl p | inr q ↦ inr (f' q) ],
      λ h. elim h [ inl p ↦ g (inl p) | inr q ↦ g (inr (g' q)) ],
    )

-- A part `c` in the middle gives way to `c'`, which covers `x` too.
inserted :
    (b c c' a : Intervals) (x : ℕ)
    → Chain 0 (2 ^ 32) (b ++ (c' ++ a))
    → ((y : ℕ) → Covers c' y ↔ (Covers c y ⊎ (y ≡ x)))
    → Inserted (b ++ (c ++ a)) x (b ++ (c' ++ a))
inserted b c c' a x chain same = record { chain = chain; covers = λ y. (there y, back y) }
  where
    there : (y : ℕ) → Covers (b ++ (c' ++ a)) y → Covers (b ++ (c ++ a)) y ⊎ (y ≡ x)
    there y h = elim ((covers3 b c' a y).0 h) [
      | inl p ↦ inl ((covers3 b c a y).1 (inl p))
      | inr (inl q) ↦ elim ((same y).0 q) [
        | inl k ↦ inl ((covers3 b c a y).1 (inr (inl k)))
        | inr e ↦ inr e
      ]
      | inr (inr r) ↦ inl ((covers3 b c a y).1 (inr (inr r)))
    ]

    back : (y : ℕ) → Covers (b ++ (c ++ a)) y ⊎ (y ≡ x) → Covers (b ++ (c' ++ a)) y
    back y (inr e) = (covers3 b c' a y).1 (inr (inl ((same y).1 (inr e))))
    back y (inl h) = elim ((covers3 b c a y).0 h) [
      | inl p ↦ (covers3 b c' a y).1 (inl p)
      | inr (inl q) ↦ (covers3 b c' a y).1 (inr (inl ((same y).1 (inl q))))
      | inr (inr r) ↦ (covers3 b c' a y).1 (inr (inr r))
    ]

-- The number found a place, or the intervals are as many as there may be, and stay.
abbrev pub InsertsTo : Intervals → ℕ → Type 0
InsertsTo m x =
    ((insert_retired_sequence m x ≡ (m, false)) × (65536 ≤ length m))
    ⊎ ((m' : Intervals) × (insert_retired_sequence m x ≡ (m', true)) × Inserted m x m')

insert_alone :
    (x : ℕ) (b a : Intervals)
    → Chain 0 x b
    → Chain (x + 1) (2 ^ 32) a
    → joining_previous x (floor x (b ++ a)) ≡ none
    → joining_next x (ceiling x (b ++ a)) ≡ none
    → InsertsTo (b ++ a) x
unfolding insert_retired_sequence join Chain Covers
insert_alone x b a cb ca no_p no_n = elim (Bool-cases (leb 65536 (length (b ++ a)))) [
  | inl full ↦ inl (rw (no_p, no_n, full), ground arith)
  | inr room ↦
      let one : Interval = record { start = x; end = x } in
      inr (
        b ++ (one ∷ a),
        rw (no_p, no_n, room, map_insert-between x x 0 (2 ^ 32) b a cb ca),
        inserted b [] (one ∷ []) a x
            (Chain-append 0 x (2 ^ 32) b (one ∷ a) cb (omega arith, omega arith, ca))
            (λ y. ground arith),
      )
]

insert_next :
    (x : ℕ) (b : Intervals) (n : Interval) (a : Intervals)
    → Chain 0 x b
    → Chain (n.end + 1) (2 ^ 32) a
    → x + 1 ≡ n.start
    → n.start ≤ n.end
    → joining_previous x (floor x (b ++ (n ∷ a))) ≡ none
    → joining_next x (ceiling x (b ++ (n ∷ a))) ≡ some n
    → InsertsTo (b ++ (n ∷ a)) x
unfolding insert_retired_sequence join Chain Covers
insert_next x b n a cb ca up s no_p jn =
    let grown : Interval = record { start = x; end = n.end } in
    inr (
      b ++ (grown ∷ a),
      rw (
        no_p,
        jn,
        map_remove-middle 0 b n a (Chain-widen 0 0 x n.start b (omega arith) (omega arith) cb),
        map_insert-between x n.end 0 (2 ^ 32) b a cb
            (Chain-widen (n.end + 1) (x + 1) (2 ^ 32) (2 ^ 32) a (omega arith) (omega arith) ca),
      ),
      inserted b (n ∷ []) (grown ∷ []) a x
          (Chain-append 0 x (2 ^ 32) b (grown ∷ a) cb (omega arith, omega arith, ca))
          (λ y. ground arith),
    )

insert_previous :
    (x : ℕ) (b : Intervals) (p : Interval) (a : Intervals)
    → Chain 0 p.start b
    → Chain (x + 1) (2 ^ 32) a
    → p.end + 1 ≡ x
    → p.start ≤ p.end
    → joining_previous x (floor x (b ++ (p ∷ a))) ≡ some p
    → joining_next x (ceiling x (b ++ (p ∷ a))) ≡ none
    → InsertsTo (b ++ (p ∷ a)) x
unfolding insert_retired_sequence join Chain Covers
insert_previous x b p a cb ca up s jp no_n =
    let grown : Interval = record { start = p.start; end = x } in
    inr (
      b ++ (grown ∷ a),
      rw (jp, no_n, map_update-middle 0 x b p a cb),
      inserted b (p ∷ []) (grown ∷ []) a x
          (Chain-append 0 p.start (2 ^ 32) b (grown ∷ a) cb (omega arith, omega arith, ca))
          (λ y. ground arith),
    )

insert_both :
    (x : ℕ) (b : Intervals) (p n : Interval) (a : Intervals)
    → Chain 0 p.start b
    → Chain (n.end + 1) (2 ^ 32) a
    → p.end + 1 ≡ x
    → p.start ≤ p.end
    → x + 1 ≡ n.start
    → n.start ≤ n.end
    → joining_previous x (floor x (b ++ (p ∷ n ∷ a))) ≡ some p
    → joining_next x (ceiling x (b ++ (p ∷ n ∷ a))) ≡ some n
    → InsertsTo (b ++ (p ∷ n ∷ a)) x
unfolding insert_retired_sequence join Chain Covers
insert_both x b p n a cb ca up s up' s' jp jn =
    let grown : Interval = record { start = p.start; end = n.end } in
    inr (
      b ++ (grown ∷ a),
      rw (
        jp,
        jn,
        map_update-middle 0 n.end b p (n ∷ a) cb,
        map_remove-second 0 b grown n a cb (omega arith),
      ),
      inserted b (p ∷ n ∷ []) (grown ∷ []) a x
          (Chain-append 0 p.start (2 ^ 32) b (grown ∷ a) cb (omega arith, omega arith, ca))
          (λ y. ground arith),
    )

-- For intervals in order and a 32-bit number that none of them covers: the number is put in, and
-- the new intervals are in order and cover what was covered and the number; or there are 65536
-- intervals already, and they stay as they are.
pub insert_retired_sequence_total :
    (m : Intervals) (x : ℕ) → Chain 0 (2 ^ 32) m → x < 2 ^ 32 → ¬ Covers m x → InsertsTo m x
insert_retired_sequence_total m x c h new = elim (place 0 (2 ^ 32) m x c (omega arith) h) [
  | inside b i a e cb s t ca ↦ absurd (
      new (
        subst (λ (l : Intervals). Covers l x) (sym e)
          ((Covers-append b (i ∷ a) x).1 (inr (unfold Covers in inl (s, t))))))
  | between b a e cb ca ↦
      subst (λ (l : Intervals). InsertsTo l x) (sym e)
        (elim (before x b a h cb ca) [
          | apart_before no_p ↦ elim (behind x b a h cb ca) [
            | apart_behind no_n ↦ insert_alone x b a cb ca no_p no_n
            | joins_behind n a' jn ea up s ca' ↦
                rw ea (insert_next x b n a' cb ca' up s (rw ea at no_p) (rw ea at jn))
          ]
          | joins_before b' p jp eb up cb' s ↦
              let e' : b ++ a ≡ b' ++ (p ∷ a) = rw eb (append_assoc b' (p ∷ []) a) in
              elim (behind x b a h cb ca) [
                | apart_behind no_n ↦
                    rw e' (insert_previous x b' p a cb' ca up s (rw e' at jp) (rw e' at no_n))
                | joins_behind n a' jn ea up' s' ca' ↦
                    let e'' : b ++ a ≡ b' ++ (p ∷ n ∷ a') =
                      e' ∙ ap (λ (l : Intervals). b' ++ (p ∷ l)) ea in
                    rw e''
                      (insert_both x b' p n a' cb' ca' up s up' s' (rw e'' at jp) (rw e'' at jn))
              ]
        ])
]
