-- ===== src/Sequence/Reserve.antt =====
-- src/connection.rs, `reserve_next`: the number that it hands out is new, and it stops only at the end.
use cmppprotocol.Prelude.{
  ℕ, zero, suc, ◌+◌, ◌^◌, ◌≤◌, ◌<◌, ◌≡◌, ◌⊎◌, inl, inr, refl, sym, ap, ◌∙◌, ◌∷◌, ◌++◌, Option, none,
  some, Bool, true, false, ltb, arith, ltb→lt, ltb→le, le→leb, Bool-cases,
}
use mathlib.Core.Path.{subst}
use cmppprotocol.Sequence.{Interval, Intervals, floor, reaches, retired_sequence_contains}
use cmppprotocol.Sequence.Intervals.{
  Covers, Chain, Chain-widen, between-¬Covers, inside, between, place, floor-above, floor-middle,
}
use cmppprotocol.Sequence.Places.{missed}
use cmppprotocol.Sequence.Registry.{
  SequenceState, contains, advance, covering, skip_retired, reserve_loop, reserve_next,
}
use cmppprotocol.Sequence.Window.{front, RegistryInv, Spent, Taken, Skips, advance-Skips}
use cmppprotocol.Sequence.Jump.{skip_retired-Skips}

-- What `reserve_next` may give: a number that was not taken, from the unused part of the automatic sequence, and
-- that is spent and reserved after it; or none, where every number of that part is taken.
pub record HandsOut (s : SequenceState) (d : Option ℕ × SequenceState) : Type 0 where
  pub inv : RegistryInv d.1
  pub spent : (x : ℕ) → Spent s x → Spent d.1 x
  pub answer :
      ((id : ℕ) × (d.0 ≡ some id)
        × ¬ Taken s id
        × (front s ≤ id)
        × (id < 2 ^ 32)
        × Spent d.1 id
        × (d.1.reserved ≡ id ∷ s.reserved))
      ⊎ ((d.0 ≡ none)
          × (d.1.reserved ≡ s.reserved)
          × ((x : ℕ) → front s ≤ x → x < 2 ^ 32 → Taken s x))

Taken-back : (s t : SequenceState) → Skips s t → (x : ℕ) → front t ≤ x → Taken t x → Taken s x
Taken-back s t k x h (inl (inl (p, q))) = absurd (omega arith)
Taken-back s t k x h (inl (inr c)) = inl (inr (k.back x c))
Taken-back s t k x h (inr r) = inr (rw k.same at r)

Taken-on : (s t : SequenceState) → Skips s t → (x : ℕ) → Taken s x → Taken t x
Taken-on s t k x (inl p) = inl (k.spent x p)
Taken-on s t k x (inr r) = inr (rw (k.same) r)

after_skip :
    (s t : SequenceState) (d : Option ℕ × SequenceState) → Skips s t → HandsOut t d → HandsOut s d
after_skip s t d k h = record {
  inv = h.inv;
  spent = λ x p. h.spent x (k.spent x p);
  answer = elim h.answer [
    | inl (id, e, new, from, u32, spent, r) ↦ inl (
      id,
      e,
      (λ p. new (Taken-on s t k id p)),
      omega (arith, k.grows),
      u32,
      spent,
      r ∙ ap (◌∷◌ id) k.same,
    )
    | inr (e, r, all) ↦ inr (
      e,
      r ∙ k.same,
      λ x l u. elim (Bool-cases (ltb x (front t))) [
        | inl y ↦ k.skipped x l (ltb→lt x (front t) y)
        | inr n ↦ Taken-back s t k x (ltb→le x (front t) n) (all x (ltb→le x (front t) n) u)
      ],
    )
  ];
}

hands_out :
    (s : SequenceState)
    → RegistryInv s
    → front s < 2 ^ 32
    → ¬ Covers s.retired (front s)
    → contains s.reserved (front s) ≡ false
    → HandsOut s (some (front s), record (advance s (front s)) { reserved = front s ∷ s.reserved })
unfolding advance
hands_out s v h new free = record {
  inv = record {
    start_pos = v.start_pos;
    begun = omega (arith, v.begun);
    bounded = omega arith;
    next = refl;
    chain = v.chain;
  };
  spent = λ x k. elim k [ inl (p, q) ↦ inl (p, omega arith) | inr c ↦ inr c ];
  answer = inl (
    front s,
    refl,
    (λ k. elim k [
      | inl (inl (p, q)) ↦ absurd (omega arith)
      | inl (inr c) ↦ absurd (new c)
      | inr r ↦ absurd (clash r)
    ]),
    omega arith,
    h,
    inl (v.begun, omega arith),
    refl,
  );
}
  where
    clash : contains s.reserved (front s) ≡ true → ⊥
    clash r = let e : true ≡ false = sym r ∙ free in cc

covering-none : (x : ℕ) (o : Option Interval) → reaches x o ≡ false → covering x o ≡ none
unfolding reaches covering
covering-none x none h = refl
covering-none x (some i) h = rw h

-- One round of the loop, by what it finds.
round_end :
    (fuel : ℕ) (s : SequenceState) → s.next_automatic ≡ none → reserve_loop (suc fuel) s ≡ (none, s)
unfolding reserve_loop
round_end fuel s e =
    ap
      (λ (o : Option ℕ). elim o as (λ _. Option ℕ × SequenceState) [
        | none ↦ (none, s)
        | some id ↦ elim (covering id (floor id s.retired)) as (λ _. Option ℕ × SequenceState) [
          | some i ↦ reserve_loop fuel (skip_retired (advance s id) i)
          | none ↦ elim (contains s.reserved id) as (λ _. Option ℕ × SequenceState) [
            | true ↦ reserve_loop fuel (advance s id)
            | false ↦ (some id, record (advance s id) { reserved = id ∷ s.reserved })
          ]
        ]
      ])
      e

abbrev on_free : ℕ → SequenceState → ℕ → Bool → Option ℕ × SequenceState
on_free fuel s id taken = elim taken as (λ _. Option ℕ × SequenceState) [
  | true ↦ reserve_loop fuel (advance s id)
  | false ↦ (some id, record (advance s id) { reserved = id ∷ s.reserved })
]

abbrev on_covered : ℕ → SequenceState → ℕ → Option Interval → Option ℕ × SequenceState
on_covered fuel s id o = elim o as (λ _. Option ℕ × SequenceState) [
  | some i ↦ reserve_loop fuel (skip_retired (advance s id) i)
  | none ↦ on_free fuel s id (contains s.reserved id)
]

round :
    (fuel : ℕ) (s : SequenceState) (id : ℕ) (o : Option Interval)
    → s.next_automatic ≡ some id
    → covering id (floor id s.retired) ≡ o
    → reserve_loop (suc fuel) s ≡ on_covered fuel s id o
unfolding reserve_loop
round fuel s id o e c =
    ap
      (λ (n : Option ℕ). elim n as (λ _. Option ℕ × SequenceState) [
        | none ↦ (none, s)
        | some k ↦ on_covered fuel s k (covering k (floor k s.retired))
      ])
      e
    ∙ ap (on_covered fuel s id) c

-- The loop on what is left of its fuel, which the round below goes on with.
abbrev GoesOn : ℕ → Type 0
GoesOn fuel =
    (t : SequenceState) → RegistryInv t → 2 ^ 32 < fuel + front t → HandsOut t (reserve_loop fuel t)

covered_round :
    (fuel : ℕ) (s : SequenceState) (b : Intervals) (i : Interval) (a : Intervals)
    → GoesOn fuel
    → RegistryInv s
    → 2 ^ 32 < suc fuel + front s
    → s.next_automatic ≡ some (front s)
    → s.retired ≡ b ++ (i ∷ a)
    → Chain 0 i.start b
    → i.start ≤ front s
    → front s ≤ i.end
    → Chain (i.end + 1) (2 ^ 32) a
    → HandsOut s (reserve_loop (suc fuel) s)
covered_round fuel s b i a go v h next e cb p q ca =
    let found : floor (front s) s.retired ≡ some i = rw e (
      floor-middle (front s) 0 b i a cb p (
        floor-above (front s) (2 ^ 32) a (
          Chain-widen (i.end + 1) (front s + 1) (2 ^ 32) (2 ^ 32) a (omega arith) (omega arith)
            ca))) in
    let covers : covering (front s) (floor (front s) s.retired) ≡ some i =
      rw found (unfold covering in rw (le→leb (front s) i.end q)) in
    let skips : Skips s (skip_retired (advance s (front s)) i) =
      skip_retired-Skips s b i a v e cb p q ca in
    subst (HandsOut s) (sym (round fuel s (front s) (some i) next covers))
      (after_skip s _ _ skips (go _ skips.inv (omega (arith, skips.grows))))

free_round :
    (fuel : ℕ) (s : SequenceState) (b a : Intervals)
    → GoesOn fuel
    → RegistryInv s
    → 2 ^ 32 < suc fuel + front s
    → s.next_automatic ≡ some (front s)
    → front s < 2 ^ 32
    → s.retired ≡ b ++ a
    → Chain 0 (front s) b
    → Chain (front s + 1) (2 ^ 32) a
    → HandsOut s (reserve_loop (suc fuel) s)
free_round fuel s b a go v h next u32 e cb ca =
    let covers_not : covering (front s) (floor (front s) s.retired) ≡ none =
      covering-none (front s) _
        (unfold retired_sequence_contains in missed s.retired (front s) b a e cb ca) in
    let new : Covers s.retired (front s) → ⊥ = λ c.
      between-¬Covers 0 (2 ^ 32) b a (front s) cb ca
        (subst (λ (m : Intervals). Covers m (front s)) e c) in
    subst (HandsOut s) (sym (round fuel s (front s) none next covers_not))
      (elim (Bool-cases (contains s.reserved (front s))) [
        | inl taken ↦
            let skips : Skips s (advance s (front s)) = advance-Skips s v u32 taken in
            subst (λ (t : Bool). HandsOut s (on_free fuel s (front s) t)) (sym taken)
              (after_skip s _ _ skips (go _ skips.inv (omega (arith, skips.grows))))
        | inr free ↦
            subst (λ (t : Bool). HandsOut s (on_free fuel s (front s) t)) (sym free)
              (hands_out s v u32 new free)
      ])

pub reserve_loop-HandsOut :
    (fuel : ℕ) (s : SequenceState)
    → RegistryInv s
    → 2 ^ 32 < fuel + front s
    → HandsOut s (reserve_loop fuel s)
reserve_loop-HandsOut zero s v h = absurd (omega (arith, v.bounded))
reserve_loop-HandsOut (suc fuel) s v h = elim (Bool-cases (ltb (front s) (2 ^ 32))) [
  | inr ended ↦
      let none_left : s.next_automatic ≡ none = v.next ∙ (rw ended) in
      subst (HandsOut s) (sym (round_end fuel s none_left)) (record {
        inv = v;
        spent = λ x k. k;
        answer = inr (refl, refl, λ x l k. absurd (omega (arith, ltb→le (front s) (2 ^ 32) ended)));
      })
  | inl more ↦
      let next : s.next_automatic ≡ some (front s) = v.next ∙ (rw more) in
      let u32 : front s < 2 ^ 32 = ltb→lt (front s) (2 ^ 32) more in
      elim (place 0 (2 ^ 32) s.retired (front s) v.chain (omega arith) u32) [
        | inside b i a e cb p q ca ↦
            covered_round fuel s b i a (reserve_loop-HandsOut fuel) v h next e cb p q ca
        | between b a e cb ca ↦
            free_round fuel s b a (reserve_loop-HandsOut fuel) v h next u32 e cb ca
      ]
]

-- In a registry in order, reserve_next hands out a number that was not taken, from the unused part
-- of the automatic sequence and below 2 to the 32, which is spent and reserved after it; or none,
-- and then every number of that part is taken. The registry stays in order, and what was spent
-- stays spent.
pub reserve_next_total : (s : SequenceState) → RegistryInv s → HandsOut s (reserve_next s)
unfolding reserve_next
reserve_next_total s v = reserve_loop-HandsOut (2 ^ 32) s v (omega (arith, v.start_pos, v.begun))
