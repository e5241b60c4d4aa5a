-- ===== src/Sequence/Window.antt =====
-- src/connection.rs: which numbers of the registry are spent, which are taken, and one round of `reserve_next`.
use cmppprotocol.Prelude.{
  ℕ, ◌+◌, ◌^◌, ◌≤◌, ◌<◌, ◌≡◌, ◌⊎◌, inl, inr, refl, none, some, true, if◌then◌else◌, ltb, arith,
}
use cmppprotocol.Sequence.Intervals.{Covers, Chain}
use cmppprotocol.Sequence.Registry.{SequenceState, contains, advance}

-- The first number that the automatic sequence has not used.
abbrev pub front : SequenceState → ℕ
front s = elim s.automatic_used_through [ none ↦ s.automatic_start | some u ↦ u + 1 ]

-- The next number is the first unused one, as long as there is one; the retired intervals are in order.
pub record RegistryInv (s : SequenceState) : Type 0 where
  pub start_pos : 1 ≤ s.automatic_start
  pub begun : s.automatic_start ≤ front s
  pub bounded : front s ≤ 2 ^ 32
  pub next : s.next_automatic ≡ (if ltb (front s) (2 ^ 32) then some (front s) else none)
  pub chain : Chain 0 (2 ^ 32) s.retired

-- Numbers that went out: those of the automatic sequence, and the retired ones.
abbrev pub Spent : SequenceState → ℕ → Type 0
Spent s x = ((s.automatic_start ≤ x) × (x < front s)) ⊎ Covers s.retired x

abbrev pub Taken : SequenceState → ℕ → Type 0
Taken s x = Spent s x ⊎ (contains s.reserved x ≡ true)

-- One round that hands nothing out: the automatic sequence moves on, over taken numbers only.
pub record Skips (s t : SequenceState) : Type 0 where
  pub inv : RegistryInv t
  pub grows : front s < front t
  pub spent : (x : ℕ) → Spent s x → Spent t x
  pub same : t.reserved ≡ s.reserved
  pub back : (x : ℕ) → Covers t.retired x → Covers s.retired x
  pub skipped : (x : ℕ) → front s ≤ x → x < front t → Taken s x

pub advance-Skips :
    (s : SequenceState)
    → RegistryInv s
    → front s < 2 ^ 32
    → contains s.reserved (front s) ≡ true
    → Skips s (advance s (front s))
unfolding advance
advance-Skips s v h e = record {
  inv = record {
    start_pos = v.start_pos;
    begun = omega (arith, v.begun);
    bounded = omega arith;
    next = refl;
    chain = v.chain;
  };
  grows = omega arith;
  spent = λ x k. elim k [ inl (p, q) ↦ inl (p, omega arith) | inr c ↦ inr c ];
  same = refl;
  back = λ x c. c;
  skipped = λ x p q. let same : front s ≡ x = omega arith in inr (rw same at e);
}
