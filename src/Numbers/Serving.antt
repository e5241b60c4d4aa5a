-- ===== src/Numbers/Serving.antt =====
-- src/connection.rs: what a release and a retirement leave of the numbers that are taken.
use cmppprotocol.Prelude.{
  true-≢false, ℕ, ◌^◌, ◌<◌, ◌≡◌, ◌≢◌, inl, inr, refl, sym, ap, ◌∙◌, Bool, true, false, not,
  Bool-cases,
}
use cmppprotocol.Sequence.Registry.{
  SequenceState, contains, used_by_automatic, release, retire_into, retire,
}
use cmppprotocol.Sequence.{Intervals, retired_sequence_contains, insert_retired_sequence}
use cmppprotocol.Sequence.Window.{RegistryInv, Spent, Taken}
use cmppprotocol.Sequence.Spent.{Keeps, release-Keeps, retire-Keeps, retire_total}
use cmppprotocol.Numbers.{retire_if_manual}
use cmppprotocol.Numbers.Lists.{contains-set_remove}

retire-reserved :
    (s : SequenceState) (y x : ℕ)
    → x ≢ y
    → contains (retire s y).0.reserved x ≡ contains s.reserved x
unfolding retire release retire_into
retire-reserved s y x n = elim (Bool-cases (used_by_automatic s y)) [
  | inl a ↦ rw a (contains-set_remove s.reserved y x n)
  | inr a ↦ elim (Bool-cases (retired_sequence_contains s.retired y)) [
    | inl r ↦ rw (a, r) (contains-set_remove s.reserved y x n)
    | inr r ↦ rw (a, r) (placed (insert_retired_sequence s.retired y))
  ]
]
  where
    placed :
        (p : Intervals × Bool) → contains (retire_into s y p).0.reserved x ≡ contains s.reserved x
    placed (l, true) = contains-set_remove s.reserved y x n
    placed (l, false) = refl

-- The registry of a step: it stays in order, and what was taken still is, but for one number that is free of leases.
pub record Serves (s : SequenceState) (t : SequenceState) (except : ℕ → Type 0) : Type 0 where
  pub inv : RegistryInv t
  pub spent : (x : ℕ) → Spent s x → Spent t x
  pub taken : (x : ℕ) → ¬ except x → Taken s x → Taken t x

Keeps-Serves :
    (s t : SequenceState) (y : ℕ)
    → Keeps s t
    → ((x : ℕ) → x ≢ y → contains t.reserved x ≡ contains s.reserved x)
    → Serves s t (λ x. x ≡ y)
Keeps-Serves s t y k same = record {
  inv = k.inv;
  spent = k.spent;
  taken = λ x n h. elim h [ inl p ↦ inl (k.spent x p) | inr c ↦ inr (same x n ∙ c) ];
}

pub release-Serves :
    (s : SequenceState) (y : ℕ) → RegistryInv s → Serves s (release s y) (λ x. x ≡ y)
unfolding release
release-Serves s y v =
    Keeps-Serves s (release s y) y (release-Keeps s y v)
      (λ x n. contains-set_remove s.reserved y x n)

pub retire-Serves :
    (s : SequenceState) (y : ℕ) → RegistryInv s → y < 2 ^ 32 → Serves s (retire s y).0 (λ x. x ≡ y)
retire-Serves s y v h =
    Keeps-Serves s (retire s y).0 y (retire-Keeps s y v h) (λ x n. retire-reserved s y x n)

-- The registry of a commit, and that a lease that is not lost is spent.
pub record Retired (r t : SequenceState) (id : ℕ) (lost : Bool) : Type 0 where
  pub serves : Serves r t (λ x. x ≡ id)
  pub spends : lost ≡ false → Spent t id

pub retire_if_manual-Retired :
    (r : SequenceState) (manual : Bool) (id : ℕ)
    → RegistryInv r
    → id < 2 ^ 32
    → (manual ≡ false → Spent r id)
    → Retired r (retire_if_manual r manual id).0 id (retire_if_manual r manual id).1
unfolding retire_if_manual
retire_if_manual-Retired r false id v h spent = record {
  serves = record { inv = v; spent = λ x p. p; taken = λ x n t. t };
  spends = λ e. spent refl;
}
retire_if_manual-Retired r true id v h spent = record {
  serves = retire-Serves r id v h;
  spends = λ e. elim (retire_total r id v h) [
    | inl (done_now, k, p) ↦ p
    | inr (e', full, new) ↦
        absurd (true-≢false (sym (ap (λ (q : SequenceState × Bool). not q.1) e') ∙ e))
  ];
}
