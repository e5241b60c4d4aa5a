-- ===== src/Sequence/Spent.antt =====
-- src/connection.rs, `SequenceRegistry` over its whole life: a number that went out never comes back.
use cmppprotocol.Prelude.{
  ℕ, ◌^◌, max, ◌≤◌, ◌<◌, ◌≡◌, ◌≢◌, ◌⊎◌, inl, inr, refl, sym, ap, ◌∙◌, List, [], ◌∷◌, ◌++◌, All,
  Option, none, some, true, false, ◌==◌, length, arith, lt→ltb, Bool-cases, ==_iff,
}
use mathlib.Core.Path.{subst}
use cmppprotocol.Sequence.{Intervals, retired_sequence_contains}
use cmppprotocol.Sequence.Intervals.{Covers, Chain}
use cmppprotocol.Sequence.Places.{retired_sequence_contains-Covers}
use cmppprotocol.Sequence.Retire.{Inserted, insert_retired_sequence_total}
use cmppprotocol.Sequence.Registry.{
  SequenceState, contains, set_remove, new_registry, used_by_automatic, reserve_next, reserve_batch,
  release, retire_into, retire,
}
use cmppprotocol.Sequence.Window.{RegistryInv, Spent, Taken}
use cmppprotocol.Sequence.Reserve.{reserve_next_total}
use cmppprotocol.Sequence.Batch.{used_by_automatic_iff, batch_ids, reserve_batch_total}

-- A registry is in order from the start on.
pub new_registry-RegistryInv : (next : ℕ) → next < 2 ^ 32 → RegistryInv (new_registry next)
unfolding new_registry Chain
new_registry-RegistryInv next h = record {
  start_pos = omega arith;
  begun = omega arith;
  bounded = omega arith;
  next = rw (lt→ltb (max next 1) (2 ^ 32) (omega arith));
  chain = omega arith;
}

-- The registry stays in order, and what was spent stays spent.
pub record Keeps (s t : SequenceState) : Type 0 where
  pub inv : RegistryInv t
  pub spent : (x : ℕ) → Spent s x → Spent t x

-- Other reserved numbers change neither.
pub rereserved :
    (s : SequenceState) (r : List ℕ) → RegistryInv s → Keeps s (record s { reserved = r })
rereserved s r v = record {
  inv = record {
    start_pos = v.start_pos;
    begun = v.begun;
    bounded = v.bounded;
    next = v.next;
    chain = v.chain;
  };
  spent = λ x k. k;
}

pub release-Keeps : (s : SequenceState) (id : ℕ) → RegistryInv s → Keeps s (release s id)
unfolding release
release-Keeps s id v = rereserved s (set_remove id s.reserved) v

none-≢some : {A : Type 0} {a : A} → none ≢ some a
none-≢some h = cc

batch-Keeps :
    (s t : SequenceState) (base count : ℕ) (ids : List ℕ)
    → RegistryInv s
    → reserve_batch s base count ≡ some (ids, t)
    → Keeps s t
batch-Keeps s t base count ids v e = elim (reserve_batch_total s base count v) [
  | inl (few, free, answer) ↦
      subst (Keeps s) (ap state_of (sym answer ∙ e))
        (rereserved s (batch_ids base 0 count ++ s.reserved) v)
  | inr (why, none_given) ↦ absurd (none-≢some (sym none_given ∙ e))
]
  where
    state_of : Option (List ℕ × SequenceState) → SequenceState
    state_of none = s
    state_of (some (l, u)) = u

-- In a registry in order, a retired 32-bit number is spent, the registry stays in order, and what
-- was spent stays spent; or the number is not spent, there are 65536 retired intervals, and the
-- registry is as it was.
pub retire_total :
    (s : SequenceState) (id : ℕ)
    → RegistryInv s
    → id < 2 ^ 32
    → (((retire s id).1 ≡ true) × Keeps s (retire s id).0 × Spent (retire s id).0 id)
      ⊎ ((retire s id ≡ (s, false)) × (65536 ≤ length s.retired) × ¬ Spent s id)
unfolding retire retire_into release
retire_total s id v h = elim (Bool-cases (used_by_automatic s id)) [
  | inl a ↦
      inl (rw a refl, rw a (release-Keeps s id v), rw a (inl ((used_by_automatic_iff s id).0 a)))
  | inr a ↦ elim (Bool-cases (retired_sequence_contains s.retired id)) [
    | inl r ↦ inl (
      rw (a, r) refl,
      rw (a, r) (release-Keeps s id v),
      rw (a, r) (inr ((retired_sequence_contains-Covers s.retired id v.chain h).0 r)),
    )
    | inr r ↦
        let new : Covers s.retired id → ⊥ =
          λ c. clash (sym r ∙ (retired_sequence_contains-Covers s.retired id v.chain h).1 c) in
        elim (insert_retired_sequence_total s.retired id v.chain h new) [
          | inl (e, full) ↦ inr (
            rw (a, r, e) refl,
            full,
            λ k. elim k [
              | inl p ↦ absurd (clash (sym a ∙ (used_by_automatic_iff s id).1 p))
              | inr c ↦ absurd (new c)
            ],
          )
          | inr (m, e, ins) ↦ inl (
            rw (a, r, e) refl,
            rw (a, r, e) (retired s m (set_remove id s.reserved) v ins),
            rw (a, r, e) (inr ((ins.covers id).1 (inr refl))),
          )
        ]
  ]
]
  where
    clash : false ≢ true
    clash q = cc

    retired :
        (t : SequenceState) (m : Intervals) (r : List ℕ)
        → RegistryInv t
        → Inserted t.retired id m
        → Keeps t (record t { retired = m; reserved = r })
    retired t m r w ins = record {
      inv = record {
        start_pos = w.start_pos;
        begun = w.begun;
        bounded = w.bounded;
        next = w.next;
        chain = ins.chain;
      };
      spent = λ x k. elim k [ inl p ↦ inl p | inr c ↦ inr ((ins.covers x).1 (inl c)) ];
    }

-- One operation of the registry: a lease of the next number or of a run, a lease dropped, a number retired.
pub data Step : SequenceState → SequenceState → Type 0 where
  reserving : (s : SequenceState) → Step s (reserve_next s).1
  batching :
      (s t : SequenceState) (base count : ℕ) (ids : List ℕ)
      → reserve_batch s base count ≡ some (ids, t)
      → Step s t
  releasing : (s : SequenceState) (id : ℕ) → Step s (release s id)
  retiring : (s : SequenceState) (id : ℕ) → id < 2 ^ 32 → Step s (retire s id).0

pub data Steps : SequenceState → SequenceState → Type 0 where
  done : (s : SequenceState) → Steps s s
  next : (s t u : SequenceState) → Step s t → Steps t u → Steps s u

pub retire-Keeps :
    (s : SequenceState) (id : ℕ) → RegistryInv s → id < 2 ^ 32 → Keeps s (retire s id).0
retire-Keeps s id v h = elim (retire_total s id v h) [
  | inl (e, k, p) ↦ k
  | inr (e, full, new) ↦ rw e (record { inv = v; spent = λ x k. k })
]

Step-Keeps : (s t : SequenceState) → Step s t → RegistryInv s → Keeps s t
Step-Keeps s _ (reserving _) v =
    let out = reserve_next_total s v in record { inv = out.inv; spent = out.spent }
Step-Keeps s t (batching _ _ base count ids e) v = batch-Keeps s t base count ids v e
Step-Keeps s _ (releasing _ id) v = release-Keeps s id v
Step-Keeps s _ (retiring _ id h) v = retire-Keeps s id v h

pub Steps-Keeps : (s t : SequenceState) → Steps s t → RegistryInv s → Keeps s t
Steps-Keeps s _ (done _) v = record { inv = v; spent = λ x k. k }
Steps-Keeps s u (next _ t _ first rest) v =
    let one = Step-Keeps s t first v in
    let others = Steps-Keeps t u rest one.inv in
    record { inv = others.inv; spent = λ x k. others.spent x (one.spent x k) }

All-free :
    (s : SequenceState) (ids : List ℕ) (x : ℕ)
    → All (λ (id : ℕ). ¬ Taken s id) ids
    → Taken s x
    → contains ids x ≡ false
unfolding contains
All-free s [] x free k = refl
All-free s (y ∷ ys) x (f, fs) k = elim (Bool-cases (y == x)) [
  | inl e ↦ let same : y ≡ x = (==_iff y x).0 e in absurd (f (rw same k))
  | inr e ↦ rw (e, All-free s ys x fs k)
]

-- A number that is spent in a registry in order is never handed out again, whatever operations come
-- between: neither alone nor in a run.
pub Spent-never_again :
    (s t : SequenceState) (x : ℕ)
    → RegistryInv s
    → Spent s x
    → Steps s t
    → ((reserve_next t).0 ≢ some x)
      × ((base count : ℕ) (ids : List ℕ) (u : SequenceState)
          → reserve_batch t base count ≡ some (ids, u)
          → contains ids x ≡ false)
Spent-never_again s t x v k steps = (alone, run)
  where
    kept : Keeps s t
    kept = Steps-Keeps s t steps v

    alone : (reserve_next t).0 ≢ some x
    alone e = elim (reserve_next_total t kept.inv).answer [
      | inl (id, a, new, from, u32, spent, r) ↦
          let same : id ≡ x = number (sym a ∙ e) in new (rw same (inl (kept.spent x k)))
      | inr (a, r, all) ↦ absurd (none-≢some (sym a ∙ e))
    ]
      where
        number : {a b : ℕ} → some a ≡ some b → a ≡ b
        number q = cc

    ids_of : Option (List ℕ × SequenceState) → List ℕ
    ids_of none = []
    ids_of (some (l, u)) = l

    run :
        (base count : ℕ) (ids : List ℕ) (u : SequenceState)
        → reserve_batch t base count ≡ some (ids, u)
        → contains ids x ≡ false
    run base count ids u e = elim (reserve_batch_total t base count kept.inv) [
      | inl (few, free, answer) ↦
          subst (λ (l : List ℕ). contains l x ≡ false) (ap ids_of (sym answer ∙ e))
            (All-free t (batch_ids base 0 count) x free (inl (kept.spent x k)))
      | inr (why, none_given) ↦ absurd (none-≢some (sym none_given ∙ e))
    ]
