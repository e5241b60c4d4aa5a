-- ===== src/Numbers/Joined.antt =====
-- src/connection.rs: the registry against the leases and the admitted numbers, and the leases that come and go.
use mathlib.Core.Path.{subst}
use cmppprotocol.Prelude.{
  true-≢false, ℕ, ◌^◌, ◌<◌, ◌≡◌, ◌≢◌, inl, inr, refl, sym, ap, ◌∙◌, List, ◌∷◌, ◌++◌, All, Option,
  none, some, Bool, true, false, ◌==◌, arith, Bool-cases, ==_iff, ==_refl, Option-cases,
}
use cmppprotocol.Sequence.Registry.{SequenceState, contains, reserve_next, reserve_batch}
use cmppprotocol.Sequence.Window.{RegistryInv, Spent, Taken}
use cmppprotocol.Sequence.Reserve.{HandsOut, reserve_next_total}
use cmppprotocol.Sequence.Batch.{batch_ids, reserve_batch_total}
use cmppprotocol.Sequence.Spent.{rereserved}
use cmppprotocol.Numbers.{SequenceLeases, set_held, hold_all, Numbers}
use cmppprotocol.Numbers.Lists.{
  contains-append, batch_ids-small, front_contains, or_right, All-contains,
}
use cmppprotocol.Numbers.Serving.{Serves}

none-≢some : {b : Bool} → none ≢ some b
none-≢some h = cc

-- The registry against the leases and the admitted numbers.
pub record Joined (s : Numbers) : Type 0 where
  pub inv : RegistryInv s.registry
  pub admitted : (x : ℕ) → contains s.submits.admitted x ≡ true → Spent s.registry x
  pub held :
      (x : ℕ) (manual : Bool)
      → s.leases x ≡ some manual
      → Taken s.registry x × (contains s.submits.admitted x ≡ false) × (x < 2 ^ 32)
  pub automatic : (x : ℕ) → s.leases x ≡ some false → Spent s.registry x

-- A number that is not taken was not admitted.
unadmitted :
    (s : Numbers) (x : ℕ) → Joined s → ¬ Taken s.registry x → contains s.submits.admitted x ≡ false
unadmitted s x v free = elim (Bool-cases (contains s.submits.admitted x)) [
  | inl y ↦ absurd (free (inl (v.admitted x y)))
  | inr n ↦ n
]

-- A number without a lease changes in the registry.
pub changed-Joined :
    (s : Numbers) (r : SequenceState) (y : ℕ) (ls : SequenceLeases)
    → Joined s
    → Serves s.registry r (λ x. x ≡ y)
    → ls y ≡ none
    → ((x : ℕ) → x ≢ y → ls x ≡ s.leases x)
    → Joined (record { registry = r; leases = ls; submits = s.submits })
changed-Joined s r y ls v k gone same = record {
  inv = k.inv;
  admitted = λ x a. k.spent x (v.admitted x a);
  held = λ x m h.
      let n = other x m h in
      let (t, a, b) = v.held x m (sym (same x n) ∙ h) in (k.taken x n t, a, b);
  automatic = λ x h. k.spent x (v.automatic x (sym (same x (other x false h)) ∙ h));
}
  where
    none-≢some : {b : Bool} → none ≢ some b
    none-≢some h = cc

    other : (x : ℕ) (m : Bool) → ls x ≡ some m → x ≢ y
    other x m h e = none-≢some (sym gone ∙ ap ls (sym e) ∙ h)

-- An admitted number has no lease that is held.
pub admitted-unheld :
    (s : Numbers) (x : ℕ) → Joined s → contains s.submits.admitted x ≡ true → s.leases x ≡ none
admitted-unheld s x v a = elim (Option-cases (s.leases x)) [
  | inl n ↦ n
  | inr (m, h) ↦ absurd (true-≢false (sym a ∙ (v.held x m h).1))
]

-- The lease of a number comes or goes.
pub set_held-same :
    (ls : SequenceLeases) (y x : ℕ) (o : Option Bool) → x ≢ y → set_held ls y o x ≡ ls x
set_held-same ls y x o n = elim (Bool-cases (x == y)) [
  | inl e ↦ absurd (n ((==_iff x y).0 e))
  | inr e ↦ rw e refl
]

pub set_held-here : (ls : SequenceLeases) (y : ℕ) (o : Option Bool) → set_held ls y o y ≡ o
set_held-here ls y o = rw (==_refl y) refl

pub taking-Joined :
    (s : Numbers) (id : ℕ)
    → (reserve_next s.registry).0 ≡ some id
    → Joined s
    → Joined (record s {
      registry = (reserve_next s.registry).1;
      leases = set_held s.leases id (some false);
    })
taking-Joined s id given v = elim out.answer [
  | inr (e, r, all) ↦ absurd (none-≢some (sym e ∙ given))
  | inl (y, e, new, from, u32, spent, r) ↦
      let same : y ≡ id = number (sym e ∙ given) in
      taken_in (subst (λ (k : ℕ). ¬ Taken s.registry k) same new)
        (subst (λ (k : ℕ). k < 2 ^ 32) same u32)
        (subst (λ (k : ℕ). Spent (reserve_next s.registry).1 k) same spent)
        (r ∙ ap (λ (k : ℕ). k ∷ s.registry.reserved) same)
]
  where
    out : HandsOut s.registry (reserve_next s.registry)
    out = reserve_next_total s.registry v.inv

    none-≢some : {k : ℕ} → none ≢ some k
    none-≢some h = cc

    number : {a b : ℕ} → some a ≡ some b → a ≡ b
    number h = cc

    false_of : {b : Bool} → some b ≡ some false → b ≡ false
    false_of h = cc

    taken_in :
        ¬ Taken s.registry id
        → id < 2 ^ 32
        → Spent (reserve_next s.registry).1 id
        → (reserve_next s.registry).1.reserved ≡ id ∷ s.registry.reserved
        → Joined (record s {
          registry = (reserve_next s.registry).1;
          leases = set_held s.leases id (some false);
        })
    taken_in new small spent r = record {
      inv = out.inv;
      admitted = λ x a. out.spent x (v.admitted x a);
      held = λ x m h. elim (Bool-cases (x == id)) [
        | inl y ↦
            let e : id ≡ x = sym ((==_iff x id).0 y) in
            (
              inl (subst (Spent (reserve_next s.registry).1) e spent),
              subst (λ (k : ℕ). contains s.submits.admitted k ≡ false) e (unadmitted s id v new),
              subst (λ (k : ℕ). k < 2 ^ 32) e small,
            )
        | inr n ↦ let (t, a, b) = v.held x m (rw n at h) in (kept x t, a, b)
      ];
      automatic = λ x h. elim (Bool-cases (x == id)) [
        | inl y ↦ subst (Spent (reserve_next s.registry).1) (sym ((==_iff x id).0 y)) spent
        | inr n ↦ out.spent x (v.automatic x (rw n at h))
      ];
    }
      where
        kept : (x : ℕ) → Taken s.registry x → Taken (reserve_next s.registry).1 x
        kept x t = elim t [
          | inl p ↦ inl (out.spent x p)
          | inr c ↦
              inr (ap (λ (l : List ℕ). contains l x) r ∙ front_contains id s.registry.reserved x c)
        ]

-- A run of leases comes.
pub taking_run-Joined :
    (s : Numbers) (base count : ℕ) (ids : List ℕ) (r : SequenceState)
    → reserve_batch s.registry base count ≡ some (ids, r)
    → Joined s
    → Joined (record s { registry = r; leases = hold_all s.leases ids })
taking_run-Joined s base count ids r given v =
    elim (reserve_batch_total s.registry base count v.inv) [
      | inr (why, e) ↦ absurd (none-≢some (sym e ∙ given))
      | inl (few, free, e) ↦ subst Result (sym e ∙ given) (taken_in free)
    ]
  where
    none-≢some : {k : List ℕ × SequenceState} → none ≢ some k
    none-≢some h = cc

    Result : Option (List ℕ × SequenceState) → Type 0
    Result none = Unit
    Result (some (l, t)) = Joined (record s { registry = t; leases = hold_all s.leases l })

    run : List ℕ
    run = batch_ids base 0 count

    t : SequenceState
    t = record s.registry { reserved = run ++ s.registry.reserved }

    taken_in :
        All (λ (id : ℕ). ¬ Taken s.registry id) run
        → Joined (record s { registry = t; leases = hold_all s.leases run })
    taken_in free = record {
      inv = (rereserved s.registry (run ++ s.registry.reserved) v.inv).inv;
      admitted = λ x a. v.admitted x a;
      held = λ x m h. elim (Bool-cases (contains run x)) [
        | inl y ↦ (
          inr (contains-append run s.registry.reserved x ∙ ground (arith, y)),
          unadmitted s x v (All-contains (λ (id : ℕ). ¬ Taken s.registry id) run x free y),
          batch_ids-small base 0 count x y,
        )
        | inr n ↦ let (k, a, b) = v.held x m (rw n at h) in (kept x k, a, b)
      ];
      automatic = λ x h. elim (Bool-cases (contains run x)) [
        | inl y ↦ absurd (apart (rw y at h))
        | inr n ↦ v.automatic x (rw n at h)
      ];
    }
      where
        apart : some true ≢ some false
        apart h = cc

        kept : (x : ℕ) → Taken s.registry x → Taken t x
        kept x k = elim k [
          | inl p ↦ inl p
          | inr c ↦ inr (contains-append run s.registry.reserved x ∙ or_right (contains run x) c)
        ]
