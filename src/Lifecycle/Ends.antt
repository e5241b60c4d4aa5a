-- ===== src/Lifecycle/Ends.antt =====
-- src/connection.rs: how often the entry of a SUBMIT changes until it is gone.
use mathlib.Core.Path.{subst}
use cmppprotocol.Prelude.{
  true-≢false, ℕ, suc, ◌+◌, ◌-◌, ◌*◌, ◌≤◌, ◌≡◌, ◌≢◌, ◌⊎◌, inl, inr, refl, sym, ap, ◌∙◌, List, ◌∷◌,
  some, none, Bool, true, false, ◌==◌, arith, Bool-cases, ==_iff, Option,
}
use cmppprotocol.Sequence.Registry.{contains}
use cmppprotocol.Pending.{
  ConnectionPhase, phase_open, phase_closing, phase_closed, queued, PendingSubmit, put,
}
use cmppprotocol.Lifecycle.{
  Submits, commit_submit, fail_all_pending, respond, time_out, Step, admitting, claiming,
  completing, responding, timing_out, requeueing, calling, failing,
}
use cmppprotocol.Lifecycle.Budget.{
  state_budget, budget, Spends, claim_one-Spends, complete_one-Spends, time_out_one-Spends,
  requeue_one-Spends, respond_one-Spends, budget-pos,
}

-- What a step leaves of an admitted number.
record Onward (retry_count x : ℕ) (s t : Submits) : Type 0 where
  spends : Spends retry_count (s.pending x) (t.pending x)
  admitted : contains t.admitted x ≡ true

commit-Onward :
    (retry_count x : ℕ) (lost : Bool) (s : Submits) (id submission_id : ℕ) (packet : List ℕ)
    → contains s.admitted id ≡ false
    → contains s.admitted x ≡ true
    → Onward retry_count x s (commit_submit lost s id submission_id packet)
unfolding commit_submit contains
commit-Onward retry_count x true s id submission_id packet new a = record {
  spends = inl refl;
  admitted = a;
}
commit-Onward retry_count x false s id submission_id packet new a =
    elim s.admission.phase
      as (λ (c : ConnectionPhase). Onward retry_count x s (elim c as (λ _. Submits) [
        | phase_open ↦ record s {
          pending = put s.pending id (some entry);
          admitted = id ∷ s.admitted;
        }
        | _ ↦ s
      ])) [
        | phase_open ↦ record {
          spends = inl (elsewhere (Bool-cases (x == id)));
          admitted = ground (arith, a);
        }
        | phase_closing ↦ record { spends = inl refl; admitted = a }
        | phase_closed ↦ record { spends = inl refl; admitted = a }
      ]
  where
    entry : PendingSubmit
    entry = record { submission_id = submission_id; packet = packet; state = queued 1 }

    elsewhere :
        ((x == id) ≡ true) ⊎ ((x == id) ≡ false) → put s.pending id (some entry) x ≡ s.pending x
    elsewhere (inl y) =
        absurd (true-≢false (sym a ∙ ap (contains s.admitted) ((==_iff x id).0 y) ∙ new))
    elsewhere (inr n) = rw n refl

fail-Spends : (retry_count : ℕ) (o : Option PendingSubmit) → Spends retry_count o none
unfolding budget
fail-Spends retry_count none = inl refl
fail-Spends retry_count (some e) = inr (budget-pos retry_count e.state)

Step-Onward :
    (retry_count x : ℕ) (s t : Submits)
    → Step retry_count s t
    → contains s.admitted x ≡ true
    → Onward retry_count x s t
unfolding respond time_out fail_all_pending
Step-Onward r x s t (admitting lost id submission_id packet new e) a =
    subst (Onward r x s) (sym e) (commit-Onward r x lost s id submission_id packet new a)
Step-Onward r x s t (claiming key e) a =
    subst (Onward r x s) (sym e)
      (record { spends = claim_one-Spends r _ s.pending key x; admitted = a })
Step-Onward r x s t (completing key written_at e) a =
    subst (Onward r x s) (sym e)
      (record { spends = complete_one-Spends r s.pending key written_at x; admitted = a })
Step-Onward r x s t (responding resp sent e) a =
    subst (Onward r x s) (sym e)
      (record { spends = respond_one-Spends r s.pending resp.sequence_id x; admitted = a })
Step-Onward r x s t (timing_out key sent over e) a =
    subst (Onward r x s) (sym e)
      (record { spends = time_out_one-Spends r sent s.pending key x; admitted = a })
Step-Onward r x s t (requeueing key below e) a =
    subst (Onward r x s) (sym e)
      (record { spends = requeue_one-Spends r _ s.pending key x below; admitted = a })
Step-Onward r x s t (calling c e) a =
    subst (Onward r x s) (sym e) (record { spends = inl refl; admitted = a })
Step-Onward r x s t (failing ids sent closed yields e) a =
    subst (Onward r x s) (sym e) (record { spends = fail-Spends r (s.pending x); admitted = a })

-- A course of steps, in which the entry of `x` changes this many times.
pub data Course (retry_count x : ℕ) (s : Submits) : ℕ → Submits → Type 0 where
  begun : Course retry_count x s 0 s
  kept :
      {n : ℕ} {t u : Submits}
      → Course retry_count x s n t
      → Step retry_count t u
      → u.pending x ≡ t.pending x
      → Course retry_count x s n u
  changed :
      {n : ℕ} {t u : Submits}
      → Course retry_count x s n t
      → Step retry_count t u
      → u.pending x ≢ t.pending x
      → Course retry_count x s (suc n) u

spent :
    (retry_count x : ℕ) (s : Submits) (n : ℕ) (t : Submits)
    → Course retry_count x s n t
    → contains s.admitted x ≡ true
    → (n + budget retry_count (t.pending x) ≤ budget retry_count (s.pending x))
      × (contains t.admitted x ≡ true)
spent r x s _ _ begun a = (omega arith, a)
spent r x s n u (kept {t = t} course step same) a =
    let (le, b) = spent r x s n t course a in
    let next = Step-Onward r x t u step b in
    let equal = ap (budget r) same in (omega (arith, le, equal), next.admitted)
spent r x s _ u (changed {n} {t} course step other) a =
    let (le, b) = spent r x s n t course a in
    let next = Step-Onward r x t u step b in
    elim next.spends [
      | inl same ↦ absurd (other same)
      | inr less ↦ (omega (arith, le, less), next.admitted)
    ]

-- Behind its admission, and in any course of the connection, the entry of a SUBMIT changes at most
-- three times for each attempt of the retry count, its removal counted.
pub changes_bounded :
    (retry_count x n : ℕ) (s t : Submits) (e : PendingSubmit)
    → contains s.admitted x ≡ true
    → s.pending x ≡ some e
    → e.state ≡ queued 1
    → Course retry_count x s n t
    → n ≤ (retry_count - 1) * 3 + 3
unfolding budget state_budget
changes_bounded r x n s t e a h q course =
    let le = (spent r x s n t course a).0 in
    let start = ap (budget r) h ∙ ap (state_budget r) q in omega (arith, le, start)
