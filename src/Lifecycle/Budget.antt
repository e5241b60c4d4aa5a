-- ===== src/Lifecycle/Budget.antt =====
-- src/connection.rs: the retries of a SUBMIT run out. Each change of an entry takes it nearer to its end.
use mathlib.Core.Path.{subst}
use cmppprotocol.Prelude.{
  ℕ, ◌+◌, ◌-◌, ◌*◌, ◌<◌, ◌≡◌, ◌⊎◌, inl, inr, refl, sym, ap, ◌∙◌, Option, none, some, Bool, true,
  false, ◌&&◌, not, if◌then◌else◌, ◌==◌, arith, Bool-cases, Option-cases, ==_iff,
}
use cmppprotocol.Pending.{
  ConnectionPhase, SubmitAttemptState, queued, writing, awaiting_response, responded_while_writing,
  PendingSubmit, SubmitAttemptKey, Pending, Change, unchanged, becomes, removed, change_entry,
  on_entry, claim_state, claim_one, complete_state, complete_one, respond_state, respond_one,
}
use cmppprotocol.Pending.Once.{on_entry-some, on_entry-none}
use cmppprotocol.Timeouts.{awaits_state, still_expired, time_out_one, is_open, requeue_one}

-- The most that may still happen to an entry in this state.
unfoldable pub state_budget : ℕ → SubmitAttemptState → ℕ
state_budget retry_count (queued attempt) = (retry_count - attempt) * 3 + 3
state_budget retry_count (writing attempt) = (retry_count - attempt) * 3 + 2
state_budget retry_count (awaiting_response attempt written_at) = (retry_count - attempt) * 3 + 1
state_budget retry_count (responded_while_writing attempt) = 1

unfoldable pub budget : ℕ → Option PendingSubmit → ℕ
budget retry_count none = 0
budget retry_count (some e) = state_budget retry_count e.state

-- An entry stays as it was, or has a smaller budget.
abbrev pub Spends : ℕ → Option PendingSubmit → Option PendingSubmit → Type 0
Spends retry_count o o' = (o' ≡ o) ⊎ (budget retry_count o' < budget retry_count o)

module _ (retry_count : ℕ) where
  -- A change that spends.
  unfoldable Cheaper : SubmitAttemptState → Change → Type 0
  Cheaper st unchanged = Unit
  Cheaper st (becomes b st') = state_budget retry_count st' < state_budget retry_count st
  Cheaper st (removed b) = Unit

  pub budget-pos : (st : SubmitAttemptState) → 0 < state_budget retry_count st
  unfolding state_budget
  budget-pos (queued a) = omega arith
  budget-pos (writing a) = omega arith
  budget-pos (awaiting_response a w) = omega arith
  budget-pos (responded_while_writing a) = omega arith

  on_entry-Spends :
      (p : Pending) (id : ℕ) (f : PendingSubmit → Change)
      → ((e : PendingSubmit) → Cheaper e.state (f e))
      → (x : ℕ) → Spends retry_count (p x) ((on_entry p id f).1 x)
  unfolding Cheaper budget
  on_entry-Spends p id f cheap x = elim (Option-cases (p id)) [
    | inl n ↦ inl (rw (on_entry-none p id f n) refl)
    | inr (e, s) ↦ rw (on_entry-some p id e f s) (by_change e s (f e) (cheap e))
  ]
    where
      same : (x == id) ≡ true → id ≡ x
      same y = sym ((==_iff x id).0 y)

      by_change :
          (e : PendingSubmit)
          → p id ≡ some e
          → (c : Change) → Cheaper e.state c
          → Spends retry_count (p x) ((change_entry p id e c).1 x)
      by_change e s unchanged h = inl refl
      by_change e s (becomes b st) h = elim (Bool-cases (x == id)) [
        | inl y ↦ inr (
            rw y (
              subst
                (λ (o : Option PendingSubmit). state_budget retry_count st < budget retry_count o)
                (sym s ∙ ap p (same y)) h))
        | inr n ↦ inl (rw n refl)
      ]
      by_change e s (removed b) h = elim (Bool-cases (x == id)) [
        | inl y ↦ inr (
            rw y (
              subst (λ (o : Option PendingSubmit). 0 < budget retry_count o) (sym s ∙ ap p (same y))
                (budget-pos e.state)))
        | inr n ↦ inl (rw n refl)
      ]

  guarded :
      (b : Bool) (st : SubmitAttemptState) (c : Change)
      → (b ≡ true → Cheaper st c)
      → Cheaper st (if b then c else unchanged) × Cheaper st (if not b then unchanged else c)
  unfolding Cheaper
  guarded true st c h = (h refl, h refl)
  guarded false st c h = (tt, tt)

  claim_state-Cheaper : (st : SubmitAttemptState) (k : ℕ) → Cheaper st (claim_state st k)
  unfolding claim_state Cheaper state_budget
  claim_state-Cheaper (queued a) k =
      (guarded (a == k) (queued a) (becomes true (writing k)) (λ h. ground (arith, h))).0
  claim_state-Cheaper (writing a) k = tt
  claim_state-Cheaper (awaiting_response a w) k = tt
  claim_state-Cheaper (responded_while_writing a) k = tt

  complete_state-Cheaper : (st : SubmitAttemptState) (k w : ℕ) → Cheaper st (complete_state st k w)
  unfolding complete_state Cheaper state_budget
  complete_state-Cheaper (queued a) k w = tt
  complete_state-Cheaper (writing a) k w =
      (guarded (a == k) (writing a) (becomes false (awaiting_response k w))
        (λ h. ground (arith, h))).0
  complete_state-Cheaper (awaiting_response a v) k w = tt
  complete_state-Cheaper (responded_while_writing a) k w =
      (guarded (a == k) (responded_while_writing a) (removed true) (λ h. tt)).0

  respond_state-Cheaper : (st : SubmitAttemptState) → Cheaper st (respond_state st)
  unfolding respond_state Cheaper state_budget
  respond_state-Cheaper (queued a) = tt
  respond_state-Cheaper (writing a) = omega arith
  respond_state-Cheaper (awaiting_response a w) = tt
  respond_state-Cheaper (responded_while_writing a) = tt

  requeue-Cheaper :
      (st : SubmitAttemptState) (k : ℕ)
      → awaits_state st k ≡ true
      → k < retry_count
      → Cheaper st (becomes true (queued (k + 1)))
  unfolding Cheaper awaits_state state_budget
  requeue-Cheaper (queued a) k h lt = cc
  requeue-Cheaper (writing a) k h lt = cc
  requeue-Cheaper (awaiting_response a w) k h lt =
      let same : a ≡ k = (==_iff a k).0 h in omega (arith, same, lt)
  requeue-Cheaper (responded_while_writing a) k h lt = cc

  pub claim_one-Spends :
      (allowed : Bool) (p : Pending) (key : SubmitAttemptKey) (x : ℕ)
      → Spends retry_count (p x) ((claim_one allowed p key).1 x)
  unfolding claim_one
  claim_one-Spends false p key x = inl refl
  claim_one-Spends true p key x =
      on_entry-Spends p key.sequence_id _
        (λ e.
          (guarded (e.submission_id == key.submission_id) e.state _
            (λ h. claim_state-Cheaper e.state key.attempt)).1)
        x

  pub complete_one-Spends :
      (p : Pending) (key : SubmitAttemptKey) (w x : ℕ)
      → Spends retry_count (p x) (complete_one p key w x)
  unfolding complete_one
  complete_one-Spends p key w x =
      on_entry-Spends p key.sequence_id _
        (λ e.
          (guarded (e.submission_id == key.submission_id) e.state _
            (λ h. complete_state-Cheaper e.state key.attempt w)).1)
        x

  pub time_out_one-Spends :
      (sent : Bool) (p : Pending) (key : SubmitAttemptKey) (x : ℕ)
      → Spends retry_count (p x) ((time_out_one sent p key).1 x)
  unfolding time_out_one Cheaper
  time_out_one-Spends sent p key x =
      on_entry-Spends p key.sequence_id _
        (λ e.
          (guarded (still_expired key e) e.state _
            (λ h. (guarded sent e.state (removed true) (λ h. tt)).0)).0)
        x

  pub requeue_one-Spends :
      (phase : ConnectionPhase) (p : Pending) (key : SubmitAttemptKey) (x : ℕ)
      → key.attempt < retry_count
      → Spends retry_count (p x) ((requeue_one phase p key).1 x)
  unfolding requeue_one still_expired
  requeue_one-Spends phase p key x lt =
      on_entry-Spends p key.sequence_id _
        (λ e.
          (guarded (is_open phase && still_expired key e) e.state _
            (λ h. requeue-Cheaper e.state key.attempt (ground (arith, h)) lt)).0)
        x

  pub respond_one-Spends :
      (p : Pending) (id x : ℕ) → Spends retry_count (p x) ((respond_one p id).1 x)
  unfolding respond_one
  respond_one-Spends p id x = on_entry-Spends p id _ (λ e. respond_state-Cheaper e.state) x
