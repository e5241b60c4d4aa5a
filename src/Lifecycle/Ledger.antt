-- ===== src/Lifecycle/Ledger.antt =====
-- src/connection.rs: the events that end SUBMITs, counted against the admissions and the entries, over any course of
-- a connection.
use cmppprotocol.Prelude.{
  ℕ, ◌+◌, ◌≡◌, inl, inr, refl, sym, ap, ◌∙◌, Bool, true, false, ◌&&◌, not, if◌then◌else◌, ◌==◌,
  arith, Bool-cases,
}
use cmppprotocol.Pending.{
  ConnectionPhase, SubmitAttemptState, queued, writing, awaiting_response, responded_while_writing,
  PendingSubmit, SubmitAttemptKey, Pending, Change, unchanged, becomes, removed, change_entry,
  on_entry, claim_state, claim_one, complete_state, complete_one, respond_state, respond_one,
}
use cmppprotocol.Pending.Once.{on_entry-some, on_entry-none}
use cmppprotocol.Timeouts.{awaits_state, still_expired, time_out_one, is_open, requeue_one}
use cmppprotocol.Lifecycle.Counts.{open_at, open_state, open_after, says, moved, kept}

guarded :
    (b : Bool) (st : SubmitAttemptState) (c : Change)
    → open_after st c ≡ open_state st
    → (open_after st (if b then c else unchanged) ≡ open_state st)
      × (open_after st (if not b then unchanged else c) ≡ open_state st)
unfolding open_after
guarded true st c h = (h, h)
guarded false st c h = (refl, refl)

claim_state-open :
    (st : SubmitAttemptState) (k : ℕ) → open_after st (claim_state st k) ≡ open_state st
unfolding claim_state open_after open_state
claim_state-open (queued a) k = (guarded (a == k) (queued a) (becomes true (writing k)) refl).0
claim_state-open (writing a) k = refl
claim_state-open (awaiting_response a w) k = refl
claim_state-open (responded_while_writing a) k = refl

pub claim_one-open :
    (allowed : Bool) (p : Pending) (key : SubmitAttemptKey) (x : ℕ)
    → open_at ((claim_one allowed p key).1 x) ≡ open_at (p x)
unfolding claim_one
claim_one-open false p key x = refl
claim_one-open true p key x =
    kept p key.sequence_id _
      (λ e.
        (guarded (e.submission_id == key.submission_id) e.state (claim_state e.state key.attempt)
          (claim_state-open e.state key.attempt)).1)
      x

complete_state-open :
    (st : SubmitAttemptState) (k w : ℕ) → open_after st (complete_state st k w) ≡ open_state st
unfolding complete_state open_after open_state
complete_state-open (queued a) k w = refl
complete_state-open (writing a) k w =
    (guarded (a == k) (writing a) (becomes false (awaiting_response k w)) refl).0
complete_state-open (awaiting_response a v) k w = refl
complete_state-open (responded_while_writing a) k w =
    (guarded (a == k) (responded_while_writing a) (removed true) refl).0

pub complete_one-open :
    (p : Pending) (key : SubmitAttemptKey) (w x : ℕ)
    → open_at (complete_one p key w x) ≡ open_at (p x)
unfolding complete_one
complete_one-open p key w x =
    kept p key.sequence_id _
      (λ e.
        (guarded (e.submission_id == key.submission_id) e.state
          (complete_state e.state key.attempt w) (complete_state-open e.state key.attempt w)).1)
      x

-- An attempt that waits for its response is open.
awaits-open : (st : SubmitAttemptState) (k : ℕ) → awaits_state st k ≡ true → open_state st ≡ 1
unfolding awaits_state open_state
awaits-open (queued a) k h = cc
awaits-open (writing a) k h = cc
awaits-open (awaiting_response a w) k h = refl
awaits-open (responded_while_writing a) k h = cc

still_expired-open :
    (key : SubmitAttemptKey) (e : PendingSubmit)
    → still_expired key e ≡ true
    → open_state e.state ≡ 1
unfolding still_expired
still_expired-open key e h = awaits-open e.state key.attempt (ground (arith, h))

pub requeue_one-open :
    (phase : ConnectionPhase) (p : Pending) (key : SubmitAttemptKey) (x : ℕ)
    → open_at ((requeue_one phase p key).1 x) ≡ open_at (p x)
unfolding requeue_one open_after open_state
requeue_one-open phase p key x = kept p key.sequence_id _ same x
  where
    same :
        (e : PendingSubmit)
        → open_after e.state (
            if is_open phase && still_expired key e
            then becomes true (queued (key.attempt + 1))
            else unchanged)
          ≡ open_state e.state
    same e = elim (Bool-cases (is_open phase && still_expired key e)) [
      | inl y ↦ rw y (sym (still_expired-open key e (ground (arith, y))))
      | inr n ↦ rw n refl
    ]

-- The answer of an operation says whether it ended the entry.
abbrev flag : Bool → ℕ
flag b = if b then 1 else 0

change_entry-says :
    (p : Pending) (id : ℕ) (e : PendingSubmit) (c : Change) → (change_entry p id e c).0 ≡ says c
unfolding says
change_entry-says p id e unchanged = refl
change_entry-says p id e (becomes b st) = refl
change_entry-says p id e (removed b) = refl

-- An operation that ends what it says it ends.
told :
    (p : Pending) (id : ℕ) (f : PendingSubmit → Change)
    → ((e : PendingSubmit) → open_after e.state (f e) + flag (says (f e)) ≡ open_state e.state)
    → (x : ℕ)
    → open_at ((on_entry p id f).1 x) + (if x == id then flag (on_entry p id f).0 else 0)
      ≡ open_at (p x)
told p id f all x =
    moved p id f (flag (on_entry p id f).0) (λ n. rw (on_entry-none p id f n) refl)
      (λ e s. rw (on_entry-some p id e f s) (
        ap (λ (b : Bool). open_after e.state (f e) + flag b) (change_entry-says p id e (f e))
        ∙ all e))
      x

respond_state-open :
    (st : SubmitAttemptState)
    → open_after st (respond_state st) + flag (says (respond_state st)) ≡ open_state st
unfolding respond_state open_after open_state says
respond_state-open (queued a) = refl
respond_state-open (writing a) = refl
respond_state-open (awaiting_response a w) = refl
respond_state-open (responded_while_writing a) = refl

pub respond_one-open :
    (p : Pending) (id x : ℕ)
    → open_at ((respond_one p id).1 x) + (if x == id then flag (respond_one p id).0 else 0)
      ≡ open_at (p x)
unfolding respond_one
respond_one-open p id x = told p id _ (λ e. respond_state-open e.state) x

pub time_out_one-open :
    (sent : Bool) (p : Pending) (key : SubmitAttemptKey) (x : ℕ)
    → open_at ((time_out_one sent p key).1 x)
        + (if x == key.sequence_id then flag (time_out_one sent p key).0 else 0)
      ≡ open_at (p x)
unfolding time_out_one open_after says
time_out_one-open sent p key x = told p key.sequence_id _ (λ e. by_test sent e) x
  where
    by_test :
        (sent : Bool) (e : PendingSubmit)
        → open_after e.state (
              if still_expired key e then (if sent then removed true else unchanged) else unchanged)
            + flag (
                says (
                  if still_expired key e
                  then (if sent then removed true else unchanged)
                  else unchanged))
          ≡ open_state e.state
    by_test sent e = elim (Bool-cases (still_expired key e)) [
      | inr n ↦ rw n (omega arith)
      | inl y ↦ elim (Bool-cases sent) [
        | inl h ↦ rw (y, h) (sym (still_expired-open key e y))
        | inr h ↦ rw (y, h) (omega arith)
      ]
    ]
