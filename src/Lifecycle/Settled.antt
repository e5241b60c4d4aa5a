-- ===== src/Lifecycle/Settled.antt =====
-- src/connection.rs: every admitted SUBMIT ends once, and with a closed connection at last.
use mathlib.Core.Path.{subst}
use cmppprotocol.Prelude.{
  ℕ, ◌≤◌, ◌≡◌, refl, sym, ap, ◌∙◌, none, some, Bool, true, false, List, ◌∷◌, arith,
}
use cmppprotocol.Pending.{
  phase_open, phase_closing, phase_closed, ConnectionPhase, SubmitAttemptKey, queued, put, Change,
  Pending, on_entry, claim_one, complete_one, respond_one, PendingSubmit,
}
use cmppprotocol.Pending.Once.{on_entry-none}
use cmppprotocol.Timeouts.{time_out_one, requeue_one}
use cmppprotocol.Phase.{Call, begin, close, perform, begin_closing, transition_to_closed}
use cmppprotocol.Lifecycle.{
  Submits, commit_submit, undecided, fail_all_pending, respond, time_out, with_pending, count,
  Yields, Step, admitting, claiming, completing, responding, timing_out, requeueing, calling,
  failing, Steps, done, next, new_submits,
}
use cmppprotocol.Lifecycle.Counts.{endings, open_at, Balanced}
use cmppprotocol.Lifecycle.Balance.{Steps-Balanced}

-- In any course of a connection: no number has more than one event that ends its SUBMIT; one
-- without an admission, or whose entry still waits for its end, has none; an admitted number whose
-- entry is gone, or whose response came while it was being written, has exactly one.
pub ended_once :
    (retry_count : ℕ) (s : Submits) (x : ℕ)
    → Steps retry_count new_submits s
    → (endings x s.concluded ≤ 1)
      × (count x s.admitted ≡ 0 → endings x s.concluded ≡ 0)
      × (undecided (s.pending x) ≡ true → endings x s.concluded ≡ 0)
      × (count x s.admitted ≡ 1 → undecided (s.pending x) ≡ false → endings x s.concluded ≡ 1)
unfolding open_at
ended_once retry_count s x steps = (
  omega (arith, v.balance x, v.once x),
  λ h. omega (arith, v.balance x, h),
  λ h. ground (arith, v.balance x, v.once x, h),
  λ a h. ground (arith, v.balance x, a, h),
)
  where
    v : Balanced s
    v = Steps-Balanced retry_count s steps

-- The connection is closed, has no entries, and has admitted these numbers.
record Drained (l : List ℕ) (s : Submits) : Type 0 where
  closed : s.admission.phase ≡ phase_closed
  empty : (x : ℕ) → s.pending x ≡ none
  fixed : s.admitted ≡ l

untouched :
    (p : Pending) (id x : ℕ) (f : PendingSubmit → Change)
    → p id ≡ none
    → (on_entry p id f).1 x ≡ p x
untouched p id x f h = rw (on_entry-none p id f h) refl

claim_one-untouched :
    (allowed : Bool) (p : Pending) (key : SubmitAttemptKey) (x : ℕ)
    → p key.sequence_id ≡ none
    → (claim_one allowed p key).1 x ≡ p x
unfolding claim_one
claim_one-untouched false p key x h = refl
claim_one-untouched true p key x h = untouched p key.sequence_id x _ h

commit_submit-closed :
    (lost : Bool) (s : Submits) (id submission_id : ℕ) (packet : List ℕ)
    → s.admission.phase ≡ phase_closed
    → commit_submit lost s id submission_id packet ≡ s
unfolding commit_submit
commit_submit-closed true s id submission_id packet h = refl
commit_submit-closed false s id submission_id packet h =
    ap
      (λ (c : ConnectionPhase). elim c as (λ _. Submits) [
        | phase_open ↦ record s {
          pending =
              put s.pending id (
                some (record { submission_id = submission_id; packet = packet; state = queued 1 }));
          admitted = id ∷ s.admitted;
        }
        | _ ↦ s
      ])
      h

perform-closed :
    (c : Call) (p : ConnectionPhase) (drain : Bool)
    → p ≡ phase_closed
    → (perform c (record { phase = p; drain_submits_on_close = drain })).0.phase ≡ phase_closed
unfolding perform begin_closing transition_to_closed
perform-closed (begin b) phase_open drain h = cc
perform-closed (begin true) phase_closing drain h = cc
perform-closed (begin false) phase_closing drain h = cc
perform-closed (begin b) phase_closed drain h = refl
perform-closed close phase_open drain h = refl
perform-closed close phase_closing drain h = refl
perform-closed close phase_closed drain h = refl

module _ (retry_count : ℕ) (l : List ℕ) (s : Submits) (d : Drained l s) where
  still : (p : Pending) → ((x : ℕ) → p x ≡ s.pending x) → Drained l (with_pending s p)
  still p same = record { closed = d.closed; empty = λ x. same x ∙ d.empty x; fixed = d.fixed }

  Step-Drained : (t : Submits) → Step retry_count s t → Drained l t
  unfolding complete_one respond_one respond time_out time_out_one requeue_one fail_all_pending
  Step-Drained t (admitting lost id submission_id packet new e) =
      subst (Drained l) (sym (e ∙ commit_submit-closed lost s id submission_id packet d.closed)) d
  Step-Drained t (claiming key e) =
      subst (Drained l) (sym e)
        (still _ (λ x. claim_one-untouched _ s.pending key x (d.empty key.sequence_id)))
  Step-Drained t (completing key written_at e) =
      subst (Drained l) (sym e)
        (still _ (λ x. untouched s.pending key.sequence_id x _ (d.empty key.sequence_id)))
  Step-Drained t (responding r sent e) = subst (Drained l) (sym e) (record {
    closed = d.closed;
    empty = λ x. untouched s.pending r.sequence_id x _ (d.empty r.sequence_id) ∙ d.empty x;
    fixed = d.fixed;
  })
  Step-Drained t (timing_out key sent over e) = subst (Drained l) (sym e) (record {
    closed = d.closed;
    empty = λ x. untouched s.pending key.sequence_id x _ (d.empty key.sequence_id) ∙ d.empty x;
    fixed = d.fixed;
  })
  Step-Drained t (requeueing key below e) =
      subst (Drained l) (sym e)
        (still _ (λ x. untouched s.pending key.sequence_id x _ (d.empty key.sequence_id)))
  Step-Drained t (calling c e) = subst (Drained l) (sym e) (record {
    closed = perform-closed c s.admission.phase s.admission.drain_submits_on_close d.closed;
    fixed = d.fixed;
    empty = d.empty;
  })
  Step-Drained t (failing ids sent closed yields e) =
      subst (Drained l) (sym e) (record { closed = d.closed; empty = λ x. refl; fixed = d.fixed })

Steps-Drained :
    (retry_count : ℕ) (l : List ℕ) (s t : Submits)
    → Drained l s
    → Steps retry_count s t
    → Drained l t
Steps-Drained retry_count l s _ d done = d
Steps-Drained retry_count l s u d (next {t} steps step) =
    Step-Drained retry_count l t (Steps-Drained retry_count l s t d steps) u step

both : {n : ℕ} (s t u : Submits) → Steps n s t → Steps n t u → Steps n s u
both s t _ a done = a
both s t u a (next {t = v} b step) = next (both s t v a b) step

-- In any course of a connection: once it is closed and its entries are failed, and whatever steps
-- follow, no number is admitted any more, and every number has as many events that end its SUBMIT
-- as it has admissions, which is one at most.
pub closed-ended_once :
    (retry_count : ℕ) (s t : Submits) (ids : List ℕ) (sent : ℕ → Bool)
    → Steps retry_count new_submits s
    → s.admission.phase ≡ phase_closed
    → Yields s.pending ids
    → Steps retry_count (fail_all_pending s ids sent) t
    → (t.admitted ≡ s.admitted)
      × ((x : ℕ) → (endings x t.concluded ≡ count x t.admitted) × (count x t.admitted ≤ 1))
unfolding fail_all_pending open_at undecided
closed-ended_once retry_count s t ids sent before closed yields after =
    (d.fixed, λ x. (ended x, all.once x))
  where
    all : Balanced t
    all =
        Steps-Balanced retry_count t
          (both new_submits _ t (next before (failing ids sent closed yields refl)) after)

    d : Drained s.admitted t
    d =
        Steps-Drained retry_count s.admitted _ t
          (record { closed = closed; empty = λ x. refl; fixed = refl }) after

    ended : (x : ℕ) → endings x t.concluded ≡ count x t.admitted
    ended x = let nothing = ap open_at (d.empty x) in omega (arith, all.balance x, nothing)
