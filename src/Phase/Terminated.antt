-- ===== src/Phase/Terminated.antt =====
-- src/connection.rs: the reason that the end of a connection tells, behind any calls of `finish`.
use cmppprotocol.Prelude.{
  ℕ, ◌+◌, ◌≡◌, refl, List, [], ◌∷◌, Option, none, some, Bool, true, false, ◌==◌, Bool-cases, inl,
  inr, true-≢false, sym, ◌∙◌, ap,
}
use cmppprotocol.Error.{Error, terminated}
use cmppprotocol.Pending.{ConnectionPhase, phase_open, phase_closing, phase_closed}
use cmppprotocol.Phase.{begin_closing, transition_to_closed}
use cmppprotocol.Phase.Finish.{
  Ending, is_closed, choose_reason, finish_closed, finish_locked, close_spool, FinishCall,
  seeing_terminate, overflowing, cleaning, closing, choosing, locking, leave, with_lock,
  finish_step, run_finish,
}

data Stage (s : Ending) : Type 0 where
  live :
      is_closed s.admission.phase ≡ false
      → s.cleanups ≡ 0
      → s.is_terminal ≡ false
      → s.terminal_items ≡ []
      → Stage s
  cleaned_soon :
      is_closed s.admission.phase ≡ true
      → s.cleanups ≡ 1
      → s.is_terminal ≡ false
      → s.terminal_reason ≡ some terminated
      → s.terminal_items ≡ []
      → Stage s
  ended :
      is_closed s.admission.phase ≡ true
      → s.cleanups ≡ 0
      → s.terminal_items ≡ (some terminated ∷ [])
      → Stage s

record Terminating (s : Ending) : Type 0 where
  seen : s.peer_terminate_seen ≡ true
  chosen : (t : ℕ) (r : Option Error) → s.waiting t ≡ some r → r ≡ some terminated
  stage : Stage s

begin_closing-is_closed :
    (drain : Bool) (p : ConnectionPhase) (d : Bool)
    → is_closed (begin_closing drain (record { phase = p; drain_submits_on_close = d })).0.phase
      ≡ is_closed p
unfolding begin_closing is_closed
begin_closing-is_closed drain phase_open d = refl
begin_closing-is_closed true phase_closing d = refl
begin_closing-is_closed false phase_closing d = refl
begin_closing-is_closed drain phase_closed d = refl

transition-is_closed :
    (p : ConnectionPhase) (d : Bool)
    → is_closed (transition_to_closed (record { phase = p; drain_submits_on_close = d })).0.phase
      ≡ true
unfolding transition_to_closed is_closed
transition-is_closed phase_open d = refl
transition-is_closed phase_closing d = refl
transition-is_closed phase_closed d = refl

choose_reason-seen :
    (s : Ending) (r : Option Error)
    → s.peer_terminate_seen ≡ true
    → choose_reason s r ≡ some terminated
unfolding choose_reason
choose_reason-seen s r h = rw h refl

leave-Stage : (s : Ending) (t : ℕ) (o : Option (Option Error)) → Stage s → Stage (leave s t o)
unfolding leave
leave-Stage s t o (live c n i e) = live c n i e
leave-Stage s t o (cleaned_soon c n i r e) = cleaned_soon c n i r e
leave-Stage s t o (ended c n e) = ended c n e

leave-Terminating :
    (s : Ending) (t : ℕ) (o : Option (Option Error))
    → ((r : Option Error) → o ≡ some r → r ≡ some terminated)
    → Terminating s
    → Terminating (leave s t o)
unfolding leave
leave-Terminating s t o said v = record {
  seen = v.seen;
  stage = leave-Stage s t o v.stage;
  chosen =
      λ u r. elim (Bool-cases (u == t)) [ inl y ↦ rw y (said r) | inr n ↦ rw n (v.chosen u r) ];
}

close_spool-Stage : (s : Ending) → Stage s → Stage (finish_step cleaning s)
unfolding finish_step close_spool
close_spool-Stage s (live c n i e) = rw n (live c refl i e)
close_spool-Stage s (cleaned_soon c n i r e) = rw (n, i, r, e) (ended c refl refl)
close_spool-Stage s (ended c n e) = rw n (ended c refl e)

-- The end of the spool changes neither the flag nor the calls that wait.
cleaning-keeps :
    (s : Ending)
    → ((finish_step cleaning s).waiting ≡ s.waiting)
      × ((finish_step cleaning s).peer_terminate_seen ≡ s.peer_terminate_seen)
unfolding finish_step close_spool
cleaning-keeps s = elim (Bool-cases (s.cleanups == 0)) [
  | inl y ↦ rw y (refl, refl)
  | inr n ↦
      rw n
        (elim (Bool-cases s.is_terminal) [ inl y ↦ rw y (refl, refl) | inr m ↦ rw m (refl, refl) ])
]

finish_locked-Stage :
    (s : Ending) (r : Option Error) → r ≡ some terminated → Stage s → Stage (finish_locked r s)
unfolding finish_locked finish_closed
finish_locked-Stage s r same (live c n i e) = rw c (
    cleaned_soon (transition-is_closed s.admission.phase s.admission.drain_submits_on_close)
      (ap (λ k. k + 1) n) i same e)
finish_locked-Stage s r same (cleaned_soon c n i w e) = rw c (cleaned_soon c n i w e)
finish_locked-Stage s r same (ended c n e) = rw c (ended c n e)

finish_locked-Terminating :
    (s : Ending) (r : Option Error)
    → r ≡ some terminated
    → Terminating s
    → Terminating (finish_locked r s)
unfolding finish_locked finish_closed
finish_locked-Terminating s r same v = record {
  seen = elim (Bool-cases (is_closed s.admission.phase)) [
    | inl y ↦ rw y v.seen
    | inr n ↦ rw n v.seen
  ];
  chosen = elim (Bool-cases (is_closed s.admission.phase)) [
    | inl y ↦ rw y v.chosen
    | inr n ↦ rw n v.chosen
  ];
  stage = finish_locked-Stage s r same v.stage;
}

with_lock-Terminating :
    (s : Ending) (t : ℕ) (o : Option (Option Error))
    → ((r : Option Error) → o ≡ some r → r ≡ some terminated)
    → Terminating s
    → Terminating (with_lock s t o)
unfolding with_lock
with_lock-Terminating s t none said v = v
with_lock-Terminating s t (some r) said v =
    finish_locked-Terminating (leave s t none) r (said r refl)
      (leave-Terminating s t none (λ o h. cc) v)

closing-Stage : (s : Ending) (drain : Bool) → Stage s → Stage (finish_step (closing drain) s)
unfolding finish_step
closing-Stage s drain w = elim w [
  | live c n i e ↦ live (still ∙ c) n i e
  | cleaned_soon c n i r e ↦ cleaned_soon (still ∙ c) n i r e
  | ended c n e ↦ ended (still ∙ c) n e
]
  where
    still : is_closed (begin_closing drain s.admission).0.phase ≡ is_closed s.admission.phase
    still = begin_closing-is_closed drain s.admission.phase s.admission.drain_submits_on_close

flags-Stage :
    (s : Ending) (a b : Bool)
    → Stage s
    → Stage (record s { peer_terminate_seen = a; event_overflowed = b })
flags-Stage s a b (live c n i e) = live c n i e
flags-Stage s a b (cleaned_soon c n i r e) = cleaned_soon c n i r e
flags-Stage s a b (ended c n e) = ended c n e

finish_step-Terminating :
    (c : FinishCall) (s : Ending) → Terminating s → Terminating (finish_step c s)
unfolding finish_step close_spool
finish_step-Terminating seeing_terminate s v = record {
  seen = refl;
  chosen = v.chosen;
  stage = flags-Stage s true s.event_overflowed v.stage;
}
finish_step-Terminating overflowing s v = record {
  seen = v.seen;
  chosen = v.chosen;
  stage = flags-Stage s s.peer_terminate_seen true v.stage;
}
finish_step-Terminating cleaning s v = record {
  seen = (cleaning-keeps s).1 ∙ v.seen;
  chosen = λ t r h. v.chosen t r (sym (ap (λ w. w t) (cleaning-keeps s).0) ∙ h);
  stage = close_spool-Stage s v.stage;
}
finish_step-Terminating (closing drain) s v = record {
  seen = v.seen;
  chosen = v.chosen;
  stage = closing-Stage s drain v.stage;
}
finish_step-Terminating (choosing t reason) s v =
    leave-Terminating s t (some (choose_reason s reason))
      (λ r h. cc (h, choose_reason-seen s reason v.seen)) v
finish_step-Terminating (locking t) s v = with_lock-Terminating s t (s.waiting t) (v.chosen t) v

run_finish-Terminating :
    (cs : List FinishCall) (s : Ending) → Terminating s → Terminating (run_finish cs s)
unfolding run_finish
run_finish-Terminating [] s v = v
run_finish-Terminating (c ∷ cs) s v =
    run_finish-Terminating cs (finish_step c s) (finish_step-Terminating c s v)

cleaned :
    (s : Ending)
    → Stage s
    → is_closed s.admission.phase ≡ true
    → (finish_step cleaning s).terminal_items ≡ (some terminated ∷ [])
unfolding finish_step close_spool
cleaned s (live c n i e) closed = absurd (true-≢false (sym closed ∙ c))
cleaned s (cleaned_soon c n i r e) closed = rw (n, i, r, e) refl
cleaned s (ended c n e) closed = rw n e

-- A connection that is not closed, and whose end no call of `finish` has chosen a reason for.
pub record Unfinished (s : Ending) : Type 0 where
  pub not_closed : is_closed s.admission.phase ≡ false
  pub none_waiting : (t : ℕ) → s.waiting t ≡ none
  pub no_cleanup : s.cleanups ≡ 0
  pub not_terminal : s.is_terminal ≡ false
  pub no_items : s.terminal_items ≡ []

-- Once the peer's TERMINATE is seen on a connection that is not closed and whose end no call of
-- finish has chosen a reason for, let calls of any tasks follow, in any order of their choices and
-- locks: if the phase is closed then, the spool has one terminal item behind the next cleanup, and
-- its reason is Error::Terminated.
pub run_finish-terminated :
    (cs : List FinishCall) (s : Ending)
    → s.peer_terminate_seen ≡ true
    → Unfinished s
    → is_closed (run_finish cs s).admission.phase ≡ true
    → (finish_step cleaning (run_finish cs s)).terminal_items ≡ (some terminated ∷ [])
run_finish-terminated cs s seen u closed =
    cleaned (run_finish cs s) (run_finish-Terminating cs s start).stage closed
  where
    start : Terminating s
    start = record {
      seen = seen;
      chosen = λ t r h. cc (h, u.none_waiting t);
      stage = live u.not_closed u.no_cleanup u.not_terminal u.no_items;
    }
