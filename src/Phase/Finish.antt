-- ===== src/Phase/Finish.antt =====
-- src/connection.rs: `finish` and the end of the event spool, with the reason of the end. A call of `finish` chooses
-- its reason before it waits for the lock of `terminal_reason`, so other tasks come between.
use cmppprotocol.Prelude.{
  ℕ, ◌+◌, ◌-◌, List, [], ◌∷◌, ◌++◌, Option, none, some, Bool, true, false, if◌then◌else◌, ◌==◌,
}
use cmppprotocol.Error.{Error, terminated, channel_closed}
use cmppprotocol.Pending.{ConnectionPhase, phase_closed}
use cmppprotocol.Phase.{Admission, begin_closing, transition_to_closed}

-- `waiting` has the reason of each call that waits for the lock, `cleanups` counts the tasks that are
-- spawned, `terminal_items` has the reasons that went into the spool.
pub record Ending : Type 0 where
  pub admission : Admission
  pub peer_terminate_seen : Bool
  pub event_overflowed : Bool
  pub terminal_reason : Option Error
  pub waiting : ℕ → Option (Option Error)
  pub cleanups : ℕ
  pub is_terminal : Bool
  pub terminal_items : List (Option Error)

unfoldable pub is_closed : ConnectionPhase → Bool
is_closed phase_closed = true
is_closed _ = false

unfoldable pub choose_reason : Ending → Option Error → Option Error
choose_reason s reason =
    if s.peer_terminate_seen
    then some terminated
    else if s.event_overflowed
    then some channel_closed
    else reason

-- The semaphores that this closes are not part of the state.
unfoldable pub finish_closed : Option Error → Ending → Ending
finish_closed reason s = record s {
  terminal_reason = reason;
  admission = record (transition_to_closed s.admission).0 { drain_submits_on_close = false };
  cleanups = s.cleanups + 1;
}

-- Behind the lock. Only `finish` closes the phase, so its transition succeeds here.
unfoldable pub finish_locked : Option Error → Ending → Ending
finish_locked reason s = if is_closed s.admission.phase then s else finish_closed reason s

unfoldable pub close_spool : Ending → Ending
close_spool s = if s.is_terminal then s else record s {
  is_terminal = true;
  terminal_reason = none;
  terminal_items = s.terminal_items ++ (s.terminal_reason ∷ []);
}

pub data FinishCall : Type 0 where
  seeing_terminate overflowing cleaning : FinishCall
  closing : Bool → FinishCall
  choosing : ℕ → Option Error → FinishCall
  locking : ℕ → FinishCall

unfoldable pub leave : Ending → ℕ → Option (Option Error) → Ending
leave s t r = record s { waiting = λ u. if u == t then r else s.waiting u }

-- The call gets the lock with the reason that it chose; without one there is no such call.
unfoldable pub with_lock : Ending → ℕ → Option (Option Error) → Ending
with_lock s t none = s
with_lock s t (some reason) = finish_locked reason (leave s t none)

unfoldable pub finish_step : FinishCall → Ending → Ending
finish_step seeing_terminate s = record s { peer_terminate_seen = true }
finish_step overflowing s = record s { event_overflowed = true }
finish_step (closing drain) s = record s { admission = (begin_closing drain s.admission).0 }
finish_step (choosing t reason) s = leave s t (some (choose_reason s reason))
finish_step (locking t) s = with_lock s t (s.waiting t)
finish_step cleaning s =
    if s.cleanups == 0 then s else close_spool (record s { cleanups = s.cleanups - 1 })

unfoldable pub run_finish : List FinishCall → Ending → Ending
run_finish [] s = s
run_finish (c ∷ cs) s = run_finish cs (finish_step c s)
