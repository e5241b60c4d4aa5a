-- ===== src/Tests/Lifecycles.antt =====
-- Courses of a connection's SUBMITs and events, for src/connection.rs.
use cmppprotocol.Prelude.{
  List, ℕ, ◌+◌, ◌-◌, ◌*◌, ◌≤◌, ◌≡◌, ◌≢◌, refl, [], ◌∷◌, none, some, true, false, arith,
}
use cmppprotocol.Sequence.Registry.{contains}
use cmppprotocol.Pending.{
  phase_closed, queued, PendingSubmit, SubmitAttemptKey, SubmitResponse, on_entry, claim_state,
  claim_one, allowed_in, respond_state, respond_one,
}
use cmppprotocol.Phase.{begin_closing, close, perform, transition_to_closed}
use cmppprotocol.Phase.Finish.{
  Ending, FinishCall, is_closed, choosing, locking, closing, cleaning, run_finish, finish_step,
  finish_locked, finish_closed, choose_reason, leave, with_lock,
}
use cmppprotocol.Phase.Terminated.{Unfinished, run_finish-terminated}
use cmppprotocol.Error.{terminated, closed}
use cmppprotocol.Pending.{phase_closing}
use cmppprotocol.Spool.{
  drop_permits, Event, submit_dropped, EventState, open_admission, overflowed, try_send,
  new_permits, permits,
}
use cmppprotocol.Events.{
  EventCall, receiving, offering_batch, offering_terminal, enqueueing, giving_up, closing_spool,
  receive, offer_batch, offer, enqueue, enqueue_item, give_up, give_up_item, lost_events,
  dispatched, close_event_spool, offer_terminal, ends_dispatch, emit_event, reserve_deferred_event,
  emitting, reserving, dispatching, sealing, run_calls, run_call, new_events, drop_event, emit_open,
  overflow,
}
use cmppprotocol.Events.Depth.{all_held, under_way, ordinary_by, ordinary, ordinaries}
use cmppprotocol.Events.Bounded.{bounded_events}
use cmppprotocol.Events.Refused.{admits, refused_events}
use cmppprotocol.Lifecycle.{
  Submits, commit_submit, undecided, fail_all_pending, respond, claim, count, present, Yields,
  admitting, claiming, responding, calling, Steps, done, next, new_submits,
}
use cmppprotocol.Lifecycle.Counts.{endings}
use cmppprotocol.Lifecycle.Settled.{ended_once, closed-ended_once}
use cmppprotocol.Lifecycle.Ends.{begun, changed, changes_bounded}

-- 5 and 6 are admitted, 5 is written and answered.
abbrev admit_five : Submits
admit_five = commit_submit false new_submits 5 1 []

abbrev admit_six : Submits
admit_six = commit_submit false admit_five 6 2 []

abbrev key_five : SubmitAttemptKey
key_five = record { sequence_id = 5; submission_id = 1; attempt = 1 }

abbrev claim_five : Submits
claim_five = claim admit_six key_five

abbrev response_five : SubmitResponse
response_five = record { sequence_id = 5; msg_id = []; result = 0 }

abbrev respond_five : Submits
respond_five = respond claim_five response_five true

abbrev close_five : Submits
close_five = record respond_five { admission = (perform close respond_five.admission).0 }

not_admitted : contains [] 5 ≡ false
unfolding contains
not_admitted = refl

six_new : contains admit_five.admitted 6 ≡ false
unfolding commit_submit contains
six_new = refl

course_five : Steps 3 new_submits respond_five
course_five =
    next
      (next
        (next (next done (admitting false 5 1 [] not_admitted refl))
          (admitting false 6 2 [] six_new refl))
        (claiming key_five refl))
      (responding response_five true refl)

ended_once_example :
    (endings 5 respond_five.concluded ≤ 1)
    × (count 5 respond_five.admitted ≡ 0 → endings 5 respond_five.concluded ≡ 0)
    × (undecided (respond_five.pending 5) ≡ true → endings 5 respond_five.concluded ≡ 0)
    × (count 5 respond_five.admitted ≡ 1
        → undecided (respond_five.pending 5) ≡ false
        → endings 5 respond_five.concluded ≡ 1)
ended_once_example = ended_once 3 respond_five 5 course_five

closed_now : close_five.admission.phase ≡ phase_closed
unfolding commit_submit claim_one on_entry claim_state allowed_in respond respond_one respond_state
    perform transition_to_closed
closed_now = refl

Yields-five : Yields close_five.pending (6 ∷ 5 ∷ [])
unfolding commit_submit claim_one on_entry claim_state allowed_in respond respond_one respond_state
    count present
Yields-five x = ground arith

closed-ended_once_example :
    (close_five.admitted ≡ close_five.admitted)
    × ((x : ℕ)
        → (endings x (fail_all_pending close_five (6 ∷ 5 ∷ []) (λ id. true)).concluded
            ≡ count x close_five.admitted)
          × (count x close_five.admitted ≤ 1))
unfolding fail_all_pending
closed-ended_once_example =
    closed-ended_once 3 close_five (fail_all_pending close_five (6 ∷ 5 ∷ []) (λ id. true))
      (6 ∷ 5 ∷ []) (λ id. true) (next course_five (calling close refl)) closed_now Yields-five done

five_admitted : contains admit_five.admitted 5 ≡ true
unfolding commit_submit contains
five_admitted = refl

abbrev entry_five : PendingSubmit
entry_five = record { submission_id = 1; packet = []; state = queued 1 }

five_there : admit_five.pending 5 ≡ some entry_five
unfolding commit_submit
five_there = refl

claim_changes : (claim admit_five key_five).pending 5 ≢ admit_five.pending 5
unfolding commit_submit claim_one on_entry claim_state allowed_in
claim_changes h = cc

changes_bounded_example : 1 ≤ (3 - 1) * 3 + 3
changes_bounded_example =
    changes_bounded 3 5 1 admit_five (claim admit_five key_five) entry_five five_admitted five_there
      refl (changed begun (claiming key_five refl) claim_changes)

abbrev dropped_nine : Event
dropped_nine = submit_dropped 9

-- Room for one: the second event goes in and overflows, the third does not.
abbrev overflown : EventState
overflown =
    run_calls 1 (emitting dropped_nine true ∷ emitting dropped_nine true ∷ reserving true ∷ [])
      new_events

-- The dispatcher holds the first of three events, and a batch of two waits for the spool, which is full.
abbrev crowded_calls : List EventCall
crowded_calls =
    emitting dropped_nine true
    ∷ receiving
    ∷ emitting dropped_nine true
    ∷ offering_batch (dropped_nine ∷ dropped_nine ∷ [])
    ∷ enqueueing 0 false
    ∷ []

abbrev crowded : EventState
crowded = run_calls 2 crowded_calls new_events

bounded_events_example :
    (crowded.depth.current ≡ all_held crowded)
    × (crowded.depth.current ≤ crowded.depth.peak)
    × (under_way crowded ≤ 2 + 1)
    × (crowded.admission ≡ open_admission → under_way crowded ≤ 2)
bounded_events_example = bounded_events 2 crowded_calls crowded refl

crowded_run :
    (crowded.depth.current ≡ 4) × (under_way crowded ≡ 2) × (crowded.admission ≡ open_admission)
unfolding run_calls run_call emit_event emit_open try_send receive offer_batch offer enqueue
    enqueue_item new_permits permits under_way ordinaries ordinary ordinary_by
crowded_run = (refl, refl, refl)

-- Behind the tries the batch is given up, the dispatcher ends, and nothing is held any more.
abbrev cleared : EventState
cleared =
    run_calls 2
      (dispatching
        ∷ giving_up 0 0
        ∷ receiving
        ∷ dispatching
        ∷ closing_spool
        ∷ offering_terminal none
        ∷ enqueueing 0 true
        ∷ receiving
        ∷ dispatching
        ∷ [])
      crowded

cleared_run :
    (cleared.depth.current ≡ 0) × (cleared.events_dropped ≡ 2) × (cleared.dispatcher_done ≡ true)
unfolding run_calls run_call emit_event emit_open try_send receive offer_batch offer enqueue
    enqueue_item new_permits permits dispatched drop_permits give_up give_up_item lost_events
    close_event_spool offer_terminal ends_dispatch
cleared_run = (refl, refl, refl)

overflow_run : (overflown.admission ≡ overflowed) × (ordinaries overflown.spool ≡ 2)
unfolding run_calls run_call emit_event emit_open reserve_deferred_event overflow try_send
    new_permits permits ordinaries ordinary
overflow_run = (refl, refl)

overflown_refuses : admits overflown.admission ≡ false
unfolding run_calls run_call emit_event emit_open reserve_deferred_event overflow try_send admits
    new_permits permits
overflown_refuses = refl

abbrev sealed_later : EventState
sealed_later = run_calls 1 (receiving ∷ dispatching ∷ sealing ∷ []) overflown

refused_events_example :
    (emit_event 1 sealed_later dropped_nine true ≡ (false, drop_event sealed_later))
    × ((reserve_deferred_event 1 sealed_later true).1 ≡ sealed_later)
    × ((reserve_deferred_event 1 sealed_later true).0 ≢ none)
refused_events_example =
    refused_events 1 (receiving ∷ dispatching ∷ sealing ∷ []) overflown sealed_later dropped_nine
      true overflown_refuses refl

-- The reader has seen TERMINATE; two tasks finish, the second gets the lock first.
abbrev leaving : Ending
leaving = record {
  admission = record { phase = phase_closing; drain_submits_on_close = true };
  peer_terminate_seen = true;
  event_overflowed = true;
  terminal_reason = none;
  waiting = λ t. none;
  cleanups = 0;
  is_terminal = false;
  terminal_items = [];
}

abbrev two_finish : List FinishCall
two_finish = choosing 1 none ∷ choosing 2 (some closed) ∷ closing false ∷ locking 2 ∷ locking 1 ∷ []

leaving_closed : is_closed (run_finish two_finish leaving).admission.phase ≡ true
unfolding is_closed run_finish finish_step finish_locked finish_closed choose_reason leave with_lock
    begin_closing transition_to_closed
leaving_closed = refl

leaving-Unfinished : Unfinished leaving
unfolding is_closed
leaving-Unfinished = record {
  not_closed = refl;
  none_waiting = λ t. refl;
  no_cleanup = refl;
  not_terminal = refl;
  no_items = refl;
}

run_finish-terminated_example :
    (finish_step cleaning (run_finish two_finish leaving)).terminal_items ≡ (some terminated ∷ [])
run_finish-terminated_example =
    run_finish-terminated two_finish leaving refl leaving-Unfinished leaving_closed
