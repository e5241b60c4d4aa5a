-- ===== src/Events/Bounded.antt =====
-- src/connection.rs: the depth of the events in the spool, and the bound on the events that the admission let in.
use mathlib.Core.Path.{subst}
use cmppprotocol.Prelude.{
  ℕ, ◌+◌, ◌-◌, ◌≤◌, ◌≡◌, inl, inr, refl, ap, List, [], ◌∷◌, Bool, true, false, if◌then◌else◌, ◌==◌,
  arith, Bool-cases,
}
use cmppprotocol.Events.Depth.{
  all_held, under_way, held_by, ordinary_by, ordinaries, extra, Sized, overflow-Sized,
}
use cmppprotocol.Spool.{
  held, EventAdmissionState, open_admission, draining, overflowed, sealed, terminal, EventState,
}
use cmppprotocol.Events.{
  end_ticket, begin_event_drain, seal_event_admission_if_idle, seal_event_admission,
  start_event_dispatch_backpressure_close, EventCall, emitting, reserving, ending_ticket,
  draining_events, sealing_if_idle, sealing, backpressure, closing_spool, offering_terminal,
  offering_batch, enqueueing, giving_up, receiving, dropping_receiver, losing_event, dispatching,
  run_call, run_calls, new_events, with_admission,
}
use cmppprotocol.Events.Keeps.{
  ticketed-Sized, counted-Sized, close-Sized, emit_event-Sized, reserve-Sized, sealed-Sized,
  flagged-Sized,
}
use cmppprotocol.Events.Offers.{
  enqueue-Sized, give_up-Sized, receive-Sized, dispatched-Sized, drop_receiver-Sized,
  offer_batch-Sized, offer_terminal-Sized,
}

if_idle-Sized :
    (capacity : ℕ) (a : EventAdmissionState) (s : EventState)
    → Sized capacity (with_admission s a)
    → Sized capacity
        (if◌then◌else◌ {A = Bool × EventState}
          (s.tickets == 0)
          (true, with_admission s sealed)
          (false, with_admission s a)).1
if_idle-Sized capacity a s v = elim (Bool-cases (s.tickets == 0)) [
  | inl idle ↦ rw idle (sealed-Sized capacity a s v)
  | inr busy ↦ rw busy v
]

phase_call-Sized :
    (capacity : ℕ) (a : EventAdmissionState) (s : EventState)
    → Sized capacity (with_admission s a)
    → Sized capacity (begin_event_drain (with_admission s a))
      × Sized capacity (seal_event_admission_if_idle (with_admission s a)).1
      × Sized capacity (seal_event_admission (with_admission s a))
      × Sized capacity (start_event_dispatch_backpressure_close (with_admission s a))
unfolding begin_event_drain seal_event_admission_if_idle seal_event_admission
    start_event_dispatch_backpressure_close extra all_held under_way
phase_call-Sized capacity open_admission s v = (
  record { counts = v.counts; peaks = v.peaks; bounded = v.bounded },
  if_idle-Sized capacity open_admission s v,
  sealed-Sized capacity open_admission s v,
  overflow-Sized capacity (with_admission s open_admission) v,
)
phase_call-Sized capacity draining s v = (
  v,
  if_idle-Sized capacity draining s v,
  sealed-Sized capacity draining s v,
  overflow-Sized capacity (with_admission s draining) v,
)
phase_call-Sized capacity overflowed s v = (
  v,
  if_idle-Sized capacity overflowed s v,
  sealed-Sized capacity overflowed s v,
  flagged-Sized capacity (with_admission s overflowed) true (s.overload_closes + 1) v,
)
phase_call-Sized capacity sealed s v =
    (v, v, v, flagged-Sized capacity (with_admission s sealed) true (s.overload_closes + 1) v)
phase_call-Sized capacity terminal s v =
    (v, v, v, flagged-Sized capacity (with_admission s terminal) true (s.overload_closes + 1) v)

run_call-Sized :
    (capacity : ℕ) (c : EventCall) (s : EventState)
    → Sized capacity s
    → Sized capacity (run_call capacity c s)
unfolding run_call end_ticket
run_call-Sized capacity (emitting e accepted) s v =
    emit_event-Sized capacity s.admission s e accepted v
run_call-Sized capacity (reserving accepted) s v = reserve-Sized capacity s.admission s accepted v
run_call-Sized capacity ending_ticket s v = ticketed-Sized capacity s (s.tickets - 1) v
run_call-Sized capacity draining_events s v = (phase_call-Sized capacity s.admission s v).0
run_call-Sized capacity sealing_if_idle s v = (phase_call-Sized capacity s.admission s v).1
run_call-Sized capacity sealing s v = (phase_call-Sized capacity s.admission s v).2
run_call-Sized capacity backpressure s v = (phase_call-Sized capacity s.admission s v).3
run_call-Sized capacity closing_spool s v = close-Sized capacity s.admission s v
run_call-Sized capacity (offering_terminal reason) s v = offer_terminal-Sized capacity s reason v
run_call-Sized capacity (offering_batch es) s v = offer_batch-Sized capacity s es v
run_call-Sized capacity (enqueueing k accepted) s v = enqueue-Sized capacity s k accepted v
run_call-Sized capacity (giving_up k remaining) s v = give_up-Sized capacity s k remaining v
run_call-Sized capacity receiving s v = receive-Sized capacity s v
run_call-Sized capacity dispatching s v = dispatched-Sized capacity s v
run_call-Sized capacity dropping_receiver s v = drop_receiver-Sized capacity s v
run_call-Sized capacity losing_event s v = counted-Sized capacity (false, s) v

run_calls-Sized :
    (capacity : ℕ) (cs : List EventCall) (s : EventState)
    → Sized capacity s
    → Sized capacity (run_calls capacity cs s)
unfolding run_calls
run_calls-Sized capacity [] s v = v
run_calls-Sized capacity (c ∷ cs) s v =
    run_calls-Sized capacity cs (run_call capacity c s) (run_call-Sized capacity c s v)

new_events-Sized : (capacity : ℕ) → Sized capacity new_events
unfolding all_held under_way held ordinaries held_by ordinary_by
new_events-Sized capacity = record { counts = refl; peaks = omega arith; bounded = omega arith }

-- Whatever calls follow on the start of a connection: the depth is the permits of the items in the
-- spool, of the item that the dispatcher has taken and of those that tasks offer to the spool, and
-- is at most its peak; of the events that the admission let in at most one more than the capacity
-- are in these items, and at most the capacity while the admission is open.
pub bounded_events :
    (capacity : ℕ) (cs : List EventCall) (s : EventState)
    → run_calls capacity cs new_events ≡ s
    → (s.depth.current ≡ all_held s)
      × (s.depth.current ≤ s.depth.peak)
      × (under_way s ≤ capacity + 1)
      × (s.admission ≡ open_admission → under_way s ≤ capacity)
unfolding extra under_way
bounded_events capacity cs s r = (
  v.counts,
  v.peaks,
  (sealed-Sized capacity s.admission s v).bounded,
  λ e. let b = v.bounded in let z = ap extra e in omega (arith, b, z),
)
  where
    v : Sized capacity s
    v =
        subst (Sized capacity) r
          (run_calls-Sized capacity cs new_events (new_events-Sized capacity))
