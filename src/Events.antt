-- ===== src/Events.antt =====
-- src/connection.rs: the admission of events to the spool, `emit_event`, `reserve_deferred_event`, the drain and the
-- seal, `close_event_spool`, and the dispatcher's end of the spool. What runs under the lock of `event_admission` is
-- one step. Whether the channel of tokio takes an item is the answer of its `try_send`, an argument. The
-- depth is an atomic that other tasks change without the lock; such a change counts before or behind the step.
pub mod Depth
pub mod Offers
pub mod Keeps
pub mod Bounded
pub mod Refused
use cmppprotocol.Prelude.{
  ℕ, zero, suc, ◌+◌, ◌-◌, max, List, [], ◌∷◌, ◌++◌, Option, none, some, Bool, true, false,
  if◌then◌else◌, ltb, ◌==◌, length, get_elem?,
}
use cmppprotocol.Error.{Error}
use cmppprotocol.Pdu.Deliver.{Deliver}
use cmppprotocol.Spool.{
  Event, submit_resp, submit_timeout, submit_dropped, deliver, disconnected, EventSpoolItem, direct,
  batch, deferred, terminal_item, EventAdmissionState, open_admission, draining, overflowed, sealed,
  terminal, EventReservationError, reservation_overflowed, reservation_closed, EventDepth,
  EventState, new_permits, drop_permits, permits, held, try_send,
}

-- The admission overflows, and a bounded close begins.
unfoldable pub overflow : EventState → EventState
overflow s = record s {
  admission = overflowed;
  event_overflowed = true;
  overload_closes = s.overload_closes + 1;
}

abbrev pub drop_event : EventState → EventState
drop_event s = record s { events_dropped = s.events_dropped + 1 }

-- An event that was sent, or is counted as dropped.
abbrev pub counted : Bool × EventState → Bool × EventState
counted (true, s) = (true, s)
counted (false, s) = (false, drop_event s)

-- The attempt to send while the admission is open.
unfoldable pub emit_open : ℕ → EventState → Event → Bool → Bool × EventState
emit_open capacity s e accepted =
    if ltb s.depth.current capacity
    then (if accepted
        then (true, try_send s (direct e) true)
        else (false, overflow (try_send s (direct e) false)))
    else (accepted, overflow (try_send s (direct e) accepted))

unfoldable pub emit_event : ℕ → EventState → Event → Bool → Bool × EventState
emit_event capacity s e accepted = elim s.admission [
  | open_admission ↦ counted (emit_open capacity s e accepted)
  | draining ↦ counted (emit_open capacity s e accepted)
  | _ ↦ counted (false, s)
]

-- `make_event_ticket`: the ticket is tracked from its making on, and not any more if the channel refuses its item.
unfoldable pub make_event_ticket : EventState → Bool → Bool × EventState
make_event_ticket s true = (true, record (try_send s deferred true) { tickets = s.tickets + 1 })
make_event_ticket s false =
    (false, record (try_send s deferred false) { tickets = s.tickets + 1 - 1 })

-- None is the ticket, some an error.
unfoldable pub reserve_open : ℕ → EventState → Bool → Option EventReservationError × EventState
reserve_open capacity s accepted =
    if ltb s.depth.current capacity
    then (if (make_event_ticket s accepted).0
        then (none, (make_event_ticket s accepted).1)
        else (some reservation_overflowed, overflow (make_event_ticket s accepted).1))
    else (
      if (make_event_ticket s accepted).0 then none else some reservation_overflowed,
      overflow (make_event_ticket s accepted).1,
    )

unfoldable pub reserve_deferred_event :
    ℕ → EventState → Bool → Option EventReservationError × EventState
reserve_deferred_event capacity s accepted = elim s.admission [
  | open_admission ↦ reserve_open capacity s accepted
  | draining ↦ reserve_open capacity s accepted
  | overflowed ↦ (some reservation_overflowed, s)
  | sealed ↦ (some reservation_closed, s)
  | terminal ↦ (some reservation_closed, s)
]

-- A ticket is published or given up: `impl Drop for EventTicketGuard`.
unfoldable pub end_ticket : EventState → EventState
end_ticket s = record s { tickets = s.tickets - 1 }

unfoldable pub begin_event_drain : EventState → EventState
begin_event_drain s = elim s.admission [
  | open_admission ↦ record s { admission = draining }
  | _ ↦ s
]

unfoldable pub seal_event_admission_if_idle : EventState → Bool × EventState
seal_event_admission_if_idle s = elim s.admission [
  | sealed ↦ (true, s)
  | terminal ↦ (true, s)
  | _ ↦ if s.tickets == 0 then (true, record s { admission = sealed }) else (false, s)
]

unfoldable pub seal_event_admission : EventState → EventState
seal_event_admission s = elim s.admission [ terminal ↦ s | _ ↦ record s { admission = sealed } ]

unfoldable pub start_event_dispatch_backpressure_close : EventState → EventState
start_event_dispatch_backpressure_close s = elim s.admission [
  | open_admission ↦ overflow s
  | draining ↦ overflow s
  | _ ↦ record s { event_overflowed = true; overload_closes = s.overload_closes + 1 }
]

-- What runs under the lock; the terminal item is made behind it.
unfoldable pub close_event_spool : EventState → EventState
close_event_spool s = elim s.admission [
  | terminal ↦ s
  | _ ↦ record s { admission = terminal; terminal_due = true }
]

-- An item is made with its permits, and is kept until the spool takes it or it is given up.
unfoldable pub offer : EventState → EventSpoolItem → EventState
offer s item = record s { offered = item ∷ s.offered; depth = new_permits (permits item) s.depth }

-- The terminal item of `close_event_spool`.
unfoldable pub offer_terminal : EventState → Option Error → EventState
offer_terminal s reason =
    if s.terminal_due then offer (record s { terminal_due = false }) (terminal_item reason) else s

-- A batch of `fail_all_pending`, which passes by the admission.
unfoldable pub offer_batch : EventState → List Event → EventState
offer_batch s es = offer s (batch es)

abbrev pub without {ℓ} : {A : Type ℓ} → List A → ℕ → List A
without [] k = []
without (x ∷ xs) zero = xs
without (x ∷ xs) (suc k) = x ∷ without xs k

-- `try_send` of an offered item: the spool takes it, or is full and gives it back for the next try.
unfoldable pub enqueue_item : EventState → ℕ → Option EventSpoolItem → Bool → EventState
enqueue_item s k (some item) true = record s {
  spool = s.spool ++ (item ∷ []);
  offered = without s.offered k;
}
enqueue_item s k _ _ = s

unfoldable pub enqueue : EventState → ℕ → Bool → EventState
enqueue s k accepted = enqueue_item s k (get_elem? s.offered k) accepted

-- The events of a batch count as dropped; a terminal item is none.
unfoldable pub lost_events : EventSpoolItem → ℕ
lost_events (batch es) = length es
lost_events _ = 0

-- An offered item is given up, when the time of the retries is over or the channel is closed: its permits are
-- dropped. `remaining` are the events of the batches that a closed channel leaves unmade.
unfoldable pub give_up_item : EventState → ℕ → Option EventSpoolItem → ℕ → EventState
give_up_item s k none remaining = s
give_up_item s k (some item) remaining = record s {
  offered = without s.offered k;
  depth = drop_permits (permits item) s.depth;
  events_dropped = s.events_dropped + lost_events item + remaining;
}

unfoldable pub give_up : EventState → ℕ → ℕ → EventState
give_up s k remaining = give_up_item s k (get_elem? s.offered k) remaining

-- `recv` of the dispatcher, between two items.
unfoldable pub receive : EventState → EventState
receive s = elim s.taken [
  | some item ↦ s
  | none ↦
      if s.dispatcher_done
      then s
      else (elim s.spool [ [] ↦ s | item ∷ rest ↦ record s { spool = rest; taken = some item } ])
]

unfoldable pub ends_dispatch : EventSpoolItem → Bool
ends_dispatch (terminal_item reason) = true
ends_dispatch _ = false

-- The dispatcher is done with its item and drops the permits; the terminal item ends its loop. Before that it
-- forwards the events of the item, and counts those that the receiver does not get by `drop_event`.
unfoldable pub dispatched : EventState → EventState
dispatched s = elim s.taken [
  | none ↦ s
  | some item ↦ record s {
    taken = none;
    depth = drop_permits (permits item) s.depth;
    dispatcher_done = ends_dispatch item;
  }
]

-- The loop has ended, and the receiver is dropped with what the spool holds.
unfoldable pub drop_receiver : EventState → EventState
drop_receiver s =
    if s.dispatcher_done
    then record s { spool = []; depth = drop_permits (held s.spool) s.depth }
    else s

-- The operations on the events of a connection, with the answers of the channel.
pub data EventCall : Type 0 where
  emitting : Event → Bool → EventCall
  reserving : Bool → EventCall
  ending_ticket : EventCall
  draining_events : EventCall
  sealing_if_idle : EventCall
  sealing : EventCall
  backpressure : EventCall
  closing_spool : EventCall
  offering_terminal : Option Error → EventCall
  offering_batch : List Event → EventCall
  enqueueing : ℕ → Bool → EventCall
  giving_up : ℕ → ℕ → EventCall
  receiving : EventCall
  dispatching : EventCall
  dropping_receiver : EventCall
  losing_event : EventCall

unfoldable pub run_call : ℕ → EventCall → EventState → EventState
run_call capacity (emitting e accepted) s = (emit_event capacity s e accepted).1
run_call capacity (reserving accepted) s = (reserve_deferred_event capacity s accepted).1
run_call capacity ending_ticket s = end_ticket s
run_call capacity draining_events s = begin_event_drain s
run_call capacity sealing_if_idle s = (seal_event_admission_if_idle s).1
run_call capacity sealing s = seal_event_admission s
run_call capacity backpressure s = start_event_dispatch_backpressure_close s
run_call capacity closing_spool s = close_event_spool s
run_call capacity (offering_terminal reason) s = offer_terminal s reason
run_call capacity (offering_batch es) s = offer_batch s es
run_call capacity (enqueueing k accepted) s = enqueue s k accepted
run_call capacity (giving_up k remaining) s = give_up s k remaining
run_call capacity receiving s = receive s
run_call capacity dispatching s = dispatched s
run_call capacity dropping_receiver s = drop_receiver s
run_call capacity losing_event s = drop_event s

-- Calls of any tasks, in the order in which they got the lock.
unfoldable pub run_calls : ℕ → List EventCall → EventState → EventState
run_calls capacity [] s = s
run_calls capacity (c ∷ cs) s = run_calls capacity cs (run_call capacity c s)

abbrev pub new_events : EventState
new_events = record {
  admission = open_admission;
  event_overflowed = false;
  spool = [];
  taken = none;
  offered = [];
  terminal_due = false;
  dispatcher_done = false;
  depth = record { current = 0; peak = 0 };
  tickets = 0;
  events_dropped = 0;
  overload_closes = 0;
}

abbrev pub with_admission : EventState → EventAdmissionState → EventState
with_admission s a = record s { admission = a }
