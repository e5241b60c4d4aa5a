-- ===== src/Spool.antt =====
-- src/connection.rs: events and the items of the spool, the depth with its permits, and the state that the tasks share
-- of them.
use cmppprotocol.Prelude.{
  ℕ, ◌+◌, ◌-◌, max, List, [], ◌∷◌, ◌++◌, Option, Bool, true, false, if◌then◌else◌, ltb, length,
}
use cmppprotocol.Error.{Error}
use cmppprotocol.Pdu.Deliver.{Deliver}

pub data Event : Type 0 where
  submit_resp : ℕ → List ℕ → ℕ → Event
  submit_timeout : ℕ → ℕ → Event
  submit_dropped : ℕ → Event
  deliver : Deliver → Event
  disconnected : Error → Event

-- An item holds a permit of the depth: a batch one for each of its events, the others one.
pub data EventSpoolItem : Type 0 where
  direct : Event → EventSpoolItem
  batch : List Event → EventSpoolItem
  deferred : EventSpoolItem
  terminal_item : Option Error → EventSpoolItem

pub data EventAdmissionState : Type 0 where
  open_admission draining overflowed sealed terminal : EventAdmissionState

pub data EventReservationError : Type 0 where
  reservation_overflowed reservation_closed : EventReservationError

pub record EventDepth : Type 0 where
  pub current : ℕ
  pub peak : ℕ

-- The spool has its oldest item first. `taken` is the item that the dispatcher forwards, `offered` are the items that
-- tasks keep while the spool is full, `terminal_due` says that a task has set the terminal admission and has yet to
-- make its item, `dispatcher_done` that the dispatcher has left its loop. `tickets` are the deferred events that
-- wait to be published, and `overload_closes` counts the calls of `start_event_overload_close`.
pub record EventState : Type 0 where
  pub admission : EventAdmissionState
  pub event_overflowed : Bool
  pub spool : List EventSpoolItem
  pub taken : Option EventSpoolItem
  pub offered : List EventSpoolItem
  pub terminal_due : Bool
  pub dispatcher_done : Bool
  pub depth : EventDepth
  pub tickets : ℕ
  pub events_dropped : ℕ
  pub overload_closes : ℕ

-- `EventDepthPermit::new_n`. The count and its peak are two atomics, changed one behind the other: one step here.
unfoldable pub new_permits : ℕ → EventDepth → EventDepth
new_permits count d = record {
  current = d.current + count;
  peak = if ltb d.peak (d.current + count) then max d.peak (d.current + count) else d.peak;
}

-- `impl Drop for EventDepthPermit`
unfoldable pub drop_permits : ℕ → EventDepth → EventDepth
drop_permits count d = record d { current = d.current - count }

unfoldable pub permits : EventSpoolItem → ℕ
permits (direct e) = 1
permits (batch es) = length es
permits deferred = 1
permits (terminal_item reason) = 1

-- The permits of all the items.
unfoldable pub held : List EventSpoolItem → ℕ
held [] = 0
held (item ∷ rest) = permits item + held rest

-- Under the lock of the admission an item takes its permits and goes to the channel, which takes it or gives it
-- back, and then it is dropped.
unfoldable pub try_send : EventState → EventSpoolItem → Bool → EventState
try_send s item true = record s {
  spool = s.spool ++ (item ∷ []);
  depth = new_permits (permits item) s.depth;
}
try_send s item false = record s {
  depth = drop_permits (permits item) (new_permits (permits item) s.depth);
}
