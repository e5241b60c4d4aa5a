-- ===== src/Events/Depth.antt =====
-- src/connection.rs: the depth of the events in the spool, and of the events that the admission let in.
use cmppprotocol.Prelude.{
  ap, zero, suc, Option, none, some, get_elem?, ℕ, ◌+◌, ◌≤◌, ◌<◌, ◌≡◌, List, [], ◌∷◌, ◌++◌, Bool,
  true, false, arith,
}
use cmppprotocol.Spool.{
  held, EventSpoolItem, direct, batch, deferred, terminal_item, EventAdmissionState, open_admission,
  draining, overflowed, sealed, terminal, EventState, new_permits, drop_permits, permits, try_send,
}
use cmppprotocol.Events.{without, overflow}

-- 1 for an item that the admission let in.
unfoldable pub ordinary : EventSpoolItem → ℕ
ordinary (direct e) = 1
ordinary (batch es) = 0
ordinary deferred = 1
ordinary (terminal_item reason) = 0

unfoldable pub ordinaries : List EventSpoolItem → ℕ
ordinaries [] = 0
ordinaries (item ∷ rest) = ordinary item + ordinaries rest

-- An item that may be there.
unfoldable pub held_by : Option EventSpoolItem → ℕ
held_by none = 0
held_by (some item) = permits item

unfoldable pub ordinary_by : Option EventSpoolItem → ℕ
ordinary_by none = 0
ordinary_by (some item) = ordinary item

-- The events of the items in the spool, of the dispatcher's item and of those that are offered to the spool.
unfoldable pub all_held : EventState → ℕ
all_held s = held s.spool + held_by s.taken + held s.offered

-- Of the events that the admission let in, those that have not left the dispatcher.
unfoldable pub under_way : EventState → ℕ
under_way s = ordinaries s.spool + ordinary_by s.taken + ordinaries s.offered

some_same : (x y : EventSpoolItem) → some x ≡ some y → x ≡ y
some_same x y h = cc

pub held-without :
    (l : List EventSpoolItem) (k : ℕ) (item : EventSpoolItem)
    → get_elem? l k ≡ some item
    → held l ≡ held (without l k) + permits item
unfolding held
held-without [] k item h = cc
held-without (x ∷ xs) zero item h = omega (arith, ap permits (some_same x item h))
held-without (x ∷ xs) (suc k) item h = omega (arith, held-without xs k item h)

pub ordinaries-without :
    (l : List EventSpoolItem) (k : ℕ) (item : EventSpoolItem)
    → get_elem? l k ≡ some item
    → ordinaries l ≡ ordinaries (without l k) + ordinary item
unfolding ordinaries
ordinaries-without [] k item h = cc
ordinaries-without (x ∷ xs) zero item h = omega (arith, ap ordinary (some_same x item h))
ordinaries-without (x ∷ xs) (suc k) item h = omega (arith, ordinaries-without xs k item h)

pub held-append :
    (l : List EventSpoolItem) (item : EventSpoolItem)
    → held (l ++ (item ∷ [])) ≡ held l + permits item
unfolding held
held-append [] item = omega arith
held-append (x ∷ xs) item = omega (arith, held-append xs item)

pub ordinaries-append :
    (l : List EventSpoolItem) (item : EventSpoolItem)
    → ordinaries (l ++ (item ∷ [])) ≡ ordinaries l + ordinary item
unfolding ordinaries
ordinaries-append [] item = omega arith
ordinaries-append (x ∷ xs) item = omega (arith, ordinaries-append xs item)

ordinary-le : (item : EventSpoolItem) → ordinary item ≤ permits item
unfolding ordinary permits
ordinary-le (direct e) = omega arith
ordinary-le (batch es) = omega arith
ordinary-le deferred = omega arith
ordinary-le (terminal_item reason) = omega arith

ordinaries-le : (l : List EventSpoolItem) → ordinaries l ≤ held l
unfolding ordinaries held
ordinaries-le [] = omega arith
ordinaries-le (x ∷ xs) = omega (arith, ordinary-le x, ordinaries-le xs)

ordinary_by-le : (o : Option EventSpoolItem) → ordinary_by o ≤ held_by o
unfolding ordinary_by held_by
ordinary_by-le none = omega arith
ordinary_by-le (some item) = ordinary-le item

under_way-le : (s : EventState) → under_way s ≤ all_held s
unfolding under_way all_held
under_way-le s =
    omega (arith, ordinaries-le s.spool, ordinary_by-le s.taken, ordinaries-le s.offered)

-- One event may go in beyond the capacity, with which the admission overflows.
unfoldable pub extra : EventAdmissionState → ℕ
extra open_admission = 0
extra draining = 0
extra overflowed = 1
extra sealed = 1
extra terminal = 1

pub record Sized (capacity : ℕ) (s : EventState) : Type 0 where
  pub counts : s.depth.current ≡ all_held s
  pub peaks : s.depth.current ≤ s.depth.peak
  pub bounded : under_way s ≤ capacity + extra s.admission

-- The item sent, whatever the channel answers, when there is room for it in the bound.
pub sent-Sized :
    (capacity : ℕ) (s : EventState) (item : EventSpoolItem) (accepted : Bool)
    → Sized capacity s
    → under_way s + ordinary item ≤ capacity + extra s.admission
    → Sized capacity (try_send s item accepted)
unfolding try_send new_permits drop_permits under_way all_held
sent-Sized capacity s item true v room = record {
  counts = omega (arith, v.counts, held-append s.spool item);
  peaks = ground arith;
  bounded = omega (arith, ordinaries-append s.spool item, room);
}
sent-Sized capacity s item false v room = record {
  counts = omega (arith, v.counts);
  peaks = ground (arith, v.peaks);
  bounded = v.bounded;
}

-- A change of the admission that does not lower the bound.
moved-Sized :
    (capacity : ℕ) (s : EventState) (b : Bool) (tickets dropped closes : ℕ)
    (a : EventAdmissionState)
    → Sized capacity s
    → extra s.admission ≤ extra a
    → Sized capacity (record s {
      admission = a;
      event_overflowed = b;
      tickets = tickets;
      events_dropped = dropped;
      overload_closes = closes;
    })
unfolding under_way all_held
moved-Sized capacity s b tickets dropped closes a v le = record {
  counts = v.counts;
  peaks = v.peaks;
  bounded = omega (arith, v.bounded, le);
}

pub extra-le : (a : EventAdmissionState) → extra a ≤ 1
unfolding extra
extra-le open_admission = omega arith
extra-le draining = omega arith
extra-le overflowed = omega arith
extra-le sealed = omega arith
extra-le terminal = omega arith

pub overflow-Sized :
    (capacity : ℕ) (s : EventState) → Sized capacity s → Sized capacity (overflow s)
unfolding overflow extra
overflow-Sized capacity s v =
    moved-Sized capacity s true s.tickets s.events_dropped (s.overload_closes + 1) overflowed v
      (extra-le s.admission)

-- An item sent within the capacity.
pub within-Sized :
    (capacity : ℕ) (s : EventState) (item : EventSpoolItem) (accepted : Bool)
    → s.depth.current < capacity
    → ordinary item ≡ 1
    → Sized capacity s
    → Sized capacity (try_send s item accepted)
within-Sized capacity s item accepted lt one v =
    sent-Sized capacity s item accepted v (omega (arith, v.counts, under_way-le s, lt, one))

-- An item sent beyond it, with which the admission overflows.
pub beyond-Sized :
    (capacity : ℕ) (s : EventState) (item : EventSpoolItem) (accepted : Bool)
    → extra s.admission ≡ 0
    → ordinary item ≡ 1
    → Sized capacity s
    → Sized capacity (overflow (try_send s item accepted))
unfolding overflow try_send extra under_way all_held
beyond-Sized capacity s item true z one v =
    sent-Sized capacity (overflow s) item true (overflow-Sized capacity s v)
      (omega (arith, v.bounded, z, one))
beyond-Sized capacity s item false z one v =
    sent-Sized capacity (overflow s) item false (overflow-Sized capacity s v)
      (omega (arith, v.bounded, z, one))
