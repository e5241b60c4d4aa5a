-- ===== src/Events/Keeps.antt =====
-- src/connection.rs: the depth of the spool, kept by each operation of the admission and of the dispatcher.
use cmppprotocol.Prelude.{
  ℕ, ◌+◌, ◌-◌, ◌≡◌, inl, inr, refl, Bool, true, false, ltb, arith, Bool-cases, ltb→lt,
}
use cmppprotocol.Events.Depth.{
  all_held, under_way, ordinary, extra, extra-le, Sized, overflow-Sized, within-Sized, beyond-Sized,
}
use cmppprotocol.Spool.{
  Event, direct, deferred, EventAdmissionState, open_admission, draining, overflowed, sealed,
  terminal, EventState,
}
use cmppprotocol.Events.{
  overflow, emit_open, emit_event, make_event_ticket, reserve_open, reserve_deferred_event,
  close_event_spool, counted, with_admission,
}

emit_open-Sized :
    (capacity : ℕ) (s : EventState) (e : Event) (accepted : Bool)
    → extra s.admission ≡ 0
    → Sized capacity s
    → Sized capacity (emit_open capacity s e accepted).1
unfolding emit_open ordinary
emit_open-Sized capacity s e true z v = elim (Bool-cases (ltb s.depth.current capacity)) [
  | inl lt ↦ rw lt (within-Sized capacity s (direct e) true (ltb→lt _ capacity lt) refl v)
  | inr full ↦ rw full (beyond-Sized capacity s (direct e) true z refl v)
]
emit_open-Sized capacity s e false z v = elim (Bool-cases (ltb s.depth.current capacity)) [
  | inl lt ↦
      let kept = within-Sized capacity s (direct e) false (ltb→lt _ capacity lt) refl v in
      rw lt (overflow-Sized capacity _ kept)
  | inr full ↦ rw full (beyond-Sized capacity s (direct e) false z refl v)
]

pub ticketed-Sized :
    (capacity : ℕ) (s : EventState) (n : ℕ)
    → Sized capacity s
    → Sized capacity (record s { tickets = n })
unfolding all_held under_way
ticketed-Sized capacity s n v = record { counts = v.counts; peaks = v.peaks; bounded = v.bounded }

reserve_open-Sized :
    (capacity : ℕ) (s : EventState) (accepted : Bool)
    → extra s.admission ≡ 0
    → Sized capacity s
    → Sized capacity (reserve_open capacity s accepted).1
unfolding reserve_open make_event_ticket ordinary overflow
reserve_open-Sized capacity s true z v = elim (Bool-cases (ltb s.depth.current capacity)) [
  | inl lt ↦
      let kept = within-Sized capacity s deferred true (ltb→lt _ capacity lt) refl v in
      rw lt (ticketed-Sized capacity _ (s.tickets + 1) kept)
  | inr full ↦
      let kept = beyond-Sized capacity s deferred true z refl v in
      rw full (ticketed-Sized capacity _ (s.tickets + 1) kept)
]
reserve_open-Sized capacity s false z v = elim (Bool-cases (ltb s.depth.current capacity)) [
  | inl lt ↦
      let kept = within-Sized capacity s deferred false (ltb→lt _ capacity lt) refl v in
      rw lt (ticketed-Sized capacity _ (s.tickets + 1 - 1) (overflow-Sized capacity _ kept))
  | inr full ↦
      let kept = beyond-Sized capacity s deferred false z refl v in
      rw full (ticketed-Sized capacity _ (s.tickets + 1 - 1) kept)
]

pub counted-Sized :
    (capacity : ℕ) (r : Bool × EventState) → Sized capacity r.1 → Sized capacity (counted r).1
unfolding all_held under_way
counted-Sized capacity (true, s) v = v
counted-Sized capacity (false, s) v = record {
  counts = v.counts;
  peaks = v.peaks;
  bounded = v.bounded;
}

pub close-Sized :
    (capacity : ℕ) (a : EventAdmissionState) (s : EventState)
    → Sized capacity (with_admission s a)
    → Sized capacity (close_event_spool (with_admission s a))
unfolding close_event_spool extra all_held under_way
close-Sized capacity terminal s v = v
close-Sized capacity open_admission s v = record {
  counts = v.counts;
  peaks = v.peaks;
  bounded = omega (arith, v.bounded);
}
close-Sized capacity draining s v = record {
  counts = v.counts;
  peaks = v.peaks;
  bounded = omega (arith, v.bounded);
}
close-Sized capacity a s v = record { counts = v.counts; peaks = v.peaks; bounded = v.bounded }

pub emit_event-Sized :
    (capacity : ℕ) (a : EventAdmissionState) (s : EventState) (e : Event) (accepted : Bool)
    → Sized capacity (with_admission s a)
    → Sized capacity (emit_event capacity (with_admission s a) e accepted).1
unfolding emit_event extra
emit_event-Sized capacity open_admission s e accepted v =
    counted-Sized capacity (emit_open capacity (with_admission s open_admission) e accepted)
      (emit_open-Sized capacity (with_admission s open_admission) e accepted refl v)
emit_event-Sized capacity draining s e accepted v =
    counted-Sized capacity (emit_open capacity (with_admission s draining) e accepted)
      (emit_open-Sized capacity (with_admission s draining) e accepted refl v)
emit_event-Sized capacity a s e accepted v = counted-Sized capacity (false, with_admission s a) v

pub reserve-Sized :
    (capacity : ℕ) (a : EventAdmissionState) (s : EventState) (accepted : Bool)
    → Sized capacity (with_admission s a)
    → Sized capacity (reserve_deferred_event capacity (with_admission s a) accepted).1
unfolding reserve_deferred_event extra
reserve-Sized capacity open_admission s accepted v =
    reserve_open-Sized capacity (with_admission s open_admission) accepted refl v
reserve-Sized capacity draining s accepted v =
    reserve_open-Sized capacity (with_admission s draining) accepted refl v
reserve-Sized capacity overflowed s accepted v = v
reserve-Sized capacity sealed s accepted v = v
reserve-Sized capacity terminal s accepted v = v

pub sealed-Sized :
    (capacity : ℕ) (a : EventAdmissionState) (s : EventState)
    → Sized capacity (with_admission s a)
    → Sized capacity (with_admission s sealed)
unfolding extra all_held under_way
sealed-Sized capacity a s v = record {
  counts = v.counts;
  peaks = v.peaks;
  bounded = omega (arith, v.bounded, extra-le a);
}

pub flagged-Sized :
    (capacity : ℕ) (s : EventState) (b : Bool) (n : ℕ)
    → Sized capacity s
    → Sized capacity (record s { event_overflowed = b; overload_closes = n })
unfolding all_held under_way
flagged-Sized capacity s b n v = record { counts = v.counts; peaks = v.peaks; bounded = v.bounded }
