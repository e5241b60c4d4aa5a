-- ===== src/Events/Refused.antt =====
-- src/connection.rs: an admission of events that has ended does not begin again, whatever tasks call.
use cmppprotocol.Prelude.{
  Option, some, inl, inr, Bool-cases, get_elem?, ℕ, ◌≡◌, ◌≢◌, refl, sym, ap, ◌∙◌, List, [], ◌∷◌,
  none, Bool, true, false, arith,
}
use cmppprotocol.Error.{Error}
use cmppprotocol.Spool.{
  Event, EventAdmissionState, open_admission, draining, overflowed, sealed, terminal,
  EventSpoolItem, EventState,
}
use cmppprotocol.Events.{
  drop_event, emit_event, reserve_deferred_event, end_ticket, begin_event_drain,
  seal_event_admission_if_idle, seal_event_admission, start_event_dispatch_backpressure_close,
  offer, offer_batch, offer_terminal, enqueue, enqueue_item, give_up_item, give_up, receive,
  dispatched, drop_receiver, close_event_spool, EventCall, offering_terminal, enqueueing, giving_up,
  receiving, dropping_receiver, dispatching, run_call, run_calls, with_admission,
}

-- Events are admitted.
unfoldable pub admits : EventAdmissionState → Bool
admits open_admission = true
admits draining = true
admits overflowed = false
admits sealed = false
admits terminal = false

enqueue_item-admission :
    (s : EventState) (k : ℕ) (o : Option EventSpoolItem) (accepted : Bool)
    → (enqueue_item s k o accepted).admission ≡ s.admission
unfolding enqueue_item
enqueue_item-admission s k (some item) true = refl
enqueue_item-admission s k (some item) false = refl
enqueue_item-admission s k none accepted = refl

give_up_item-admission :
    (s : EventState) (k : ℕ) (o : Option EventSpoolItem) (remaining : ℕ)
    → (give_up_item s k o remaining).admission ≡ s.admission
unfolding give_up_item
give_up_item-admission s k (some item) remaining = refl
give_up_item-admission s k none remaining = refl

offer_terminal-admission :
    (s : EventState) (reason : Option Error) → (offer_terminal s reason).admission ≡ s.admission
unfolding offer_terminal offer
offer_terminal-admission s reason = elim (Bool-cases s.terminal_due) [
  | inl due ↦ rw due refl
  | inr early ↦ rw early refl
]

receive-admission : (s : EventState) → (receive s).admission ≡ s.admission
unfolding receive
receive-admission s = by_item s.taken s.dispatcher_done s.spool
  where
    by_item :
        (o : Option EventSpoolItem) (b : Bool) (l : List EventSpoolItem)
        → (receive (record s { taken = o; dispatcher_done = b; spool = l })).admission ≡ s.admission
    by_item (some item) b l = refl
    by_item none true l = refl
    by_item none false [] = refl
    by_item none false (item ∷ rest) = refl

dispatched-admission : (s : EventState) → (dispatched s).admission ≡ s.admission
unfolding dispatched
dispatched-admission s = by_item s.taken
  where
    by_item :
        (o : Option EventSpoolItem) → (dispatched (record s { taken = o })).admission ≡ s.admission
    by_item (some item) = refl
    by_item none = refl

drop_receiver-admission : (s : EventState) → (drop_receiver s).admission ≡ s.admission
unfolding drop_receiver
drop_receiver-admission s = elim (Bool-cases s.dispatcher_done) [
  | inl y ↦ rw y refl
  | inr n ↦ rw n refl
]

refused-step :
    (capacity : ℕ) (c : EventCall) (a : EventAdmissionState) (s : EventState)
    → admits a ≡ false
    → admits (run_call capacity c (with_admission s a)).admission ≡ false
unfolding admits run_call emit_event reserve_deferred_event end_ticket begin_event_drain
    seal_event_admission_if_idle seal_event_admission start_event_dispatch_backpressure_close
    close_event_spool offer_batch offer enqueue give_up
refused-step capacity c open_admission s h = cc
refused-step capacity c draining s h = cc
refused-step capacity (offering_terminal reason) a s h =
    ap admits (offer_terminal-admission (with_admission s a) reason) ∙ h
refused-step capacity (enqueueing k accepted) a s h =
    ap admits (enqueue_item-admission (with_admission s a) k (get_elem? s.offered k) accepted) ∙ h
refused-step capacity (giving_up k remaining) a s h =
    ap admits (give_up_item-admission (with_admission s a) k (get_elem? s.offered k) remaining) ∙ h
refused-step capacity receiving a s h = ap admits (receive-admission (with_admission s a)) ∙ h
refused-step capacity dispatching a s h = ap admits (dispatched-admission (with_admission s a)) ∙ h
refused-step capacity dropping_receiver a s h =
    ap admits (drop_receiver-admission (with_admission s a)) ∙ h
refused-step capacity c overflowed s h = ground arith
refused-step capacity c sealed s h = ground arith
refused-step capacity c terminal s h = ground arith

run_calls-refused :
    (capacity : ℕ) (cs : List EventCall) (s : EventState)
    → admits s.admission ≡ false
    → admits (run_calls capacity cs s).admission ≡ false
unfolding run_calls
run_calls-refused capacity [] s h = h
run_calls-refused capacity (c ∷ cs) s h =
    run_calls-refused capacity cs (run_call capacity c s) (refused-step capacity c s.admission s h)

emit_refused :
    (capacity : ℕ) (a : EventAdmissionState) (s : EventState) (e : Event) (accepted : Bool)
    → admits a ≡ false
    → (emit_event capacity (with_admission s a) e accepted
        ≡ (false, drop_event (with_admission s a)))
      × ((reserve_deferred_event capacity (with_admission s a) accepted).1 ≡ with_admission s a)
      × ((reserve_deferred_event capacity (with_admission s a) accepted).0 ≢ none)
unfolding admits emit_event reserve_deferred_event
emit_refused capacity open_admission s e accepted h = cc
emit_refused capacity draining s e accepted h = cc
emit_refused capacity overflowed s e accepted h = (refl, refl, λ k. cc)
emit_refused capacity sealed s e accepted h = (refl, refl, λ k. cc)
emit_refused capacity terminal s e accepted h = (refl, refl, λ k. cc)

-- Once the admission of events has overflowed or is sealed or terminal, and whatever calls follow,
-- an event is not sent and is counted as dropped, which is all that changes, and a reservation
-- gives no ticket and changes nothing.
pub refused_events :
    (capacity : ℕ) (cs : List EventCall) (s t : EventState) (e : Event) (accepted : Bool)
    → admits s.admission ≡ false
    → run_calls capacity cs s ≡ t
    → (emit_event capacity t e accepted ≡ (false, drop_event t))
      × ((reserve_deferred_event capacity t accepted).1 ≡ t)
      × ((reserve_deferred_event capacity t accepted).0 ≢ none)
refused_events capacity cs s t e accepted h r =
    emit_refused capacity t.admission t e accepted
      (ap (λ (u : EventState). admits u.admission) (sym r) ∙ run_calls-refused capacity cs s h)
