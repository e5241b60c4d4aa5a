-- ===== src/Events/Offers.antt =====
-- src/connection.rs: the depth, kept by the items that tasks offer to a full spool and by the dispatcher.
use cmppprotocol.Prelude.{
  ◌++◌, none, some, get_elem?, ℕ, ◌+◌, ◌≤◌, ◌≡◌, inl, inr, refl, List, [], ◌∷◌, Option, Bool, true,
  false, arith, Bool-cases,
}
use cmppprotocol.Error.{Error}
use cmppprotocol.Events.Depth.{
  held_by, ordinary_by, all_held, under_way, held-without, ordinaries-without, held-append,
  ordinaries-append, ordinary, ordinaries, extra, Sized,
}
use cmppprotocol.Spool.{
  Event, EventSpoolItem, batch, terminal_item, EventState, drop_permits, held, permits, new_permits,
}
use cmppprotocol.Events.{
  offer, offer_batch, offer_terminal, without, enqueue, enqueue_item, give_up_item, give_up,
  lost_events, receive, dispatched, drop_receiver,
}

bits-Sized :
    (capacity : ℕ) (s : EventState) (due done : Bool)
    → Sized capacity s
    → Sized capacity (record s { terminal_due = due; dispatcher_done = done })
unfolding all_held under_way
bits-Sized capacity s due done v = record {
  counts = v.counts;
  peaks = v.peaks;
  bounded = v.bounded;
}

offer-Sized :
    (capacity : ℕ) (s : EventState) (item : EventSpoolItem)
    → ordinary item ≡ 0
    → Sized capacity s
    → Sized capacity (offer s item)
unfolding offer new_permits all_held under_way held ordinaries
offer-Sized capacity s item z v = record {
  counts = omega (arith, v.counts);
  peaks = ground arith;
  bounded = omega (arith, v.bounded, z);
}

pub offer_batch-Sized :
    (capacity : ℕ) (s : EventState) (es : List Event)
    → Sized capacity s
    → Sized capacity (offer_batch s es)
unfolding offer_batch ordinary
offer_batch-Sized capacity s es v = offer-Sized capacity s (batch es) refl v

pub offer_terminal-Sized :
    (capacity : ℕ) (s : EventState) (reason : Option Error)
    → Sized capacity s
    → Sized capacity (offer_terminal s reason)
unfolding offer_terminal ordinary
offer_terminal-Sized capacity s reason v = elim (Bool-cases s.terminal_due) [
  | inl due ↦ rw due (
      offer-Sized capacity (record s { terminal_due = false }) (terminal_item reason) refl
        (bits-Sized capacity s false s.dispatcher_done v))
  | inr early ↦ rw early (bits-Sized capacity s false s.dispatcher_done v)
]

enqueued-Sized :
    (capacity : ℕ) (s : EventState) (k : ℕ) (item : EventSpoolItem)
    → get_elem? s.offered k ≡ some item
    → Sized capacity s
    → Sized capacity (record s { spool = s.spool ++ (item ∷ []); offered = without s.offered k })
unfolding all_held under_way
enqueued-Sized capacity s k item e v = record {
  counts = omega (arith, v.counts, held-append s.spool item, held-without s.offered k item e);
  peaks = v.peaks;
  bounded =
      omega
        (arith, v.bounded, ordinaries-append s.spool item, ordinaries-without s.offered k item e);
}

given_up-Sized :
    (capacity : ℕ) (s : EventState) (k n : ℕ) (item : EventSpoolItem)
    → get_elem? s.offered k ≡ some item
    → Sized capacity s
    → Sized capacity (record s {
      offered = without s.offered k;
      depth = drop_permits (permits item) s.depth;
      events_dropped = n;
    })
unfolding all_held under_way drop_permits
given_up-Sized capacity s k n item e v = record {
  counts = omega (arith, v.counts, held-without s.offered k item e);
  peaks = omega (arith, v.peaks);
  bounded = omega (arith, v.bounded, ordinaries-without s.offered k item e);
}

enqueue_item-Sized :
    (capacity : ℕ) (s : EventState) (k : ℕ) (o : Option EventSpoolItem) (accepted : Bool)
    → get_elem? s.offered k ≡ o
    → Sized capacity s
    → Sized capacity (enqueue_item s k o accepted)
unfolding enqueue_item
enqueue_item-Sized capacity s k (some item) true e v = enqueued-Sized capacity s k item e v
enqueue_item-Sized capacity s k (some item) false e v = v
enqueue_item-Sized capacity s k none accepted e v = v

pub enqueue-Sized :
    (capacity : ℕ) (s : EventState) (k : ℕ) (accepted : Bool)
    → Sized capacity s
    → Sized capacity (enqueue s k accepted)
unfolding enqueue
enqueue-Sized capacity s k accepted v =
    enqueue_item-Sized capacity s k (get_elem? s.offered k) accepted refl v

give_up_item-Sized :
    (capacity : ℕ) (s : EventState) (k : ℕ) (o : Option EventSpoolItem) (remaining : ℕ)
    → get_elem? s.offered k ≡ o
    → Sized capacity s
    → Sized capacity (give_up_item s k o remaining)
unfolding give_up_item
give_up_item-Sized capacity s k (some item) remaining e v =
    given_up-Sized capacity s k (s.events_dropped + lost_events item + remaining) item e v
give_up_item-Sized capacity s k none remaining e v = v

pub give_up-Sized :
    (capacity : ℕ) (s : EventState) (k remaining : ℕ)
    → Sized capacity s
    → Sized capacity (give_up s k remaining)
unfolding give_up
give_up-Sized capacity s k remaining v =
    give_up_item-Sized capacity s k (get_elem? s.offered k) remaining refl v

pub receive-Sized : (capacity : ℕ) (s : EventState) → Sized capacity s → Sized capacity (receive s)
unfolding receive all_held under_way held ordinaries held_by ordinary_by
receive-Sized capacity s v = by_item s.taken s.dispatcher_done s.spool v.counts v.bounded
  where
    by_item :
        (o : Option EventSpoolItem) (b : Bool) (l : List EventSpoolItem)
        → s.depth.current ≡ all_held (record s { taken = o; dispatcher_done = b; spool = l })
        → under_way (record s { taken = o; dispatcher_done = b; spool = l })
          ≤ capacity + extra s.admission
        → Sized capacity (receive (record s { taken = o; dispatcher_done = b; spool = l }))
    by_item (some item) b l c u = record { counts = c; peaks = v.peaks; bounded = u }
    by_item none true l c u = record { counts = c; peaks = v.peaks; bounded = u }
    by_item none false [] c u = record { counts = c; peaks = v.peaks; bounded = u }
    by_item none false (item ∷ rest) c u = record {
      counts = omega (arith, c);
      peaks = v.peaks;
      bounded = omega (arith, u);
    }

pub dispatched-Sized :
    (capacity : ℕ) (s : EventState) → Sized capacity s → Sized capacity (dispatched s)
unfolding dispatched drop_permits all_held under_way held_by ordinary_by
dispatched-Sized capacity s v = by_item s.taken v.counts v.bounded
  where
    by_item :
        (o : Option EventSpoolItem)
        → s.depth.current ≡ all_held (record s { taken = o })
        → under_way (record s { taken = o }) ≤ capacity + extra s.admission
        → Sized capacity (dispatched (record s { taken = o }))
    by_item none c u = record { counts = c; peaks = v.peaks; bounded = u }
    by_item (some item) c u = record {
      counts = omega (arith, c);
      peaks = omega (arith, v.peaks);
      bounded = omega (arith, u);
    }

pub drop_receiver-Sized :
    (capacity : ℕ) (s : EventState) → Sized capacity s → Sized capacity (drop_receiver s)
unfolding drop_receiver drop_permits all_held under_way held ordinaries
drop_receiver-Sized capacity s v = elim (Bool-cases s.dispatcher_done) [
  | inl y ↦ rw y (record {
    counts = omega (arith, v.counts);
    peaks = omega (arith, v.peaks);
    bounded = omega (arith, v.bounded);
  })
  | inr n ↦ rw n (bits-Sized capacity s s.terminal_due false v)
]
