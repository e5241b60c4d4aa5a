-- ===== src/Lifecycle.antt =====
-- src/connection.rs: a SUBMIT of one connection from its admission in `send_submit` to the event that ends it. What
-- runs under one lock is one step: the commit of `send_submit`, the writer's, the reader's and the timeout task's
-- operations on one entry, the changes of the phase, and the end of all entries in `fail_all_pending`.
pub mod Counts
pub mod Ledger
pub mod Balance
pub mod Settled
pub mod Budget
pub mod Ends
use cmppprotocol.Prelude.{
  ℕ, ◌+◌, ◌≤◌, ◌<◌, ◌≡◌, List, [], ◌∷◌, ◌++◌, Option, none, some, Bool, true, false, if◌then◌else◌,
  ◌==◌, map,
}
use cmppprotocol.Spool.{Event, submit_resp, submit_timeout, submit_dropped}
use cmppprotocol.Sequence.Registry.{contains}
use cmppprotocol.Pending.{
  ConnectionPhase, phase_open, phase_closed, SubmitAttemptState, queued, writing, awaiting_response,
  responded_while_writing, PendingSubmit, SubmitAttemptKey, SubmitResponse, Pending, put, claim_one,
  allowed_in, complete_one, respond_one,
}
use cmppprotocol.Phase.{Admission, Call, perform}
use cmppprotocol.Timeouts.{time_out_one, requeue_one}

-- An event that ends a SUBMIT, and whether it was sent or lost.
abbrev pub Conclusion : Type 0
Conclusion = Event × Bool

pub record Submits : Type 0 where
  pub admission : Admission
  pub pending : Pending
  pub admitted : List ℕ
  pub concluded : List Conclusion

-- The commit of `send_submit`. `lost` is `sequence_lease.manual && !sequence_lease.retire()`.
unfoldable pub commit_submit : Bool → Submits → ℕ → ℕ → List ℕ → Submits
commit_submit true s id submission_id packet = s
commit_submit false s id submission_id packet = elim s.admission.phase [
  | phase_open ↦ record s {
    pending =
        put s.pending id
          (some (record { submission_id = submission_id; packet = packet; state = queued 1 }));
    admitted = id ∷ s.admitted;
  }
  | _ ↦ s
]

-- The entry has no end yet.
unfoldable pub undecided : Option PendingSubmit → Bool
undecided none = false
undecided (some e) = elim e.state [ responded_while_writing attempt ↦ false | _ ↦ true ]

-- `filter_map` of the drained entries.
unfoldable pub dropped_ids : Pending → List ℕ → List ℕ
dropped_ids p [] = []
dropped_ids p (id ∷ ids) = if undecided (p id) then id ∷ dropped_ids p ids else dropped_ids p ids

abbrev pub emptied : Pending
emptied x = none

-- The events of `fail_all_pending` for the numbers that it drains, of which `sent` says which got into the spool.
unfoldable pub dropped_events : List ℕ → (ℕ → Bool) → List Conclusion
dropped_events [] sent = []
dropped_events (id ∷ ids) sent = (submit_dropped id, sent id) ∷ dropped_events ids sent

unfoldable pub fail_all_pending : Submits → List ℕ → (ℕ → Bool) → Submits
fail_all_pending s ids sent = record s {
  pending = emptied;
  concluded = dropped_events (dropped_ids s.pending ids) sent ++ s.concluded;
}

-- A response: if it is handled, its event is emitted, and sent or lost. The emission follows behind the lock of
-- the entries; the event is listed from that lock on, which settles that there is one.
unfoldable pub respond : Submits → SubmitResponse → Bool → Submits
respond s r sent = record s {
  pending = (respond_one s.pending r.sequence_id).1;
  concluded =
      if (respond_one s.pending r.sequence_id).0
      then (submit_resp r.sequence_id r.msg_id r.result, sent) ∷ s.concluded
      else s.concluded;
}

-- A timeout ends the entry if its event is sent; a lost event ends nothing.
unfoldable pub time_out : Submits → SubmitAttemptKey → Bool → Submits
time_out s key sent = record s {
  pending = (time_out_one sent s.pending key).1;
  concluded =
      if (time_out_one sent s.pending key).0
      then (submit_timeout key.sequence_id key.attempt, sent) ∷ s.concluded
      else s.concluded;
}

abbrev pub with_pending : Submits → Pending → Submits
with_pending s p = record s { pending = p }

abbrev pub claim : Submits → SubmitAttemptKey → Submits
claim s key =
    with_pending s
      (claim_one (allowed_in s.admission.phase s.admission.drain_submits_on_close) s.pending key).1

unfoldable pub count : ℕ → List ℕ → ℕ
count x [] = 0
count x (y ∷ ys) = (if x == y then 1 else 0) + count x ys

unfoldable pub present : Option PendingSubmit → ℕ
present none = 0
present (some e) = 1

-- The map yields each of its numbers once, and no others.
abbrev pub Yields : Pending → List ℕ → Type 0
Yields p ids = (x : ℕ) → count x ids ≡ present (p x)

-- An admission is of a number that was not admitted before, an attempt is queued again below the retries, and the
-- entries are failed on a closed connection.
pub data Step (retry_count : ℕ) (s t : Submits) : Type 0 where
  admitting :
      (lost : Bool) (id submission_id : ℕ) (packet : List ℕ)
      → contains s.admitted id ≡ false
      → t ≡ commit_submit lost s id submission_id packet
      → Step retry_count s t
  claiming : (key : SubmitAttemptKey) → t ≡ claim s key → Step retry_count s t
  completing :
      (key : SubmitAttemptKey) (written_at : ℕ)
      → t ≡ with_pending s (complete_one s.pending key written_at)
      → Step retry_count s t
  responding : (r : SubmitResponse) (sent : Bool) → t ≡ respond s r sent → Step retry_count s t
  timing_out :
      (key : SubmitAttemptKey) (sent : Bool)
      → retry_count ≤ key.attempt
      → t ≡ time_out s key sent
      → Step retry_count s t
  requeueing :
      (key : SubmitAttemptKey)
      → key.attempt < retry_count
      → t ≡ with_pending s (requeue_one s.admission.phase s.pending key).1
      → Step retry_count s t
  calling :
      (c : Call) → t ≡ record s { admission = (perform c s.admission).0 } → Step retry_count s t
  failing :
      (ids : List ℕ) (sent : ℕ → Bool)
      → s.admission.phase ≡ phase_closed
      → Yields s.pending ids
      → t ≡ fail_all_pending s ids sent
      → Step retry_count s t

pub data Steps (retry_count : ℕ) (s : Submits) : Submits → Type 0 where
  done : Steps retry_count s s
  next : {t u : Submits} → Steps retry_count s t → Step retry_count t u → Steps retry_count s u

-- A connection begins without SUBMITs.
abbrev pub new_submits : Submits
new_submits = record {
  admission = record { phase = phase_open; drain_submits_on_close = false };
  pending = emptied;
  admitted = [];
  concluded = [];
}
