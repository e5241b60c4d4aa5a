-- ===== src/Timeouts.antt =====
-- src/connection.rs, the SUBMIT half of `timeout_task`: which attempts a scan takes, and what becomes of each. A
-- lock is held for one attempt at a time. The map yields its numbers in an order that is an argument.

use cmppprotocol.Prelude.{
  ℕ, ◌+◌, ◌-◌, List, [], ◌∷◌, ◌++◌, Option, none, some, Bool, true, false, ◌&&◌, if◌then◌else◌, ltb,
  leb, ◌==◌, take,
}
use cmppprotocol.Pending.{
  ConnectionPhase, phase_open, phase_closing, phase_closed, SubmitAttemptState, queued,
  awaiting_response, PendingSubmit, SubmitAttemptKey, Pending, unchanged, becomes, removed,
  on_entry,
}

-- The time of writing, and the attempt.
abbrev pub Expired : Type 0
Expired = ℕ × SubmitAttemptKey

-- `now.duration_since(written_at) >= timeout`; an earlier `now` counts as no time.
unfoldable pub expired_state : ℕ → ℕ → ℕ → ℕ → SubmitAttemptState → List Expired
expired_state now timeout id submission_id (awaiting_response attempt written_at) =
    if leb timeout (now - written_at)
    then (written_at, record { sequence_id = id; submission_id = submission_id; attempt = attempt })
      ∷ []
    else []
expired_state now timeout id submission_id _ = []

unfoldable pub expired_entry : ℕ → ℕ → ℕ → Option PendingSubmit → List Expired
expired_entry now timeout id none = []
expired_entry now timeout id (some e) = expired_state now timeout id e.submission_id e.state

-- `filter_map` over the numbers of the map.
unfoldable pub collect_expired : ℕ → ℕ → Pending → List ℕ → List Expired
collect_expired now timeout p [] = []
collect_expired now timeout p (id ∷ ids) =
    expired_entry now timeout id (p id) ++ collect_expired now timeout p ids

-- The order of the sort, in which equals may stand either way.
unfoldable pub no_later : Expired → Expired → Bool
no_later (a, k) (b, l) =
    if a == b
    then (if k.sequence_id == l.sequence_id
        then leb k.submission_id l.submission_id
        else ltb k.sequence_id l.sequence_id)
    else ltb a b

unfoldable pub insert_expired : Expired → List Expired → List Expired
insert_expired x [] = x ∷ []
insert_expired x (y ∷ ys) = if no_later x y then x ∷ y ∷ ys else y ∷ insert_expired x ys

unfoldable pub sort_expired : List Expired → List Expired
sort_expired [] = []
sort_expired (x ∷ xs) = insert_expired x (sort_expired xs)

-- What one scan takes on.
unfoldable pub expired_submits : ℕ → ℕ → ℕ → Pending → List ℕ → List Expired
expired_submits now timeout batch_size p ids =
    take batch_size (sort_expired (collect_expired now timeout p ids))

-- The attempt still waits for its response.
unfoldable pub awaits_state : SubmitAttemptState → ℕ → Bool
awaits_state (awaiting_response attempt written_at) k = attempt == k
awaits_state _ k = false

unfoldable pub still_expired : SubmitAttemptKey → PendingSubmit → Bool
still_expired key e = e.submission_id == key.submission_id && awaits_state e.state key.attempt

-- An attempt beyond the retries: the event is emitted, and the entry removed if it was sent.
unfoldable pub time_out_one : Bool → Pending → SubmitAttemptKey → Bool × Pending
time_out_one sent p key =
    on_entry p key.sequence_id
      (λ e. if still_expired key e then (if sent then removed true else unchanged) else unchanged)

unfoldable pub is_open : ConnectionPhase → Bool
is_open phase_open = true
is_open phase_closing = false
is_open phase_closed = false

-- The next attempt is queued.
unfoldable pub requeue_one : ConnectionPhase → Pending → SubmitAttemptKey → Bool × Pending
requeue_one phase p key = on_entry p key.sequence_id (λ e.
    if is_open phase && still_expired key e
    then becomes true (queued (key.attempt + 1))
    else unchanged)

pub data QueuePermit : Type 0 where
  permit_given permit_full permit_closed : QueuePermit

-- What the surroundings answer for one attempt: whether its event is sent, whether its number is retired, whether the
-- queue has room, and the phase of the connection.
pub record Surroundings : Type 0 where
  pub sent : Bool
  pub retired : Bool
  pub permit : QueuePermit
  pub phase : ConnectionPhase

-- What a round does: the entries, the attempts that ended and those that go out again, and whether the task ends.
pub record Round : Type 0 where
  pub pending : Pending
  pub timed_out : List SubmitAttemptKey
  pub requeued : List SubmitAttemptKey
  pub ends : Bool

abbrev pub timed_out_first : SubmitAttemptKey → Round → Round
timed_out_first key r = record r { timed_out = key ∷ r.timed_out }

abbrev pub requeued_first : SubmitAttemptKey → Round → Round
requeued_first key r = record r { requeued = key ∷ r.requeued }

abbrev pub end_round : Bool → Pending → Round
end_round ends p = record { pending = p; timed_out = []; requeued = []; ends = ends }

-- The loop over the attempts of a scan.
unfoldable pub timeout_loop : ℕ → Pending → List Expired → (ℕ → Surroundings) → Round
timeout_loop retry_count p [] around = end_round false p
timeout_loop retry_count p ((written_at, key) ∷ rest) around =
    let a = around key.sequence_id in
    elim (leb retry_count key.attempt) [
      | true ↦ elim (time_out_one a.sent p key).0 [
        | true ↦ elim a.retired [
          | true ↦
              timed_out_first key
                (timeout_loop retry_count (time_out_one a.sent p key).1 rest around)
          | false ↦ timed_out_first key (end_round true (time_out_one a.sent p key).1)
        ]
        | false ↦ timeout_loop retry_count p rest around
      ]
      | false ↦ elim a.permit [
        | permit_full ↦ timeout_loop retry_count p rest around
        | permit_closed ↦ end_round true p
        | permit_given ↦ elim (requeue_one a.phase p key).0 [
          | true ↦
              requeued_first key
                (timeout_loop retry_count (requeue_one a.phase p key).1 rest around)
          | false ↦ timeout_loop retry_count p rest around
        ]
      ]
    ]
