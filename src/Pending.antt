-- ===== src/Pending.antt =====
-- src/connection.rs: the SUBMITs that wait for a response, and the three operations on them that the writer and
-- the reader run under the lock of `pending_submits`. The map is a function from sequence numbers.
pub mod Once
pub mod Order
pub mod Claims
use cmppprotocol.Prelude.{
  ℕ, List, [], ◌∷◌, Option, none, some, Bool, true, false, ◌&&◌, ◌||◌, not, if◌then◌else◌, ◌==◌,
}

pub data ConnectionPhase : Type 0 where
  phase_open phase_closing phase_closed : ConnectionPhase

-- Each state has its attempt; the last one of `awaiting_response` is the time of writing.
pub data SubmitAttemptState : Type 0 where
  queued : ℕ → SubmitAttemptState
  writing : ℕ → SubmitAttemptState
  awaiting_response : ℕ → ℕ → SubmitAttemptState
  responded_while_writing : ℕ → SubmitAttemptState

-- The leases and the window permit leave with the entry.
pub record PendingSubmit : Type 0 where
  pub submission_id : ℕ
  pub packet : List ℕ
  pub state : SubmitAttemptState

pub record SubmitAttemptKey : Type 0 where
  pub sequence_id : ℕ
  pub submission_id : ℕ
  pub attempt : ℕ

-- What `claim_submit_attempts` reads of an `Outbound`.
pub record Outbound : Type 0 where
  pub packet : List ℕ
  pub submit_attempt : Option SubmitAttemptKey

pub record SubmitResponse : Type 0 where
  pub sequence_id : ℕ
  pub msg_id : List ℕ
  pub result : ℕ

abbrev pub Pending : Type 0
Pending = ℕ → Option PendingSubmit

-- `insert`, and `remove` with none.
abbrev pub put : Pending → ℕ → Option PendingSubmit → Pending
put p id e x = if x == id then e else p x

-- What an operation does to one entry, and whether it says so.
pub data Change : Type 0 where
  unchanged : Change
  becomes : Bool → SubmitAttemptState → Change
  removed : Bool → Change

abbrev pub change_entry : Pending → ℕ → PendingSubmit → Change → Bool × Pending
change_entry p id e unchanged = (false, p)
change_entry p id e (becomes b st) = (b, put p id (some (record e { state = st })))
change_entry p id e (removed b) = (b, put p id none)

-- `get_mut(&id)`, and what follows on the entry.
unfoldable pub on_entry : Pending → ℕ → (PendingSubmit → Change) → Bool × Pending
on_entry p id f = elim (p id) [ none ↦ (false, p) | some e ↦ change_entry p id e (f e) ]

unfoldable pub claim_state : SubmitAttemptState → ℕ → Change
claim_state (queued attempt) k = if attempt == k then becomes true (writing k) else unchanged
claim_state _ k = unchanged

unfoldable pub claim_one : Bool → Pending → SubmitAttemptKey → Bool × Pending
claim_one allowed p key =
    if allowed
    then on_entry p key.sequence_id (λ e.
      if not (e.submission_id == key.submission_id)
      then unchanged
      else claim_state e.state key.attempt)
    else (false, p)

unfoldable pub claim_outbound : Bool → Pending → Option SubmitAttemptKey → Bool × Pending
claim_outbound allowed p none = (true, p)
claim_outbound allowed p (some key) = claim_one allowed p key

-- The frames of the batch that stay in it, in their order.
unfoldable pub claim_batch : Bool → Pending → List Outbound → List Outbound × Pending
claim_batch allowed p [] = ([], p)
claim_batch allowed p (o ∷ os) =
    let claimed = claim_outbound allowed p o.submit_attempt in
    let rest = claim_batch allowed claimed.1 os in
    (if claimed.0 then o ∷ rest.0 else rest.0, rest.1)

-- Whether the phase lets SUBMITs out.
unfoldable pub allowed_in : ConnectionPhase → Bool → Bool
allowed_in phase_open drain = true
allowed_in phase_closing drain = drain
allowed_in phase_closed drain = false

unfoldable pub claim_submit_attempts :
    ConnectionPhase → Bool → Pending → List Outbound → List Outbound × Pending
claim_submit_attempts phase drain p batch = claim_batch (allowed_in phase drain) p batch

unfoldable pub complete_state : SubmitAttemptState → ℕ → ℕ → Change
complete_state (writing attempt) k written_at =
    if attempt == k then becomes false (awaiting_response k written_at) else unchanged
complete_state (responded_while_writing attempt) k written_at =
    if attempt == k then removed true else unchanged
complete_state _ k written_at = unchanged

unfoldable pub complete_one : Pending → SubmitAttemptKey → ℕ → Pending
complete_one p key written_at =
    (on_entry p key.sequence_id (λ e.
      if not (e.submission_id == key.submission_id)
      then unchanged
      else complete_state e.state key.attempt written_at)).1

unfoldable pub complete_submit_attempts : Pending → List SubmitAttemptKey → ℕ → Pending
complete_submit_attempts p [] written_at = p
complete_submit_attempts p (key ∷ keys) written_at =
    complete_submit_attempts (complete_one p key written_at) keys written_at

unfoldable pub respond_state : SubmitAttemptState → Change
respond_state (writing attempt) = becomes true (responded_while_writing attempt)
respond_state (responded_while_writing attempt) = unchanged
respond_state (queued attempt) = removed true
respond_state (awaiting_response attempt written_at) = removed true

unfoldable pub respond_one : Pending → ℕ → Bool × Pending
respond_one p id = on_entry p id (λ e. respond_state e.state)

-- The responses that are handled, in their order, which are published; the others are logged as unknown.
unfoldable pub flush_submit_resps : Pending → List SubmitResponse → List SubmitResponse × Pending
flush_submit_resps p [] = ([], p)
flush_submit_resps p (r ∷ rs) =
    let handled = respond_one p r.sequence_id in
    let rest = flush_submit_resps handled.1 rs in (if handled.0 then r ∷ rest.0 else rest.0, rest.1)
