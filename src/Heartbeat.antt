-- ===== src/Heartbeat.antt =====
-- src/connection.rs: the heartbeats that wait for their response. `heartbeat_task` begins one, the writer claims and
-- completes an attempt, the reader removes what is answered, and `timeout_task` queues the next attempt or gives up.
-- The map is a list of its entries; each operation is one step under its lock.
pub mod Alone
use cmppprotocol.Prelude.{
  ℕ, ◌+◌, ◌-◌, ◌≤◌, ◌<◌, ◌≡◌, List, [], ◌∷◌, Option, none, some, Bool, true, false, ◌&&◌, not,
  if◌then◌else◌, leb, ◌==◌,
}
use cmppprotocol.Pending.{ConnectionPhase}
use cmppprotocol.Timeouts.{is_open}

pub data HeartbeatAttemptState : Type 0 where
  heartbeat_queued : ℕ → HeartbeatAttemptState
  heartbeat_writing : ℕ → HeartbeatAttemptState
  heartbeat_awaiting : ℕ → ℕ → HeartbeatAttemptState

pub record PendingHeartbeat : Type 0 where
  pub heartbeat_id : ℕ
  pub state : HeartbeatAttemptState

pub record HeartbeatAttemptKey : Type 0 where
  pub sequence_id : ℕ
  pub heartbeat_id : ℕ
  pub attempt : ℕ

abbrev pub Heartbeats : Type 0
Heartbeats = List (ℕ × PendingHeartbeat)

-- `get`
unfoldable pub find_heartbeat : ℕ → Heartbeats → Option PendingHeartbeat
find_heartbeat id [] = none
find_heartbeat id ((k, h) ∷ l) = if k == id then some h else find_heartbeat id l

-- A state written through `get_mut`.
unfoldable pub set_heartbeat : ℕ → HeartbeatAttemptState → Heartbeats → Heartbeats
set_heartbeat id st [] = []
set_heartbeat id st ((k, h) ∷ l) =
    if k == id then (k, record h { state = st }) ∷ l else (k, h) ∷ set_heartbeat id st l

-- `remove`, for a response and for what is given up.
unfoldable pub remove_heartbeat : ℕ → Heartbeats → Heartbeats
remove_heartbeat id [] = []
remove_heartbeat id ((k, h) ∷ l) = if k == id then l else (k, h) ∷ remove_heartbeat id l

-- The commit of `heartbeat_task`, under a number of its own.
unfoldable pub begin_heartbeat :
    ConnectionPhase → Heartbeats → HeartbeatAttemptKey → Bool × Heartbeats
begin_heartbeat phase [] key =
    if is_open phase
    then (
      true,
      (key.sequence_id, record { heartbeat_id = key.heartbeat_id; state = heartbeat_queued 1 })
          ∷ [],
    )
    else (false, [])
begin_heartbeat phase (h ∷ l) key = (false, h ∷ l)

unfoldable pub queued_at : HeartbeatAttemptState → ℕ → Bool
queued_at (heartbeat_queued attempt) k = attempt == k
queued_at _ k = false

unfoldable pub writing_at : HeartbeatAttemptState → ℕ → Bool
writing_at (heartbeat_writing attempt) k = attempt == k
writing_at _ k = false

unfoldable pub awaiting_at : HeartbeatAttemptState → ℕ → Bool
awaiting_at (heartbeat_awaiting attempt written_at) k = attempt == k
awaiting_at _ k = false

-- The entry is this heartbeat, in a state that the test accepts for the attempt.
unfoldable pub matches :
    (HeartbeatAttemptState → ℕ → Bool) → HeartbeatAttemptKey → Option PendingHeartbeat → Bool
matches test key none = false
matches test key (some h) = h.heartbeat_id == key.heartbeat_id && test h.state key.attempt

unfoldable pub claim_heartbeat_attempt :
    ConnectionPhase → Heartbeats → HeartbeatAttemptKey → Bool × Heartbeats
claim_heartbeat_attempt phase l key =
    if is_open phase && matches queued_at key (find_heartbeat key.sequence_id l)
    then (true, set_heartbeat key.sequence_id (heartbeat_writing key.attempt) l)
    else (false, l)

unfoldable pub complete_heartbeat_attempt : Heartbeats → HeartbeatAttemptKey → ℕ → Heartbeats
complete_heartbeat_attempt l key written_at =
    if matches writing_at key (find_heartbeat key.sequence_id l)
    then set_heartbeat key.sequence_id (heartbeat_awaiting key.attempt written_at) l
    else l

unfoldable pub expired_attempt : ℕ → ℕ → ℕ → PendingHeartbeat → Option HeartbeatAttemptKey
expired_attempt now timeout id h = elim h.state [
  | heartbeat_awaiting attempt written_at ↦
      if leb timeout (now - written_at)
      then some (record { sequence_id = id; heartbeat_id = h.heartbeat_id; attempt = attempt })
      else none
  | _ ↦ none
]

-- `find_map`: the first attempt that has waited for the timeout.
unfoldable pub expired_heartbeat : ℕ → ℕ → Heartbeats → Option HeartbeatAttemptKey
expired_heartbeat now timeout [] = none
expired_heartbeat now timeout ((id, h) ∷ l) = elim (expired_attempt now timeout id h) [
  | some key ↦ some key
  | none ↦ expired_heartbeat now timeout l
]

-- What the timeout task does with an expired attempt: it gives up, which ends the connection, or queues the next one
-- if the queue has room.
unfoldable pub time_out_heartbeat :
    ℕ → Bool → ConnectionPhase → Heartbeats → HeartbeatAttemptKey → Bool × Heartbeats
time_out_heartbeat retry_count room phase l key =
    if leb retry_count key.attempt
    then (if matches awaiting_at key (find_heartbeat key.sequence_id l)
        then (true, remove_heartbeat key.sequence_id l)
        else (false, l))
    else (if room && is_open phase && matches awaiting_at key (find_heartbeat key.sequence_id l)
        then (false, set_heartbeat key.sequence_id (heartbeat_queued (key.attempt + 1)) l)
        else (false, l))

pub data HeartbeatCall : Type 0 where
  beginning : ConnectionPhase → HeartbeatAttemptKey → HeartbeatCall
  claiming_heartbeat : ConnectionPhase → HeartbeatAttemptKey → HeartbeatCall
  completing_heartbeat : HeartbeatAttemptKey → ℕ → HeartbeatCall
  answering : ℕ → HeartbeatCall
  timing_out_heartbeat : Bool → ConnectionPhase → HeartbeatAttemptKey → HeartbeatCall
  clearing : HeartbeatCall

unfoldable pub run_heartbeat : ℕ → HeartbeatCall → Heartbeats → Heartbeats
run_heartbeat retry_count (beginning phase key) l = (begin_heartbeat phase l key).1
run_heartbeat retry_count (claiming_heartbeat phase key) l = (claim_heartbeat_attempt phase l key).1
run_heartbeat retry_count (completing_heartbeat key written_at) l =
    complete_heartbeat_attempt l key written_at
run_heartbeat retry_count (answering id) l = remove_heartbeat id l
run_heartbeat retry_count (timing_out_heartbeat room phase key) l =
    (time_out_heartbeat retry_count room phase l key).1
run_heartbeat retry_count clearing l = []

-- The calls of the tasks, in the order in which they got the locks.
unfoldable pub run_heartbeats : ℕ → List HeartbeatCall → Heartbeats → Heartbeats
run_heartbeats retry_count [] l = l
run_heartbeats retry_count (c ∷ cs) l =
    run_heartbeats retry_count cs (run_heartbeat retry_count c l)
