-- ===== src/Heartbeat/Alone.antt =====
-- src/connection.rs: one heartbeat at a time, whose attempts do not go beyond the retries.
use cmppprotocol.Prelude.{
  ℕ, ◌+◌, ◌≤◌, ◌≡◌, inl, inr, List, [], ◌∷◌, Bool, true, false, ◌&&◌, leb, ◌==◌, max, length, All,
  arith, Bool-cases, ==_iff,
}
use cmppprotocol.Pending.{ConnectionPhase}
use cmppprotocol.Timeouts.{is_open}
use cmppprotocol.Heartbeat.{
  HeartbeatAttemptState, heartbeat_queued, heartbeat_writing, heartbeat_awaiting, PendingHeartbeat,
  HeartbeatAttemptKey, Heartbeats, find_heartbeat, set_heartbeat, remove_heartbeat, begin_heartbeat,
  queued_at, writing_at, awaiting_at, matches, claim_heartbeat_attempt, complete_heartbeat_attempt,
  time_out_heartbeat, HeartbeatCall, beginning, claiming_heartbeat, completing_heartbeat, answering,
  timing_out_heartbeat, clearing, run_heartbeat, run_heartbeats,
}

unfoldable pub attempt_of : HeartbeatAttemptState → ℕ
attempt_of (heartbeat_queued attempt) = attempt
attempt_of (heartbeat_writing attempt) = attempt
attempt_of (heartbeat_awaiting attempt written_at) = attempt

-- The attempt of the entry is the first, or not beyond the retries.
abbrev pub InBudget : ℕ → (ℕ × PendingHeartbeat) → Type 0
InBudget retry_count e = (1 ≤ attempt_of e.1.state) × (attempt_of e.1.state ≤ max 1 retry_count)

pub record Alone (retry_count : ℕ) (l : Heartbeats) : Type 0 where
  pub one : length l ≤ 1
  pub budget : All (InBudget retry_count) l

set_heartbeat-Alone :
    (retry_count id : ℕ) (st : HeartbeatAttemptState) (l : Heartbeats)
    → 1 ≤ attempt_of st
    → attempt_of st ≤ max 1 retry_count
    → Alone retry_count l
    → Alone retry_count (set_heartbeat id st l)
unfolding set_heartbeat
set_heartbeat-Alone retry_count id st [] low high v = v
set_heartbeat-Alone retry_count id st ((k, h) ∷ g ∷ l) low high v = absurd (omega (arith, v.one))
set_heartbeat-Alone retry_count id st ((k, h) ∷ []) low high v = elim (Bool-cases (k == id)) [
  | inl e ↦ rw e (record { one = omega arith; budget = ((low, high), tt) })
  | inr e ↦ rw e v
]

remove_heartbeat-Alone :
    (retry_count id : ℕ) (l : Heartbeats)
    → Alone retry_count l
    → Alone retry_count (remove_heartbeat id l)
unfolding remove_heartbeat
remove_heartbeat-Alone retry_count id [] v = v
remove_heartbeat-Alone retry_count id ((k, h) ∷ g ∷ l) v = absurd (omega (arith, v.one))
remove_heartbeat-Alone retry_count id ((k, h) ∷ []) v = elim (Bool-cases (k == id)) [
  | inl e ↦ rw e (record { one = omega arith; budget = tt })
  | inr e ↦ rw e v
]

-- The attempt that a test accepts is the one of the key.
Sound : (HeartbeatAttemptState → ℕ → Bool) → Type 0
Sound test = (st : HeartbeatAttemptState) (k : ℕ) → test st k ≡ true → attempt_of st ≡ k

queued_at-Sound : Sound queued_at
unfolding Sound queued_at attempt_of
queued_at-Sound (heartbeat_queued a) k h = (==_iff a k).0 h
queued_at-Sound (heartbeat_writing a) k h = cc
queued_at-Sound (heartbeat_awaiting a w) k h = cc

writing_at-Sound : Sound writing_at
unfolding Sound writing_at attempt_of
writing_at-Sound (heartbeat_queued a) k h = cc
writing_at-Sound (heartbeat_writing a) k h = (==_iff a k).0 h
writing_at-Sound (heartbeat_awaiting a w) k h = cc

awaiting_at-Sound : Sound awaiting_at
unfolding Sound awaiting_at attempt_of
awaiting_at-Sound (heartbeat_queued a) k h = cc
awaiting_at-Sound (heartbeat_writing a) k h = cc
awaiting_at-Sound (heartbeat_awaiting a w) k h = (==_iff a k).0 h

-- A key that matches an entry in the budget is in it.
matches-budget :
    (retry_count : ℕ) (test : HeartbeatAttemptState → ℕ → Bool) (key : HeartbeatAttemptKey)
    (l : Heartbeats)
    → Sound test
    → matches test key (find_heartbeat key.sequence_id l) ≡ true
    → Alone retry_count l
    → (1 ≤ key.attempt) × (key.attempt ≤ max 1 retry_count)
unfolding matches find_heartbeat Sound
matches-budget retry_count test key [] sound h v = cc
matches-budget retry_count test key ((k, e) ∷ g ∷ l) sound h v = absurd (omega (arith, v.one))
matches-budget retry_count test key ((k, e) ∷ []) sound h v =
    elim (Bool-cases (k == key.sequence_id)) [
      | inl y ↦
          let test_true : (e.heartbeat_id == key.heartbeat_id && test e.state key.attempt) ≡ true =
            (rw y at h) in
          let same = sound e.state key.attempt (ground (arith, test_true)) in
          let low = v.budget.0.0 in
          let high = v.budget.0.1 in (omega (arith, low, same), omega (arith, high, same))
      | inr n ↦ absurd (none_matches (rw n at h))
    ]
  where
    none_matches : false ≡ true → ⊥
    none_matches q = cc

begin_heartbeat-Alone :
    (retry_count : ℕ) (phase : ConnectionPhase) (l : Heartbeats) (key : HeartbeatAttemptKey)
    → Alone retry_count l
    → Alone retry_count (begin_heartbeat phase l key).1
unfolding begin_heartbeat attempt_of
begin_heartbeat-Alone r phase [] key v = elim (Bool-cases (is_open phase)) [
  | inl o ↦ rw o (record { one = omega arith; budget = ((omega arith, omega arith), tt) })
  | inr c ↦ rw c v
]
begin_heartbeat-Alone r phase (h ∷ l) key v = v

claim_heartbeat_attempt-Alone :
    (retry_count : ℕ) (phase : ConnectionPhase) (l : Heartbeats) (key : HeartbeatAttemptKey)
    → Alone retry_count l
    → Alone retry_count (claim_heartbeat_attempt phase l key).1
unfolding claim_heartbeat_attempt attempt_of
claim_heartbeat_attempt-Alone r phase l key v =
    elim (Bool-cases (is_open phase && matches queued_at key (find_heartbeat key.sequence_id l))) [
      | inl y ↦
          let (low, high) =
            matches-budget r queued_at key l queued_at-Sound (ground (arith, y)) v in
          rw y (set_heartbeat-Alone r key.sequence_id (heartbeat_writing key.attempt) l low high v)
      | inr n ↦ rw n v
    ]

complete_heartbeat_attempt-Alone :
    (retry_count : ℕ) (l : Heartbeats) (key : HeartbeatAttemptKey) (written_at : ℕ)
    → Alone retry_count l
    → Alone retry_count (complete_heartbeat_attempt l key written_at)
unfolding complete_heartbeat_attempt attempt_of
complete_heartbeat_attempt-Alone r l key written_at v =
    elim (Bool-cases (matches writing_at key (find_heartbeat key.sequence_id l))) [
      | inl y ↦
          let (low, high) = matches-budget r writing_at key l writing_at-Sound y v in
          rw y (
            set_heartbeat-Alone r key.sequence_id (heartbeat_awaiting key.attempt written_at) l low
              high v)
      | inr n ↦ rw n v
    ]

time_out_heartbeat-Alone :
    (retry_count : ℕ) (room : Bool) (phase : ConnectionPhase) (l : Heartbeats)
    (key : HeartbeatAttemptKey)
    → Alone retry_count l
    → Alone retry_count (time_out_heartbeat retry_count room phase l key).1
unfolding time_out_heartbeat attempt_of
time_out_heartbeat-Alone r room phase l key v = elim (Bool-cases (leb r key.attempt)) [
  | inl over ↦ elim (Bool-cases (matches awaiting_at key (find_heartbeat key.sequence_id l))) [
    | inl y ↦ rw (over, y) (remove_heartbeat-Alone r key.sequence_id l v)
    | inr n ↦ rw (over, n) v
  ]
  | inr below ↦
      elim (Bool-cases
        (room && is_open phase && matches awaiting_at key (find_heartbeat key.sequence_id l))) [
          | inl y ↦
              rw (below, y)
                (set_heartbeat-Alone r key.sequence_id (heartbeat_queued (key.attempt + 1)) l
                  (omega arith) (ground (arith, below)) v)
          | inr n ↦ rw (below, n) v
        ]
]

run_heartbeat-Alone :
    (retry_count : ℕ) (c : HeartbeatCall) (l : Heartbeats)
    → Alone retry_count l
    → Alone retry_count (run_heartbeat retry_count c l)
unfolding run_heartbeat
run_heartbeat-Alone r (beginning phase key) l v = begin_heartbeat-Alone r phase l key v
run_heartbeat-Alone r (claiming_heartbeat phase key) l v =
    claim_heartbeat_attempt-Alone r phase l key v
run_heartbeat-Alone r (completing_heartbeat key written_at) l v =
    complete_heartbeat_attempt-Alone r l key written_at v
run_heartbeat-Alone r (answering id) l v = remove_heartbeat-Alone r id l v
run_heartbeat-Alone r (timing_out_heartbeat room phase key) l v =
    time_out_heartbeat-Alone r room phase l key v
run_heartbeat-Alone r clearing l v = record { one = omega arith; budget = tt }

-- Whatever calls of the tasks follow on the start of a connection, at most one heartbeat waits at a
-- time, and its attempt is at least the first and at most the last of the retries, or the first.
pub run_heartbeats-Alone :
    (retry_count : ℕ) (cs : List HeartbeatCall)
    → Alone retry_count (run_heartbeats retry_count cs [])
unfolding run_heartbeats
run_heartbeats-Alone r cs = from cs [] (record { one = omega arith; budget = tt })
  where
    from : (cs : List HeartbeatCall) (l : Heartbeats) → Alone r l → Alone r (run_heartbeats r cs l)
    from [] l v = v
    from (c ∷ cs) l v = from cs (run_heartbeat r c l) (run_heartbeat-Alone r c l v)
