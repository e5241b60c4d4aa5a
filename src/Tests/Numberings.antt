-- ===== src/Tests/Numberings.antt =====
-- Courses of the numbers of SUBMITs and of the heartbeats, for src/connection.rs.
use cmppprotocol.Prelude.{ℕ, ◌≡◌, refl, List, [], ◌∷◌, none, some, Bool, true, false, arith}
use cmppprotocol.Sequence.Registry.{contains, new_registry, reserve_next, reserve_loop, covering}
use cmppprotocol.Sequence.{floor}
use cmppprotocol.Pending.{phase_open}
use cmppprotocol.Lifecycle.{commit_submit, Steps, new_submits}
use cmppprotocol.Numbers.{
  Numbers, new_numbers, retire_if_manual, commit_lease, set_held, taking, committing, Turns, start,
  turn,
}
use cmppprotocol.Numbers.Fresh.{Turns-Steps}
use cmppprotocol.Heartbeat.{
  HeartbeatAttemptKey, HeartbeatCall, beginning, claiming_heartbeat, completing_heartbeat,
  timing_out_heartbeat, run_heartbeats,
}
use cmppprotocol.Heartbeat.Alone.{Alone, run_heartbeats-Alone}

-- The first number is leased and admitted.
abbrev taken_two : Numbers
taken_two = record (new_numbers 2) {
  registry = (reserve_next (new_registry 2)).1;
  leases = set_held (λ x. none) 2 (some false);
}

two_given : (reserve_next (new_registry 2)).0 ≡ some 2
unfolding reserve_next reserve_loop new_registry floor covering contains
two_given = refl

abbrev committed_two : Numbers
committed_two = commit_lease taken_two false 2 1 []

Turns-two : Turns 3 (new_numbers 2) committed_two
Turns-two = turn (turn start (taking 2 two_given refl)) (committing 2 1 [] false refl refl refl)

Turns-Steps_example :
    Steps 3 new_submits committed_two.submits
    × ((id : ℕ) (manual : Bool)
        → committed_two.leases id ≡ some manual
        → contains committed_two.submits.admitted id ≡ false)
Turns-Steps_example = Turns-Steps 3 2 committed_two (omega arith) Turns-two

admitted_run : contains committed_two.submits.admitted 2 ≡ true
unfolding commit_lease retire_if_manual commit_submit contains
admitted_run = refl

abbrev heartbeat_key : ℕ → HeartbeatAttemptKey
heartbeat_key k = record { sequence_id = 9; heartbeat_id = 1; attempt = k }

-- A heartbeat that is written, not answered, and queued again.
abbrev heartbeat_calls : List HeartbeatCall
heartbeat_calls =
    beginning phase_open (heartbeat_key 1)
    ∷ claiming_heartbeat phase_open (heartbeat_key 1)
    ∷ completing_heartbeat (heartbeat_key 1) 100
    ∷ timing_out_heartbeat true phase_open (heartbeat_key 1)
    ∷ []

run_heartbeats-Alone_example : Alone 3 (run_heartbeats 3 heartbeat_calls [])
run_heartbeats-Alone_example = run_heartbeats-Alone 3 heartbeat_calls
