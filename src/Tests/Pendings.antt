-- ===== src/Tests/Pendings.antt =====
-- Inputs and runs for the pending SUBMITs and the phase of src/connection.rs.
use cmppprotocol.Prelude.{ℕ, ◌≡◌, refl, [], ◌∷◌, All, none, some, true, false, if◌then◌else◌, ◌==◌}
use cmppprotocol.Pending.{
  phase_open, phase_closing, SubmitAttemptState, queued, writing, PendingSubmit, Outbound,
  SubmitResponse, Pending, put, on_entry, claim_state, claim_one, claim_outbound, claim_batch,
  allowed_in, claim_submit_attempts, complete_one, respond_state, respond_one, flush_submit_resps,
}
use cmppprotocol.Pending.Once.{answers, Distinct, flush_submit_resps-Distinct}
use cmppprotocol.Pending.Order.{key_of, respond_complete}
use cmppprotocol.Pending.Claims.{Cleared, Apart, claim_submit_attempts-Apart}
use cmppprotocol.Phase.{Admission, begin, close, run_calls, refused_for_good}

abbrev entry : SubmitAttemptState → PendingSubmit
entry st = record { submission_id = 1; packet = []; state = st }

-- 5 is being written, 6 waits in the queue.
abbrev sample_pending : Pending
sample_pending x =
    if x == 5 then some (entry (writing 0)) else if x == 6 then some (entry (queued 2)) else none

abbrev response : ℕ → SubmitResponse
response id = record { sequence_id = id; msg_id = []; result = 0 }

-- The second response to 5 and the response to 7 are not handled.
flush_run :
    (flush_submit_resps sample_pending (response 5 ∷ response 6 ∷ response 5 ∷ response 7 ∷ [])).0
    ≡ response 5 ∷ response 6 ∷ []
unfolding flush_submit_resps respond_one respond_state on_entry
flush_run = refl

abbrev attempt_at : ℕ → ℕ → Outbound
attempt_at id k = record { packet = []; submit_attempt = some (key_of id 1 k) }

abbrev other_frame : Outbound
other_frame = record { packet = []; submit_attempt = none }

-- The attempt at 6 goes out once; the stale attempt does not.
claim_run :
    (claim_submit_attempts phase_open false sample_pending
      (other_frame ∷ attempt_at 6 1 ∷ attempt_at 6 2 ∷ attempt_at 6 2 ∷ [])).0
    ≡ other_frame ∷ attempt_at 6 2 ∷ []
unfolding claim_submit_attempts claim_batch claim_outbound claim_one claim_state on_entry allowed_in
claim_run = refl

flush_submit_resps-Distinct_example :
    All
      (λ (r : SubmitResponse). answers (sample_pending r.sequence_id) ≡ true)
      (flush_submit_resps sample_pending (response 5 ∷ response 5 ∷ [])).0
    × Distinct (flush_submit_resps sample_pending (response 5 ∷ response 5 ∷ [])).0
flush_submit_resps-Distinct_example =
    flush_submit_resps-Distinct sample_pending (response 5 ∷ response 5 ∷ [])

respond_complete_example :
    ((respond_one sample_pending 5).0 ≡ true)
    × ((respond_one (complete_one sample_pending (key_of 5 1 0) 100) 5).0 ≡ true)
    × ((x : ℕ)
        → (complete_one (respond_one sample_pending 5).1 (key_of 5 1 0) 100 x
            ≡ put sample_pending 5 none x)
          × ((respond_one (complete_one sample_pending (key_of 5 1 0) 100) 5).1 x
              ≡ put sample_pending 5 none x))
respond_complete_example = respond_complete sample_pending (entry (writing 0)) 5 0 100 refl refl

claim_submit_attempts-Apart_example :
    All
      (λ (o : Outbound). Cleared (allowed_in phase_closing true) sample_pending o.submit_attempt)
      (claim_submit_attempts phase_closing true sample_pending
        (attempt_at 6 2 ∷ attempt_at 6 2 ∷ [])).0
    × Apart
        (claim_submit_attempts phase_closing true sample_pending
          (attempt_at 6 2 ∷ attempt_at 6 2 ∷ [])).0
claim_submit_attempts-Apart_example =
    claim_submit_attempts-Apart phase_closing true sample_pending
      (attempt_at 6 2 ∷ attempt_at 6 2 ∷ [])

abbrev refusing : Admission
refusing = record { phase = phase_closing; drain_submits_on_close = false }

refusing_now : allowed_in phase_closing false ≡ false
unfolding allowed_in
refusing_now = refl

refused_for_good_example :
    allowed_in
      (run_calls (begin true ∷ close ∷ []) refusing).phase
      (run_calls (begin true ∷ close ∷ []) refusing).drain_submits_on_close
    ≡ false
refused_for_good_example = refused_for_good (begin true ∷ close ∷ []) refusing refusing_now
