-- ===== src/Phase.antt =====
-- src/connection.rs: the phase of a connection, `begin_closing` and `transition_to_closed`. Both run under the
-- lock of `submit_admission`, so each is one step. The watch channel repeats the phase to the tasks.
pub mod Finish
pub mod Terminated
use cmppprotocol.Prelude.{
  ℕ, ◌+◌, ◌≡◌, ◌++◌, refl, ◌∙◌, List, [], ◌∷◌, Bool, true, false, if◌then◌else◌, arith,
}
use cmppprotocol.Pending.{ConnectionPhase, phase_open, phase_closing, phase_closed, allowed_in}

pub record Admission : Type 0 where
  pub phase : ConnectionPhase
  pub drain_submits_on_close : Bool

unfoldable pub begin_closing : Bool → Admission → Admission × Bool
begin_closing drain_submits s = elim s.phase [
  | phase_open ↦ (record { phase = phase_closing; drain_submits_on_close = drain_submits }, true)
  | phase_closing ↦
      (if drain_submits then s else record s { drain_submits_on_close = false }, false)
  | phase_closed ↦ (s, false)
]

unfoldable pub transition_to_closed : Admission → Admission × Bool
transition_to_closed s = elim s.phase [
  | phase_closed ↦ (s, false)
  | _ ↦ (record s { phase = phase_closed }, true)
]

pub data Call : Type 0 where
  begin : Bool → Call
  close : Call

unfoldable pub perform : Call → Admission → Admission × Bool
perform (begin drain) s = begin_closing drain s
perform close s = transition_to_closed s

-- The state after calls of any tasks, in the order in which they got the lock.
unfoldable pub run_calls : List Call → Admission → Admission
run_calls [] s = s
run_calls (c ∷ cs) s = run_calls cs (perform c s).0

-- How many calls of `transition_to_closed` answer true.
unfoldable closed_count : List Call → Admission → ℕ
closed_count [] s = 0
closed_count (begin drain ∷ cs) s = closed_count cs (perform (begin drain) s).0
closed_count (close ∷ cs) s =
    (if (perform close s).1 then 1 else 0) + closed_count cs (perform close s).0

has_close : List Call → ℕ
has_close [] = 0
has_close (begin drain ∷ cs) = has_close cs
has_close (close ∷ cs) = 1

abbrev at_phase : ConnectionPhase → Bool → Admission
at_phase p d = record { phase = p; drain_submits_on_close = d }

closed_count-closed : (cs : List Call) (d : Bool) → closed_count cs (at_phase phase_closed d) ≡ 0
unfolding closed_count perform begin_closing transition_to_closed
closed_count-closed [] d = refl
closed_count-closed (begin drain ∷ cs) d = closed_count-closed cs d
closed_count-closed (close ∷ cs) d = omega (arith, closed_count-closed cs d)

closed_count-closing :
    (cs : List Call) (d : Bool) → closed_count cs (at_phase phase_closing d) ≡ has_close cs
unfolding closed_count perform begin_closing transition_to_closed has_close
closed_count-closing [] d = refl
closed_count-closing (begin true ∷ cs) d = closed_count-closing cs d
closed_count-closing (begin false ∷ cs) d = closed_count-closing cs false
closed_count-closing (close ∷ cs) d = omega (arith, closed_count-closed cs d)

closed_count-open :
    (cs : List Call) (d : Bool) → closed_count cs (at_phase phase_open d) ≡ has_close cs
unfolding closed_count perform begin_closing transition_to_closed has_close
closed_count-open [] d = refl
closed_count-open (begin drain ∷ cs) d = closed_count-closing cs drain
closed_count-open (close ∷ cs) d = omega (arith, closed_count-closed cs d)

-- Whatever calls close an open connection, in any order, exactly one call of transition_to_closed
-- answers true if there is one among them.
closed_once :
    (cs ds : List Call) (d : Bool) → closed_count (cs ++ (close ∷ ds)) (at_phase phase_open d) ≡ 1
unfolding has_close
closed_once cs ds d = closed_count-open (cs ++ (close ∷ ds)) d ∙ there cs
  where
    there : (l : List Call) → has_close (l ++ (close ∷ ds)) ≡ 1
    there [] = refl
    there (begin drain ∷ l) = there l
    there (close ∷ l) = refl

refused-step :
    (c : Call) (p : ConnectionPhase) (d : Bool)
    → allowed_in p d ≡ false
    → allowed_in
        (perform c (at_phase p d)).0.phase
        (perform c (at_phase p d)).0.drain_submits_on_close
      ≡ false
unfolding perform begin_closing transition_to_closed allowed_in
refused-step (begin drain) phase_open d h = cc
refused-step (begin true) phase_closing d h = h
refused-step (begin false) phase_closing d h = refl
refused-step (begin drain) phase_closed d h = refl
refused-step close phase_open d h = cc
refused-step close phase_closing d h = refl
refused-step close phase_closed d h = refl

-- Once the phase lets no SUBMITs out, no calls that close the connection, in any order, let them
-- out again.
pub refused_for_good :
    (cs : List Call) (s : Admission)
    → allowed_in s.phase s.drain_submits_on_close ≡ false
    → allowed_in (run_calls cs s).phase (run_calls cs s).drain_submits_on_close ≡ false
unfolding run_calls
refused_for_good [] s h = h
refused_for_good (c ∷ cs) s h =
    refused_for_good cs (perform c s).0 (refused-step c s.phase s.drain_submits_on_close h)
