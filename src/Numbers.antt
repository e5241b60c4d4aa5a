-- ===== src/Numbers.antt =====
-- src/connection.rs: the numbers of SUBMITs between `SequenceRegistry` and the pending SUBMITs. A lease is taken by
-- itself or in a run, ends with the commit of `send_submit`, or is dropped; an entry keeps its lease.
pub mod Lists
pub mod Serving
pub mod Joined
pub mod Commit
pub mod Fresh
use cmppprotocol.Prelude.{
  ℕ, ◌≤◌, ◌<◌, ◌^◌, ◌≡◌, List, [], Option, none, some, Bool, true, false, ◌&&◌, not, if◌then◌else◌,
  ◌==◌, max,
}
use cmppprotocol.Sequence.Registry.{
  SequenceState, contains, new_registry, reserve_next, reserve_batch, release, retire,
}
use cmppprotocol.Pending.{phase_open}
use cmppprotocol.Lifecycle.{Submits, commit_submit, new_submits}
use cmppprotocol.Lifecycle

-- The leases that are held, by their number, and whether they are manual.
abbrev pub SequenceLeases : Type 0
SequenceLeases = ℕ → Option Bool

abbrev pub set_held : SequenceLeases → ℕ → Option Bool → SequenceLeases
set_held l id o x = if x == id then o else l x

abbrev pub hold_all : SequenceLeases → List ℕ → SequenceLeases
hold_all l ids x = if contains ids x then some true else l x

pub record Numbers : Type 0 where
  pub registry : SequenceState
  pub leases : SequenceLeases
  pub submits : Submits

abbrev pub new_numbers : ℕ → Numbers
new_numbers first = record {
  registry = new_registry first;
  leases = λ x. none;
  submits = new_submits;
}

-- The registry behind `sequence_lease.manual && !sequence_lease.retire()`, and what it says.
unfoldable pub retire_if_manual : SequenceState → Bool → ℕ → SequenceState × Bool
retire_if_manual r false id = (r, false)
retire_if_manual r true id = ((retire r id).0, not (retire r id).1)

-- The commit of `send_submit` with its lease.
unfoldable pub commit_lease : Numbers → Bool → ℕ → ℕ → List ℕ → Numbers
commit_lease s manual id submission_id packet = record {
  registry = (retire_if_manual s.registry manual id).0;
  leases = set_held s.leases id none;
  submits =
      commit_submit (retire_if_manual s.registry manual id).1 s.submits id submission_id packet;
}

pub data Turn (retry_count : ℕ) (s t : Numbers) : Type 0 where
  taking :
      (id : ℕ)
      → (reserve_next s.registry).0 ≡ some id
      → t ≡ record s {
        registry = (reserve_next s.registry).1;
        leases = set_held s.leases id (some false);
      }
      → Turn retry_count s t
  taking_run :
      (base count : ℕ) (ids : List ℕ) (r : SequenceState)
      → reserve_batch s.registry base count ≡ some (ids, r)
      → t ≡ record s { registry = r; leases = hold_all s.leases ids }
      → Turn retry_count s t
  dropping :
      (id : ℕ) (manual : Bool)
      → s.leases id ≡ some manual
      → t ≡ record s { registry = release s.registry id; leases = set_held s.leases id none }
      → Turn retry_count s t
  committing :
      (id submission_id : ℕ) (packet : List ℕ) (manual : Bool)
      → s.leases id ≡ some manual
      → s.submits.admission.phase ≡ phase_open
      → t ≡ commit_lease s manual id submission_id packet
      → Turn retry_count s t
  ending :
      (id : ℕ)
      → contains s.submits.admitted id ≡ true
      → t ≡ record s { registry = release s.registry id }
      → Turn retry_count s t
  retiring :
      (id : ℕ)
      → contains s.submits.admitted id ≡ true
      → id < 2 ^ 32
      → t ≡ record s { registry = (retire s.registry id).0 }
      → Turn retry_count s t
  moving :
      (u : Submits)
      → Lifecycle.Step retry_count s.submits u
      → u.admitted ≡ s.submits.admitted
      → t ≡ record s { submits = u }
      → Turn retry_count s t

pub data Turns (retry_count : ℕ) (s : Numbers) : Numbers → Type 0 where
  start : Turns retry_count s s
  turn : {t u : Numbers} → Turns retry_count s t → Turn retry_count t u → Turns retry_count s u
