-- ===== src/Sequence/Registry.antt =====
-- src/connection.rs: `SequenceState` and the operations of `SequenceRegistry`. The lock makes each of them one
-- step on the state; a lease is its number, and dropping it is `release`.
use cmppprotocol.Prelude.{
  ℕ, zero, suc, ◌+◌, ◌-◌, ◌%◌, ◌^◌, max, List, [], ◌∷◌, ◌++◌, Option, none, some, Bool, true, false,
  ◌&&◌, ◌||◌, if◌then◌else◌, ltb, leb, ◌==◌,
}
use cmppprotocol.Sequence.{
  Interval, Intervals, floor, map_insert, map_remove, checked_succ, retired_sequence_contains,
  insert_retired_sequence,
}

pub record SequenceState : Type 0 where
  pub next_automatic : Option ℕ
  pub automatic_start : ℕ
  pub automatic_used_through : Option ℕ
  pub reserved : List ℕ
  pub retired : Intervals

-- `HashSet::contains` and `HashSet::remove`
unfoldable pub contains : List ℕ → ℕ → Bool
contains [] x = false
contains (y ∷ ys) x = y == x || contains ys x

unfoldable pub set_remove : ℕ → List ℕ → List ℕ
set_remove x [] = []
set_remove x (y ∷ ys) = if y == x then set_remove x ys else y ∷ set_remove x ys

-- `SequenceRegistry::new`
unfoldable pub new_registry : ℕ → SequenceState
new_registry next = record {
  next_automatic = some (max next 1);
  automatic_start = max next 1;
  automatic_used_through = none;
  reserved = [];
  retired = [];
}

-- The number is taken from the automatic sequence.
unfoldable pub advance : SequenceState → ℕ → SequenceState
advance s id = record s { automatic_used_through = some id; next_automatic = checked_succ id }

-- The entry, if it covers the number.
unfoldable pub covering : ℕ → Option Interval → Option Interval
covering id none = none
covering id (some i) = if leb id i.end then some i else none

-- The automatic sequence jumps over a retired interval, of which only the part below its start stays.
unfoldable pub skip_retired : SequenceState → Interval → SequenceState
skip_retired s i = record s {
  automatic_used_through = some i.end;
  next_automatic = checked_succ i.end;
  retired =
      if ltb i.start s.automatic_start
      then map_insert i.start (s.automatic_start - 1) (map_remove i.start s.retired)
      else map_remove i.start s.retired;
}

-- The loop of `reserve_next`, and the state that it leaves.
unfoldable pub reserve_loop : ℕ → SequenceState → Option ℕ × SequenceState
reserve_loop zero s = (none, s)
reserve_loop (suc fuel) s = elim s.next_automatic [
  | none ↦ (none, s)
  | some id ↦ elim (covering id (floor id s.retired)) [
    | some i ↦ reserve_loop fuel (skip_retired (advance s id) i)
    | none ↦ elim (contains s.reserved id) [
      | true ↦ reserve_loop fuel (advance s id)
      | false ↦ (some id, record (advance s id) { reserved = id ∷ s.reserved })
    ]
  ]
]

-- Each round takes a number of the automatic sequence at least, and there are fewer than 2 ^ 32 of them.
unfoldable pub reserve_next : SequenceState → Option ℕ × SequenceState
reserve_next s = reserve_loop (2 ^ 32) s

-- `id >= automatic_start && id <= used_through`
unfoldable pub used_by_automatic : SequenceState → ℕ → Bool
used_by_automatic s id = elim s.automatic_used_through [
  | none ↦ false
  | some used_through ↦ leb s.automatic_start id && leb id used_through
]

-- `base.wrapping_add(index)`, `n` times, each looked up among those seen before.
unfoldable pub collect_ids : ℕ → ℕ → ℕ → List ℕ → Option (List ℕ)
collect_ids base index zero seen = some []
collect_ids base index (suc n) seen =
    let id = (base + index) % 2 ^ 32 in
    let rest = collect_ids base (index + 1) n (id ∷ seen) in
    if contains seen id then none else elim rest [ none ↦ none | some ids ↦ some (id ∷ ids) ]

unfoldable pub blocked : SequenceState → ℕ → Bool
blocked s id =
    used_by_automatic s id || contains s.reserved id || retired_sequence_contains s.retired id

unfoldable pub any_blocked : SequenceState → List ℕ → Bool
any_blocked s [] = false
any_blocked s (id ∷ ids) = blocked s id || any_blocked s ids

unfoldable pub reserve_ids : SequenceState → Option (List ℕ) → Option (List ℕ × SequenceState)
reserve_ids s none = none
reserve_ids s (some ids) =
    if any_blocked s ids then none else some (ids, record s { reserved = ids ++ s.reserved })

unfoldable pub reserve_batch : SequenceState → ℕ → ℕ → Option (List ℕ × SequenceState)
reserve_batch s base count =
    if ltb 255 count then none else reserve_ids s (collect_ids base 0 count [])

unfoldable pub release : SequenceState → ℕ → SequenceState
release s id = record s { reserved = set_remove id s.reserved }

-- The intervals as `insert_retired_sequence` leaves them; where it found no place the number stays reserved.
unfoldable pub retire_into : SequenceState → ℕ → Intervals × Bool → SequenceState × Bool
retire_into s id (retired, true) =
    (record s { retired = retired; reserved = set_remove id s.reserved }, true)
retire_into s id (retired, false) = (record s { retired = retired }, false)

unfoldable pub retire : SequenceState → ℕ → SequenceState × Bool
retire s id =
    if used_by_automatic s id
    then (release s id, true)
    else if retired_sequence_contains s.retired id
    then (release s id, true)
    else retire_into s id (insert_retired_sequence s.retired id)
