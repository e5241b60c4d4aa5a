-- ===== src/Sequence.antt =====
-- src/connection.rs: `SequenceRegistry`, which hands out sequence numbers and keeps the used ones from being
-- handed out again. A `BTreeMap` is the list of its entries in key order, a `HashSet` the list of its members.
pub mod Intervals
pub mod Places
pub mod Retire
pub mod Registry
pub mod Window
pub mod Jump
pub mod Reserve
pub mod Batch
pub mod Spent
use cmppprotocol.Prelude.{
  ℕ, zero, suc, ◌+◌, ◌-◌, ◌%◌, ◌^◌, max, List, [], ◌∷◌, ◌++◌, Option, none, some, Bool, true, false,
  ◌&&◌, ◌||◌, not, if◌then◌else◌, ltb, leb, ◌==◌, length,
}

-- One entry of `retired`: the closed interval from its key to its value.
pub record Interval : Type 0 where
  pub start : ℕ
  pub end : ℕ

abbrev pub Intervals : Type 0
Intervals = List Interval

-- `range(..=x).next_back()`: the last entry whose key is at most `x`.
unfoldable pub floor : ℕ → Intervals → Option Interval
floor x [] = none
floor x (i ∷ m) =
    if ltb x i.start then none else elim (floor x m) [ none ↦ some i | some j ↦ some j ]

-- `range(x..).next()`: the first entry whose key is at least `x`.
unfoldable pub ceiling : ℕ → Intervals → Option Interval
ceiling x [] = none
ceiling x (i ∷ m) = if ltb i.start x then ceiling x m else some i

-- `insert(k, v)`, which replaces the value of a key that is there.
unfoldable pub map_insert : ℕ → ℕ → Intervals → Intervals
map_insert k v [] = record { start = k; end = v } ∷ []
map_insert k v (i ∷ m) =
    if ltb i.start k
    then i ∷ map_insert k v m
    else record { start = k; end = v } ∷ (if i.start == k then m else i ∷ m)

unfoldable pub map_remove : ℕ → Intervals → Intervals
map_remove k [] = []
map_remove k (i ∷ m) = if i.start == k then m else i ∷ map_remove k m

-- `if let Some(end) = get_mut(&k) { *end = v }`
unfoldable pub map_update : ℕ → ℕ → Intervals → Intervals
map_update k v [] = []
map_update k v (i ∷ m) = if i.start == k then record i { end = v } ∷ m else i ∷ map_update k v m

-- `u32::checked_add(1)`
abbrev pub checked_succ : ℕ → Option ℕ
checked_succ n = if ltb (n + 1) (2 ^ 32) then some (n + 1) else none

-- `n.checked_add(1) == Some(x)`
abbrev pub is_succ : ℕ → ℕ → Bool
is_succ n x = elim (checked_succ n) [ none ↦ false | some k ↦ k == x ]

abbrev pub max_retired_sequence_ranges : ℕ
max_retired_sequence_ranges = 65536

-- `is_some_and(|(_, &end)| x <= end)`
unfoldable pub reaches : ℕ → Option Interval → Bool
reaches x none = false
reaches x (some i) = leb x i.end

unfoldable pub retired_sequence_contains : Intervals → ℕ → Bool
retired_sequence_contains retired x = reaches x (floor x retired)

-- The interval before, if it ends just below `x`, and the one behind, if it starts just above.
unfoldable pub joining_previous : ℕ → Option Interval → Option Interval
joining_previous x none = none
joining_previous x (some i) = if is_succ i.end x then some i else none

unfoldable pub joining_next : ℕ → Option Interval → Option Interval
joining_next x none = none
joining_next x (some i) = if is_succ x i.start then some i else none

-- The four cases of the match: the intervals after it, and whether the number found a place.
unfoldable pub join : Intervals → ℕ → Option Interval → Option Interval → Intervals × Bool
join retired x (some p) (some n) = (map_remove n.start (map_update p.start n.end retired), true)
join retired x (some p) none = (map_update p.start x retired, true)
join retired x none (some n) = (map_insert x n.end (map_remove n.start retired), true)
join retired x none none =
    if leb max_retired_sequence_ranges (length retired)
    then (retired, false)
    else (map_insert x x retired, true)

unfoldable pub insert_retired_sequence : Intervals → ℕ → Intervals × Bool
insert_retired_sequence retired x =
    join retired x (joining_previous x (floor x retired)) (joining_next x (ceiling x retired))
