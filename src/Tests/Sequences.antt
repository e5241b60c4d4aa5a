-- ===== src/Tests/Sequences.antt =====
-- Inputs and runs for the sequence registry of src/connection.rs.
use cmppprotocol.Prelude.{
  ℕ, ◌^◌, ◌≤◌, ◌<◌, ◌≡◌, ◌≢◌, ◌⊎◌, inl, inr, refl, List, [], ◌∷◌, ◌++◌, All, none, some, true,
  false, length, arith,
}
use cmppprotocol.Sequence.{
  Interval, floor, ceiling, map_insert, map_remove, map_update, joining_previous, joining_next,
  join, insert_retired_sequence,
}
use cmppprotocol.Sequence.Intervals.{Covers, Chain}
use cmppprotocol.Sequence.Retire.{InsertsTo, insert_retired_sequence_total}
use cmppprotocol.Sequence.Registry.{
  SequenceState, contains, advance, covering, skip_retired, reserve_loop, reserve_next,
  reserve_batch, retire,
}
use cmppprotocol.Sequence.Window.{RegistryInv, Spent, Taken}
use cmppprotocol.Sequence.Reserve.{HandsOut, reserve_next_total}
use cmppprotocol.Sequence.Batch.{batch_ids, reserve_batch_total}
use cmppprotocol.Sequence.Spent.{Keeps, done, next, retiring, retire_total, Spent-never_again}

abbrev interval : ℕ → ℕ → Interval
interval a b = record { start = a; end = b }

-- 12 joins the interval before and the one behind.
join_both :
    insert_retired_sequence (interval 5 11 ∷ interval 13 20 ∷ []) 12 ≡ (interval 5 20 ∷ [], true)
unfolding insert_retired_sequence join joining_previous joining_next floor ceiling map_update
    map_remove
join_both = refl

-- The automatic sequence jumps over a retired interval, and over a reserved number.
abbrev used_state : SequenceState
used_state = record {
  next_automatic = some 4;
  automatic_start = 3;
  automatic_used_through = some 3;
  reserved = 8 ∷ [];
  retired = interval 1 7 ∷ interval 20 20 ∷ [];
}

jump : reserve_loop 10 used_state ≡ (
  some 9,
  record {
    next_automatic = some 10;
    automatic_start = 3;
    automatic_used_through = some 9;
    reserved = 9 ∷ 8 ∷ [];
    retired = interval 1 2 ∷ interval 20 20 ∷ [];
  },
)
unfolding reserve_loop covering floor skip_retired advance map_insert map_remove contains
jump = refl

used_state-RegistryInv : RegistryInv used_state
unfolding Chain
used_state-RegistryInv = record {
  start_pos = omega arith;
  begun = omega arith;
  bounded = omega arith;
  next = refl;
  chain = (omega arith, omega arith, (omega arith, omega arith, omega arith));
}

two_intervals-Chain : Chain 0 (2 ^ 32) (interval 5 11 ∷ interval 13 20 ∷ [])
unfolding Chain
two_intervals-Chain = (omega arith, omega arith, (omega arith, omega arith, omega arith))

twelve_apart : ¬ Covers (interval 5 11 ∷ interval 13 20 ∷ []) 12
unfolding Covers
twelve_apart h = ground arith

insert_retired_sequence_total_example : InsertsTo (interval 5 11 ∷ interval 13 20 ∷ []) 12
insert_retired_sequence_total_example =
    insert_retired_sequence_total (interval 5 11 ∷ interval 13 20 ∷ []) 12 two_intervals-Chain
      (omega arith) twelve_apart

reserve_next_total_example : HandsOut used_state (reserve_next used_state)
reserve_next_total_example = reserve_next_total used_state used_state-RegistryInv

reserve_batch_total_example :
    ((3 ≤ 255)
      × All (λ (id : ℕ). ¬ Taken used_state id) (batch_ids 30 0 3)
      × (reserve_batch used_state 30 3
          ≡ some (
            batch_ids 30 0 3,
            record used_state { reserved = batch_ids 30 0 3 ++ used_state.reserved },
          )))
    ⊎ (((255 < 3) ⊎ ((id : ℕ) × (contains (batch_ids 30 0 3) id ≡ true) × Taken used_state id))
        × (reserve_batch used_state 30 3 ≡ none))
reserve_batch_total_example = reserve_batch_total used_state 30 3 used_state-RegistryInv

retire_total_example :
    (((retire used_state 8).1 ≡ true)
      × Keeps used_state (retire used_state 8).0
      × Spent (retire used_state 8).0 8)
    ⊎ ((retire used_state 8 ≡ (used_state, false))
        × (65536 ≤ length used_state.retired)
        × ¬ Spent used_state 8)
retire_total_example = retire_total used_state 8 used_state-RegistryInv (omega arith)

abbrev later_state : SequenceState
later_state = (retire used_state 8).0

Spent-never_again_example :
    ((reserve_next later_state).0 ≢ some 20)
    × ((base count : ℕ) (ids : List ℕ) (u : SequenceState)
        → reserve_batch later_state base count ≡ some (ids, u)
        → contains ids 20 ≡ false)
Spent-never_again_example =
    Spent-never_again used_state later_state 20 used_state-RegistryInv twenty (
      next used_state later_state later_state (retiring used_state 8 (omega arith))
        (done later_state))
  where
    twenty : Spent used_state 20
    twenty = unfold Covers in inr (inr (inl (omega arith, omega arith)))
