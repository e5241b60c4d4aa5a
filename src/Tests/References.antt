-- ===== src/Tests/References.antt =====
-- Inputs and courses for the references of long messages of src/connection.rs.
use cmppprotocol.Prelude.{
  true-≢false, ℕ, ◌+◌, ◌*◌, ◌%◌, ◌<◌, ◌≡◌, ◌≢◌, ◌↔◌, ◌⊎◌, refl, sym, ◌∙◌, ◌||◌, List, [], ◌∷◌, some,
  none, Bool, true, false, arith,
}
use cmppprotocol.Sequence.Registry.{contains}
use cmppprotocol.References.{
  UdhReferenceBucket, UdhReferencePool, UdhReferenceLease, new_pool, udh_reference_position,
  udh_reference_is_set, set_udh_reference, clear_udh_reference, purge_loop, purge_udh_cooldowns,
  insert_sorted, sort, dedup, normalize_udh_address, bucket_id, bucket_ids, free_in, scan, hand_out,
  try_acquire, release_in, cool, push, checked_add, on_buckets, activate, release_lease,
  mark_exposed,
}
use cmppprotocol.References.Leases.{
  Shared, acquired, exposing, Steps, done, next, lease_step, new_shared,
}
use cmppprotocol.References.Bits.{has, has-set_udh_reference, has_none}
use cmppprotocol.References.Cooldowns.{Listed, Queue, NotBefore}
use cmppprotocol.References.Purge.{BucketInv, purge_udh_cooldowns_total}
use cmppprotocol.References.Acquire.{FreeIn, TakenIn, purged_for, fresh_lease, try_acquire_total}
use cmppprotocol.References.Cooling.{dropped-cools}
use cmppprotocol.References.Messages.{messages_apart}

-- A hash of the first bytes.
abbrev first_byte : List ℕ → ℕ
first_byte [] = 0
first_byte (x ∷ xs) = x

abbrev hash : List ℕ → List ℕ → ℕ
hash source destination = first_byte source * 100 + first_byte destination

abbrev asked : List ℕ
asked = 152 ∷ 151 ∷ 152 ∷ []

abbrev lease_at : ℕ → UdhReferenceLease
lease_at r = record { bucket_ids = 151 ∷ 152 ∷ []; reference = r; cooldown = 10; exposed = false }

-- The buckets of a message to 4 and 3 and 4.
bucket_ids_run : bucket_ids hash (1 ∷ []) ((52 ∷ []) ∷ (51 ∷ []) ∷ (52 ∷ []) ∷ []) ≡ 151 ∷ 152 ∷ []
unfolding bucket_ids dedup sort insert_sorted bucket_id normalize_udh_address
bucket_ids_run = refl

abbrev pool_one : UdhReferencePool
pool_one = (try_acquire new_pool asked 255 10 1).1

abbrev pool_two : UdhReferencePool
pool_two = (try_acquire pool_one asked 255 10 2).1

acquire_one : try_acquire new_pool asked 255 10 1 ≡ (some (lease_at 255), pool_one)
unfolding try_acquire hand_out scan free_in udh_reference_is_set udh_reference_position dedup sort
    insert_sorted contains purge_udh_cooldowns purge_loop set_udh_reference
acquire_one = refl

acquire_two : try_acquire pool_one asked 255 10 2 ≡ (some (lease_at 0), pool_two)
unfolding try_acquire hand_out scan free_in udh_reference_is_set udh_reference_position dedup sort
    insert_sorted contains purge_udh_cooldowns purge_loop set_udh_reference
acquire_two = refl

abbrev shared_one : Shared
shared_one = lease_step new_shared 0 (some (lease_at 255)) pool_one 1

abbrev shared_two : Shared
shared_two = lease_step shared_one 1 (some (lease_at 0)) pool_two 2

course_one : (last : ℕ) → Steps last new_shared shared_one
course_one last =
    next done (acquired 0 asked 255 10 1 (lease_at 255) pool_one refl acquire_one refl)

course_two : (last : ℕ) → Steps last new_shared shared_two
course_two last =
    next (course_one last) (acquired 1 asked 255 10 2 (lease_at 0) pool_two refl acquire_two refl)

asked_for : (151 ∷ 152 ∷ []) ≡ dedup (sort (bucket_ids hash (1 ∷ []) ((51 ∷ []) ∷ (52 ∷ []) ∷ [])))
unfolding bucket_ids dedup sort insert_sorted bucket_id normalize_udh_address
asked_for = refl

messages_apart_example : (lease_at 255).reference ≢ (lease_at 0).reference
messages_apart_example =
    messages_apart 1000 shared_two hash (1 ∷ []) (52 ∷ []) ((51 ∷ []) ∷ []) [] ((51 ∷ []) ∷ []) [] 0
      1 (lease_at 255) (lease_at 0) (course_two 1000) (λ e. cc) refl refl asked_for asked_for

-- The first lease goes out and is dropped at 3, and its reference cools until 13.
abbrev exposed_one : UdhReferenceLease
exposed_one = record (lease_at 255) { exposed = true }

abbrev shared_three : Shared
shared_three = lease_step shared_two 0 (some exposed_one) pool_two 2

course_three : Steps 1000 new_shared shared_three
unfolding mark_exposed
course_three = next (course_two 1000) (exposing 0 (lease_at 255) refl refl)

abbrev pool_four : UdhReferencePool
pool_four = release_lease 1000 pool_two exposed_one 3

abbrev pool_five : UdhReferencePool
pool_five = (try_acquire pool_four asked 255 10 12).1

acquire_five : try_acquire pool_four asked 255 10 12 ≡ (some (lease_at 1), pool_five)
unfolding try_acquire hand_out scan free_in udh_reference_is_set udh_reference_position dedup sort
    insert_sorted contains purge_udh_cooldowns purge_loop set_udh_reference release_lease release_in
    cool push checked_add clear_udh_reference
acquire_five = refl

-- At 13 it is free again.
acquire_six : (try_acquire pool_four asked 255 10 13).0 ≡ some (lease_at 255)
unfolding try_acquire hand_out scan free_in udh_reference_is_set udh_reference_position dedup sort
    insert_sorted contains purge_udh_cooldowns purge_loop set_udh_reference release_lease release_in
    cool push checked_add clear_udh_reference
acquire_six = refl

member : contains (151 ∷ 152 ∷ []) 152 ≡ true
unfolding contains
member = refl

dropped-cools_example : (lease_at 1).reference ≢ exposed_one.reference
dropped-cools_example =
    dropped-cools 1000 shared_three (lease_step shared_three 0 none pool_four 3) 0 3 exposed_one
      course_three refl refl done asked 255 10 12 (lease_at 1) pool_five (omega arith) (omega arith)
      acquire_five 152 member member

try_acquire_total_example :
    ((k : ℕ) × (k < 256)
      × (try_acquire pool_four asked 255 10 12 ≡ (
        some (fresh_lease asked ((255 + k) % 256) 10),
        on_buckets
            (dedup (sort asked))
            (activate ((255 + k) % 256))
            (purged_for asked 12 pool_four),
      ))
      × FreeIn (purged_for asked 12 pool_four) asked ((255 + k) % 256)
      × ((j : ℕ) → j < k → TakenIn (purged_for asked 12 pool_four) asked ((255 + j) % 256)))
    ⊎ ((try_acquire pool_four asked 255 10 12 ≡ (none, purged_for asked 12 pool_four))
        × ((r : ℕ) → r < 256 → TakenIn (purged_for asked 12 pool_four) asked r))
try_acquire_total_example = try_acquire_total pool_four asked 255 10 12

-- The references 7 and 8 cool, of which 7 has a deadline.
abbrev cool_bucket : UdhReferenceBucket
cool_bucket = record {
  active = λ w. 0;
  cooling = set_udh_reference (set_udh_reference (λ w. 0) 8) 7;
  cooldowns = (3, 7) ∷ [];
}

cool_bucket-BucketInv : BucketInv cool_bucket
unfolding Listed Queue
cool_bucket-BucketInv = record {
  apart = λ r a. absurd (true-≢false (sym a ∙ has_none r));
  listed = (has-set_udh_reference (set_udh_reference (λ w. 0) 8) 7 7 ∙ or_true _, tt);
  queue = (tt, tt);
}
  where
    or_true : (b : Bool) → (b || true) ≡ true
    or_true true = refl
    or_true false = refl

purge_udh_cooldowns_total_example :
    BucketInv (purge_udh_cooldowns 5 cool_bucket)
    × ((purge_udh_cooldowns 5 cool_bucket).active ≡ cool_bucket.active)
    × ((r : ℕ)
        → (has (purge_udh_cooldowns 5 cool_bucket).cooling r ≡ true)
          ↔ ((has cool_bucket.cooling r ≡ true) × NotBefore 6 r cool_bucket.cooldowns))
purge_udh_cooldowns_total_example = purge_udh_cooldowns_total 5 cool_bucket cool_bucket-BucketInv
