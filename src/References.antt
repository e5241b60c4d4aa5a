-- ===== src/References.antt =====
-- src/connection.rs: `UdhReferencePool`, the references that tell the long messages to one destination apart.
-- The locks of the buckets are taken together, so an acquisition is one step, and so is a release of one lease.
pub mod Words
pub mod Bits
pub mod Cooldowns
pub mod Purge
pub mod Buckets
pub mod Acquire
pub mod Purged
pub mod Pools
pub mod Leases
pub mod Cooling
pub mod Messages
use Prim.Native.Nat.{bit_and, bit_or}
use cmppprotocol.Prelude.{
  ℕ, zero, suc, ◌+◌, ◌-◌, ◌/◌, ◌%◌, ◌^◌, ◌++◌, List, [], ◌∷◌, Option, none, some, Bool, true, false,
  ◌&&◌, not, if◌then◌else◌, ltb, leb, ◌==◌, length, take, replicate, map,
}
use cmppprotocol.Sequence.Registry.{contains}

-- `[u64; 4]`, by the number of the word.
abbrev pub Bitmap : Type 0
Bitmap = ℕ → ℕ

-- A deadline and its reference.
abbrev pub Cooldown : Type 0
Cooldown = ℕ × ℕ

-- The heap of cooldowns is the list of its entries in ascending order.
pub record UdhReferenceBucket : Type 0 where
  pub active : Bitmap
  pub cooling : Bitmap
  pub cooldowns : List Cooldown

abbrev pub UdhReferencePool : Type 0
UdhReferencePool = ℕ → UdhReferenceBucket

pub record UdhReferenceLease : Type 0 where
  pub bucket_ids : List ℕ
  pub reference : ℕ
  pub cooldown : ℕ
  pub exposed : Bool

-- `UdhReferencePool::new`
abbrev pub new_pool : UdhReferencePool
new_pool b = record { active = λ w. 0; cooling = λ w. 0; cooldowns = [] }

unfoldable pub udh_reference_position : ℕ → ℕ × ℕ
udh_reference_position reference = (reference / 64, 2 ^ (reference % 64))

unfoldable pub udh_reference_is_set : UdhReferenceBucket → ℕ → Bool
udh_reference_is_set bucket reference =
    let (word, mask) = udh_reference_position reference in
    not (bit_and (bit_or (bucket.active word) (bucket.cooling word)) mask == 0)

unfoldable pub set_udh_reference : Bitmap → ℕ → Bitmap
set_udh_reference bitmap reference w =
    let (word, mask) = udh_reference_position reference in
    if w == word then bit_or (bitmap w) mask else bitmap w

-- `!mask` of 64 bits is written as the difference to all ones.
unfoldable pub clear_udh_reference : Bitmap → ℕ → Bitmap
clear_udh_reference bitmap reference w =
    let (word, mask) = udh_reference_position reference in
    if w == word then bit_and (bitmap w) (2 ^ 64 - 1 - mask) else bitmap w

-- `(a, x) <= (b, y)` on the entries of the heap.
unfoldable pub entry_leb : Cooldown → Cooldown → Bool
entry_leb (a, x) (b, y) = if a == b then leb x y else ltb a b

-- `BinaryHeap::push`
unfoldable pub push : Cooldown → List Cooldown → List Cooldown
push c [] = c ∷ []
push c (d ∷ ds) = if entry_leb c d then c ∷ d ∷ ds else d ∷ push c ds

-- The loop of `purge_udh_cooldowns`, on the cooling references and the heap.
unfoldable pub purge_loop : ℕ → Bitmap → List Cooldown → Bitmap × List Cooldown
purge_loop now cooling [] = (cooling, [])
purge_loop now cooling ((deadline, reference) ∷ rest) = elim (ltb now deadline) [
  | true ↦ (cooling, (deadline, reference) ∷ rest)
  | false ↦ purge_loop now (clear_udh_reference cooling reference) rest
]

unfoldable pub purge_udh_cooldowns : ℕ → UdhReferenceBucket → UdhReferenceBucket
purge_udh_cooldowns now bucket =
    let purged = purge_loop now bucket.cooling bucket.cooldowns in
    record bucket { cooling = purged.0; cooldowns = purged.1 }

-- `sort_unstable`
unfoldable pub insert_sorted : ℕ → List ℕ → List ℕ
insert_sorted x [] = x ∷ []
insert_sorted x (y ∷ ys) = if leb x y then x ∷ y ∷ ys else y ∷ insert_sorted x ys

unfoldable pub sort : List ℕ → List ℕ
sort [] = []
sort (x ∷ xs) = insert_sorted x (sort xs)

-- `dedup`: what equals the entry before it goes.
unfoldable pub dedup : List ℕ → List ℕ
dedup [] = []
dedup (x ∷ []) = x ∷ []
dedup (x ∷ y ∷ ys) = if x == y then dedup (y ∷ ys) else x ∷ dedup (y ∷ ys)

unfoldable pub normalize_udh_address : List ℕ → List ℕ
normalize_udh_address bytes = take 21 (bytes ++ replicate 21 0)

-- The hash of `RandomState`, which is keyed at random, is a parameter.
unfoldable pub bucket_id : (List ℕ → List ℕ → ℕ) → List ℕ → List ℕ → ℕ
bucket_id hash source destination = bit_and (hash source destination) (4096 - 1)

unfoldable pub bucket_ids : (List ℕ → List ℕ → ℕ) → List ℕ → List (List ℕ) → List ℕ
bucket_ids hash src_id [] = bucket_id hash (normalize_udh_address src_id) (replicate 21 0) ∷ []
bucket_ids hash src_id (d ∷ ds) = dedup (
    sort (
      map
        (λ destination.
          bucket_id hash (normalize_udh_address src_id) (normalize_udh_address destination))
        (d ∷ ds)))

-- `for guard in guards.iter_mut()`: the guards are of different buckets.
abbrev pub on_buckets :
    List ℕ → (UdhReferenceBucket → UdhReferenceBucket) → UdhReferencePool → UdhReferencePool
on_buckets ids f p b = if contains ids b then f (p b) else p b

-- No bucket has the reference.
unfoldable pub free_in : UdhReferencePool → List ℕ → ℕ → Bool
free_in p [] reference = true
free_in p (b ∷ bs) reference = not (udh_reference_is_set (p b) reference) && free_in p bs reference

-- The scan from an offset on, for a number of offsets.
unfoldable pub scan : UdhReferencePool → List ℕ → ℕ → ℕ → ℕ → Option ℕ
scan p ids preferred offset zero = none
scan p ids preferred offset (suc n) = elim (free_in p ids ((preferred + offset) % 256)) [
  | true ↦ some ((preferred + offset) % 256)
  | false ↦ scan p ids preferred (offset + 1) n
]

abbrev pub activate : ℕ → UdhReferenceBucket → UdhReferenceBucket
activate reference bucket = record bucket { active = set_udh_reference bucket.active reference }

unfoldable pub hand_out :
    UdhReferencePool → List ℕ → ℕ → Option ℕ → Option UdhReferenceLease × UdhReferencePool
hand_out p ids cooldown none = (none, p)
hand_out p ids cooldown (some reference) = (
  some (record { bucket_ids = ids; reference = reference; cooldown = cooldown; exposed = false }),
  on_buckets ids (activate reference) p,
)

unfoldable pub try_acquire :
    UdhReferencePool → List ℕ → ℕ → ℕ → ℕ → Option UdhReferenceLease × UdhReferencePool
try_acquire p bucket_ids preferred cooldown now =
    let ids = dedup (sort bucket_ids) in
    let purged = on_buckets ids (purge_udh_cooldowns now) p in
    hand_out purged ids cooldown (scan purged ids preferred 0 256)

-- `Instant::checked_add`: the last instant that the clock of the platform can show is a parameter.
unfoldable pub checked_add : ℕ → ℕ → ℕ → Option ℕ
checked_add last now duration = if leb (now + duration) last then some (now + duration) else none

-- Without a deadline the reference cools for ever.
unfoldable pub cool : ℕ → Option ℕ → UdhReferenceBucket → UdhReferenceBucket
cool reference none bucket = record bucket { cooling = set_udh_reference bucket.cooling reference }
cool reference (some deadline) bucket = record bucket {
  cooling = set_udh_reference bucket.cooling reference;
  cooldowns = push (deadline, reference) bucket.cooldowns;
}

abbrev pub deactivate : ℕ → UdhReferenceBucket → UdhReferenceBucket
deactivate reference bucket = record bucket { active = clear_udh_reference bucket.active reference }

unfoldable pub release_in : Bool → ℕ → Option ℕ → UdhReferenceBucket → UdhReferenceBucket
release_in false reference deadline bucket = deactivate reference bucket
release_in true reference deadline bucket = cool reference deadline (deactivate reference bucket)

-- The buckets are locked one by one; the changes are of different buckets, and are one step here.
unfoldable pub release_lease : ℕ → UdhReferencePool → UdhReferenceLease → ℕ → UdhReferencePool
release_lease last p lease now =
    on_buckets lease.bucket_ids
      (release_in lease.exposed lease.reference (checked_add last now lease.cooldown)) p

unfoldable pub mark_exposed : UdhReferenceLease → UdhReferenceLease
mark_exposed lease = record lease { exposed = true }
