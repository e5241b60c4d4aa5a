-- ===== src/References/Purged.antt =====
-- src/connection.rs: the buckets of a pool in order, and the purge that an acquisition begins with.
use cmppprotocol.Prelude.{ℕ, ◌<◌, ◌≡◌, inl, inr, refl, List, true, false, Bool-cases}
use cmppprotocol.Sequence.Registry.{contains}
use cmppprotocol.References.{
  UdhReferenceBucket, UdhReferencePool, purge_udh_cooldowns, sort, dedup, on_buckets,
}
use cmppprotocol.References.Purge.{BucketInv, Held, purge-Held, purge_udh_cooldowns_total}
use cmppprotocol.References.Acquire.{purged_for}

-- The buckets of the pool are in order.
abbrev pub Ordered : UdhReferencePool → Type 0
Ordered p = (b : ℕ) → BucketInv (p b)

-- A bucket behind an operation is one that it changed, or one that it did not.
pub on_buckets_by :
    (P : UdhReferenceBucket → Type 0) (ids : List ℕ) (f : UdhReferenceBucket → UdhReferenceBucket)
    (p : UdhReferencePool) (b : ℕ)
    → (contains ids b ≡ true → P (f (p b)))
    → (contains ids b ≡ false → P (p b))
    → P (on_buckets ids f p b)
on_buckets_by P ids f p b yes_case no_case = elim (Bool-cases (contains ids b)) [
  | inl e ↦ rw e (yes_case e)
  | inr e ↦ rw e (no_case e)
]

pub purged_for-Ordered :
    (asked : List ℕ) (now : ℕ) (p : UdhReferencePool) → Ordered p → Ordered (purged_for asked now p)
purged_for-Ordered asked now p o b =
    on_buckets_by BucketInv (dedup (sort asked)) (purge_udh_cooldowns now) p b
      (λ e. (purge_udh_cooldowns_total now (p b) (o b)).0) (λ e. o b)

pub purged_for-active :
    (asked : List ℕ) (now : ℕ) (p : UdhReferencePool) (b : ℕ)
    → Ordered p
    → (purged_for asked now p b).active ≡ (p b).active
purged_for-active asked now p b o =
    on_buckets_by (λ c. c.active ≡ (p b).active) (dedup (sort asked)) (purge_udh_cooldowns now) p b
      (λ e. (purge_udh_cooldowns_total now (p b) (o b)).1) (λ e. refl)

pub purged_for-Held :
    (asked : List ℕ) (now : ℕ) (p : UdhReferencePool) (b x d : ℕ)
    → Ordered p
    → now < d
    → Held (p b) x d
    → Held (purged_for asked now p b) x d
purged_for-Held asked now p b x d o lt h =
    on_buckets_by (λ c. Held c x d) (dedup (sort asked)) (purge_udh_cooldowns now) p b
      (λ e. purge-Held now (p b) x d (o b) lt h) (λ e. h)
