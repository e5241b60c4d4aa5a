-- ===== src/References/Purge.antt =====
-- src/connection.rs: a bucket of references in order, and what the purge does to it.
use cmppprotocol.Prelude.{
  true-≢false, ℕ, ◌+◌, ◌≤◌, ◌<◌, ◌≡◌, ◌↔◌, refl, sym, ◌∙◌, All-map, Bool, true, false, arith,
}
use cmppprotocol.References.{Cooldown, UdhReferenceBucket, purge_udh_cooldowns}
use cmppprotocol.References.Bits.{has}
use cmppprotocol.References.Cooldowns.{Listed, Queue, NotBefore, Purged, purge_loop-Purged}

-- A bucket in order: no active reference cools down, the heap is a queue of references that do.
pub record BucketInv (b : UdhReferenceBucket) : Type 0 where
  pub apart : (r : ℕ) → has b.active r ≡ true → has b.cooling r ≡ false
  pub listed : Listed b.cooling b.cooldowns
  pub queue : Queue b.cooldowns

-- The reference cools down, and does so until the deadline at least.
pub record Held (b : UdhReferenceBucket) (r deadline : ℕ) : Type 0 where
  pub cools : has b.cooling r ≡ true
  pub not_before : NotBefore deadline r b.cooldowns

abbrev pub ExpiredBy : ℕ → UdhReferenceBucket → UdhReferenceBucket → Type 0
ExpiredBy now b c = Purged now b.cooling b.cooldowns c.cooling c.cooldowns

purged :
    (now : ℕ) (b : UdhReferenceBucket) → BucketInv b → ExpiredBy now b (purge_udh_cooldowns now b)
unfolding purge_udh_cooldowns
purged now b v = purge_loop-Purged now b.cooling b.cooldowns v.listed v.queue

purge-active : (now : ℕ) (b : UdhReferenceBucket) → (purge_udh_cooldowns now b).active ≡ b.active
unfolding purge_udh_cooldowns
purge-active now b = refl

false_of_not : (b : Bool) → (b ≡ true → ⊥) → b ≡ false
false_of_not true h = absurd (h refl)
false_of_not false h = refl

-- In a bucket in order the purge ends the cooldown of the references that have a deadline by now,
-- and of no other, changes no active reference, and leaves the bucket in order.
pub purge_udh_cooldowns_total :
    (now : ℕ) (b : UdhReferenceBucket)
    → BucketInv b
    → BucketInv (purge_udh_cooldowns now b)
      × ((purge_udh_cooldowns now b).active ≡ b.active)
      × ((r : ℕ)
          → (has (purge_udh_cooldowns now b).cooling r ≡ true)
            ↔ ((has b.cooling r ≡ true) × NotBefore (now + 1) r b.cooldowns))
purge_udh_cooldowns_total now b v = (
  record {
    apart = λ r a.
        false_of_not _
          (λ c. true-≢false (sym ((p.cools r).0 c).0 ∙ v.apart r (rw (purge-active now b) at a)));
    listed = p.listed;
    queue = p.queue;
  },
  purge-active now b,
  p.cools,
)
  where
    p : ExpiredBy now b (purge_udh_cooldowns now b)
    p = purged now b v

pub purge-Held :
    (now : ℕ) (b : UdhReferenceBucket) (r deadline : ℕ)
    → BucketInv b
    → now < deadline
    → Held b r deadline
    → Held (purge_udh_cooldowns now b) r deadline
unfolding NotBefore
purge-Held now b r deadline v lt h = record {
  cools = (p.cools r).1 (h.cools, later);
  not_before = p.not_before deadline r h.not_before;
}
  where
    p : ExpiredBy now b (purge_udh_cooldowns now b)
    p = purged now b v

    later : NotBefore (now + 1) r b.cooldowns
    later =
        All-map (λ (e : Cooldown). e.1 ≡ r → deadline ≤ e.0)
          (λ (e : Cooldown). e.1 ≡ r → now + 1 ≤ e.0) b.cooldowns
          (λ e le same. omega (arith, le same, lt)) h.not_before
