-- ===== src/References/Cooling.antt =====
-- src/connection.rs: the cooldown of a reference over the course of the pool.
use mathlib.Core.Path.{subst}
use cmppprotocol.Prelude.{
  true-≢false, ℕ, max, ◌+◌, ◌<◌, ◌≡◌, ◌≢◌, refl, sym, ap, ◌∙◌, List, none, some, true, arith,
}
use cmppprotocol.Sequence.Registry.{contains}
use cmppprotocol.References.{
  UdhReferencePool, UdhReferenceLease, purge_udh_cooldowns, try_acquire, release_lease,
}
use cmppprotocol.References.Bits.{has}
use cmppprotocol.References.Purge.{Held, purge-Held}
use cmppprotocol.References.Pools.{
  try_acquire-Acquisition, try_acquire-none, release_lease-Held, release_lease-cools,
}
use cmppprotocol.References.Purged.{purged_for-Held}
use cmppprotocol.References.Leases.{
  Shared, Step, acquired, refused, exposing, dropped, Steps, done, next, SharedInv, lease_step,
  new_shared, new_shared-SharedInv, Step-SharedInv, Steps-SharedInv,
}

module _ (b r d : ℕ) where
  -- The reference cools in the bucket, if the deadline has not come.
  abbrev StillHeld : Shared → Type 0
  StillHeld s = s.clock < d → Held (s.pool b) r d

  Step-Held : (last : ℕ) (s t : Shared) → Step last s t → SharedInv s → StillHeld s → StillHeld t
  Step-Held last s t (acquired i asked preferred cooldown now l p free h e) v k =
      subst StillHeld (sym e) (λ lt.
        (try_acquire-Acquisition s.pool p asked preferred cooldown now l v.ordered h).held b r d
          (omega (arith, lt)) (k (omega (arith, lt))))
  Step-Held last s t (refused asked preferred cooldown now p h e) v k =
      subst StillHeld (sym e) (λ lt.
        subst (λ (q : UdhReferencePool). Held (q b) r d)
          (try_acquire-none s.pool p asked preferred cooldown now h)
          (purged_for-Held asked now s.pool b r d v.ordered (omega (arith, lt))
            (k (omega (arith, lt)))))
  Step-Held last s t (exposing i l h e) v k = subst StillHeld (sym e) k
  Step-Held last s t (dropped i now l h e) v k = subst StillHeld (sym e) (λ lt.
      release_lease-Held last now s.pool l b r d v.ordered (v.active i l h) (k (omega (arith, lt))))

  Steps-Held : (last : ℕ) (s t : Shared) → Steps last s t → SharedInv s → StillHeld s → StillHeld t
  Steps-Held last s _ done v k = k
  Steps-Held last s u (next {t} steps step) v k =
      Step-Held last t u step (Steps-SharedInv last s t steps v) (Steps-Held last s t steps v k)

-- In any course of the pool from its start on: when an exposed lease is dropped, an acquisition
-- behind it, whatever steps come between, gives no lease of its reference that shares a bucket with
-- it, as long as no operation has read a time at the end of its cooldown or later.
pub dropped-cools :
    (last : ℕ) (s t : Shared) (i now : ℕ) (l : UdhReferenceLease)
    → Steps last new_shared s
    → s.leases i ≡ some l
    → l.exposed ≡ true
    → Steps last (lease_step s i none (release_lease last s.pool l now) (max s.clock now)) t
    → (asked : List ℕ) (preferred cooldown later : ℕ) (m : UdhReferenceLease) (p : UdhReferencePool)
    → t.clock < now + l.cooldown
    → later < now + l.cooldown
    → try_acquire t.pool asked preferred cooldown later ≡ (some m, p)
    → (b : ℕ) → contains l.bucket_ids b ≡ true
    → contains m.bucket_ids b ≡ true
    → m.reference ≢ l.reference
dropped-cools last s t i now l before h exposed steps asked preferred cooldown later m p late lt got
      b mine theirs same =
    true-≢false (
      sym cold
      ∙ ap (has (purge_udh_cooldowns later (t.pool b)).cooling) (sym same)
      ∙ (try_acquire-Acquisition t.pool p asked preferred cooldown later m w.ordered got).warm b
          theirs)
  where
    v : SharedInv s
    v = Steps-SharedInv last new_shared s before new_shared-SharedInv

    s' : Shared
    s' = lease_step s i none (release_lease last s.pool l now) (max s.clock now)

    v' : SharedInv s'
    v' = Step-SharedInv last s s' (dropped i now l h refl) v

    w : SharedInv t
    w = Steps-SharedInv last s' t steps v'

    kept : StillHeld b l.reference (now + l.cooldown) t
    kept =
        Steps-Held b l.reference (now + l.cooldown) last s' t steps v'
          (λ k. release_lease-cools last now s.pool l b v.ordered (v.active i l h) exposed mine)

    cold : has (purge_udh_cooldowns later (t.pool b)).cooling l.reference ≡ true
    cold =
        (purge-Held later (t.pool b) l.reference (now + l.cooldown) (w.ordered b) lt
          (kept late)).cools
