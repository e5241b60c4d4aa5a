-- ===== src/References/Pools.antt =====
-- src/connection.rs: what an acquisition and a release do to all the buckets of the pool.
use mathlib.Core.Path.{subst}
use cmppprotocol.Prelude.{
  true-≢false, ℕ, ◌+◌, ◌%◌, ◌<◌, leb, ◌≡◌, ◌≢◌, inl, inr, sym, ap, ◌∙◌, List, Option, none, some,
  Bool, true, false, ◌||◌, arith, Bool-cases, ==_refl,
}
use cmppprotocol.Sequence.Registry.{contains}
use cmppprotocol.References.{
  UdhReferenceBucket, UdhReferencePool, UdhReferenceLease, purge_udh_cooldowns, sort, dedup,
  on_buckets, activate, try_acquire, checked_add, release_in, release_lease,
}
use cmppprotocol.References.Bits.{has, has-set_udh_reference, udh_reference_is_set_iff}
use cmppprotocol.References.Buckets.{
  Until, release_in-Held, release_in-keeps_Held, activate-BucketInv, release_in-BucketInv,
  release_in-active,
}
use cmppprotocol.References.Purge.{BucketInv, Held}
use cmppprotocol.References.Acquire.{
  FreeIn, contains-ids, purged_for, fresh_lease, try_acquire_total,
}
use cmppprotocol.References.Purged.{
  Ordered, on_buckets_by, purged_for-Ordered, purged_for-active, purged_for-Held,
}

-- The reference of the lease is active in its buckets.
unfoldable pub Active : UdhReferencePool → UdhReferenceLease → Type 0
Active p l = (b : ℕ) → contains l.bucket_ids b ≡ true → has (p b).active l.reference ≡ true

-- What an acquisition does: the lease's reference was active in none of its buckets and cools down in
-- none behind the purge; it is active in all of them now, what was active still is, and what cools still does.
pub record Acquisition (now : ℕ) (p : UdhReferencePool) (l : UdhReferenceLease)
    (p' : UdhReferencePool) : Type 0 where
  pub ordered : Ordered p'
  pub grows : (b x : ℕ) → has (p b).active x ≡ true → has (p' b).active x ≡ true
  pub mine : Active p' l
  pub fresh : (b : ℕ) → contains l.bucket_ids b ≡ true → has (p b).active l.reference ≡ false
  pub warm :
      (b : ℕ)
      → contains l.bucket_ids b ≡ true
      → has (purge_udh_cooldowns now (p b)).cooling l.reference ≡ false
  pub held : (b x d : ℕ) → now < d → Held (p b) x d → Held (p' b) x d

module _ (p : UdhReferencePool) (o : Ordered p) (asked : List ℕ) (cooldown now r : ℕ) where
  abbrev ids : List ℕ
  ids = dedup (sort asked)

  abbrev q : UdhReferencePool
  q = purged_for asked now p

  abbrev handed : UdhReferencePool
  handed = on_buckets ids (activate r) q

  idle :
      FreeIn q asked r
      → (b : ℕ) → contains ids b ≡ true
      → (has (q b).active r || has (q b).cooling r) ≡ false
  unfolding FreeIn
  idle free b h = sym (udh_reference_is_set_iff (q b) r) ∙ free b (sym (contains-ids asked b) ∙ h)

  handed-Acquisition : FreeIn q asked r → Acquisition now p (fresh_lease asked r cooldown) handed
  unfolding Active
  handed-Acquisition free = record {
    ordered = λ b.
        on_buckets_by BucketInv ids (activate r) q b
          (λ e.
            activate-BucketInv (q b) r (udh_reference_is_set_iff (q b) r ∙ idle free b e)
              (purged_for-Ordered asked now p o b))
          (λ e. purged_for-Ordered asked now p o b);
    grows = λ b x h.
        on_buckets_by (λ c. has c.active x ≡ true) ids (activate r) q b
          (λ e. has-set_udh_reference (q b).active r x ∙ ground (arith, still b x h))
          (λ e. still b x h);
    mine = λ b h.
        on_buckets_by (λ c. has c.active r ≡ true) ids (activate r) q b
          (λ e. has-set_udh_reference (q b).active r r ∙ ground (arith, ==_refl r))
          (λ e. absurd (true-≢false (sym h ∙ e)));
    fresh = λ b h.
        ap (λ m. has m r) (sym (purged_for-active asked now p b o)) ∙ ground (arith, idle free b h);
    warm = λ b h. warm b h (idle free b h);
    held = λ b x d lt h.
        on_buckets_by (λ c. Held c x d) ids (activate r) q b
          (λ e.
            let k = still_held b x d lt h in record { cools = k.cools; not_before = k.not_before })
          (λ e. still_held b x d lt h);
  }
    where
      still_held : (b x d : ℕ) → now < d → Held (p b) x d → Held (q b) x d
      still_held b x d lt h = purged_for-Held asked now p b x d o lt h

      still : (b x : ℕ) → has (p b).active x ≡ true → has (q b).active x ≡ true
      still b x h = ap (λ m. has m x) (purged_for-active asked now p b o) ∙ h

      warm :
          (b : ℕ)
          → contains ids b ≡ true
          → (has (q b).active r || has (q b).cooling r) ≡ false
          → has (purge_udh_cooldowns now (p b)).cooling r ≡ false
      warm b h k =
          let k' : (has (purge_udh_cooldowns now (p b)).active r
                || has (purge_udh_cooldowns now (p b)).cooling r)
              ≡ false =
            (rw h at k) in
          ground (arith, k')

-- What the result says of the pool before.
abbrev Outcome : ℕ → UdhReferencePool → Option UdhReferenceLease × UdhReferencePool → Type 0
Outcome now p (none, p') = Unit
Outcome now p (some l, p') = Acquisition now p l p'

pub try_acquire-Acquisition :
    (p p' : UdhReferencePool) (asked : List ℕ) (preferred cooldown now : ℕ) (l : UdhReferenceLease)
    → Ordered p
    → try_acquire p asked preferred cooldown now ≡ (some l, p')
    → Acquisition now p l p'
try_acquire-Acquisition p p' asked preferred cooldown now l o h =
    elim (try_acquire_total p asked preferred cooldown now) [
      | inl (k, lt, e, free, before) ↦
          subst (Outcome now p) (sym e ∙ h)
            (handed-Acquisition p o asked cooldown now ((preferred + k) % 256) free)
      | inr (e, taken) ↦
          absurd
            (none-≢some (ap (λ (x : Option UdhReferenceLease × UdhReferencePool). x.0) (sym e ∙ h)))
    ]
  where
    none-≢some : {m : UdhReferenceLease} → none ≢ some m
    none-≢some k = cc

pub try_acquire-none :
    (p p' : UdhReferencePool) (asked : List ℕ) (preferred cooldown now : ℕ)
    → try_acquire p asked preferred cooldown now ≡ (none, p')
    → purged_for asked now p ≡ p'
try_acquire-none p p' asked preferred cooldown now h =
    elim (try_acquire_total p asked preferred cooldown now) [
      | inl (k, lt, e, free, before) ↦
          absurd
            (some-≢none (ap (λ (x : Option UdhReferenceLease × UdhReferencePool). x.0) (sym e ∙ h)))
      | inr (e, taken) ↦ ap (λ (x : Option UdhReferenceLease × UdhReferencePool). x.1) (sym e ∙ h)
    ]
  where
    some-≢none : {m : UdhReferenceLease} → some m ≢ none
    some-≢none k = cc

module _ (last now : ℕ) (p : UdhReferencePool) (l : UdhReferenceLease) where
  abbrev freed : UdhReferenceBucket → UdhReferenceBucket
  freed = release_in l.exposed l.reference (checked_add last now l.cooldown)

  pub release_lease-Ordered : Ordered p → Active p l → Ordered (release_lease last p l now)
  unfolding release_lease Active
  release_lease-Ordered o a b =
      on_buckets_by BucketInv l.bucket_ids freed p b
        (λ e.
          release_in-BucketInv (p b) l.exposed l.reference (checked_add last now l.cooldown) (a b e)
            (o b))
        (λ e. o b)

  -- What else was active still is.
  pub release_lease-active :
      (b x : ℕ)
      → (contains l.bucket_ids b ≡ true → l.reference ≢ x)
      → has (p b).active x ≡ true
      → has (release_lease last p l now b).active x ≡ true
  unfolding release_lease
  release_lease-active b x other a =
      on_buckets_by (λ c. has c.active x ≡ true) l.bucket_ids freed p b
        (λ e.
          release_in-active (p b) l.exposed l.reference (checked_add last now l.cooldown) x
          ∙ ground (arith, a, other e))
        (λ e. a)

  -- What cools still does.
  pub release_lease-Held :
      (b x d : ℕ)
      → Ordered p
      → Active p l
      → Held (p b) x d
      → Held (release_lease last p l now b) x d
  unfolding release_lease Active
  release_lease-Held b x d o a h =
      on_buckets_by (λ c. Held c x d) l.bucket_ids freed p b
        (λ e.
          release_in-keeps_Held (p b) l.exposed l.reference (checked_add last now l.cooldown) x d
            (a b e) (o b) h)
        (λ e. h)

  until : Until (now + l.cooldown) (checked_add last now l.cooldown)
  unfolding checked_add
  until = elim (Bool-cases (leb (now + l.cooldown) last)) [
    | inl e ↦ rw e (omega arith)
    | inr e ↦ rw e tt
  ]

  -- An exposed lease's reference cools in its buckets for the cooldown at least.
  pub release_lease-cools :
      (b : ℕ)
      → Ordered p
      → Active p l
      → l.exposed ≡ true
      → contains l.bucket_ids b ≡ true
      → Held (release_lease last p l now b) l.reference (now + l.cooldown)
  unfolding release_lease Active
  release_lease-cools b o a exposed e =
      on_buckets_by (λ c. Held c l.reference (now + l.cooldown)) l.bucket_ids freed p b
        (λ e.
          subst
            (λ (x : Bool).
              Held (release_in x l.reference (checked_add last now l.cooldown) (p b)) l.reference
                (now + l.cooldown))
            (sym exposed)
            (release_in-Held (p b) l.reference (now + l.cooldown) (checked_add last now l.cooldown)
              (a b e) (o b) until))
        (λ no. absurd (true-≢false (sym e ∙ no)))
