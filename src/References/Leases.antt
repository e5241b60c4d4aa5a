-- ===== src/References/Leases.antt =====
-- src/connection.rs: the pool of references and the leases that live, over any course of acquisitions, exposures
-- and drops (`impl Drop for UdhReferenceLease`) by any connections.
use mathlib.Core.Path.{subst}
use cmppprotocol.Prelude.{
  true-≢false, ℕ, max, ◌≡◌, ◌≢◌, ◌⊎◌, inl, inr, sym, ap, ◌∙◌, List, Option, none, some, true, ◌==◌,
  if◌then◌else◌, Bool-cases, ==_iff,
}
use cmppprotocol.Sequence.Registry.{contains}
use cmppprotocol.References.{
  Bitmap, UdhReferencePool, UdhReferenceLease, new_pool, try_acquire, release_lease, mark_exposed,
}
use cmppprotocol.References.Bits.{has, has_none}
use cmppprotocol.References.Cooldowns.{Listed, Queue}
use cmppprotocol.References.Pools.{
  Active, Acquisition, try_acquire-Acquisition, try_acquire-none, release_lease-Ordered,
  release_lease-active,
}
use cmppprotocol.References.Purged.{Ordered, purged_for-Ordered, purged_for-active}
use cmppprotocol.References.Acquire.{purged_for}

-- The leases that live, under names that their holders know.
abbrev pub Leases : Type 0
Leases = ℕ → Option UdhReferenceLease

abbrev pub set_lease : Leases → ℕ → Option UdhReferenceLease → Leases
set_lease l i o j = if j == i then o else l j

-- The clock is the latest time that an operation has read.
pub record Shared : Type 0 where
  pub pool : UdhReferencePool
  pub leases : Leases
  pub clock : ℕ

abbrev pub new_shared : Shared
new_shared = record { pool = new_pool; leases = λ i. none; clock = 0 }

-- One step: an acquisition that gives a lease or none, an exposure, or the drop of a lease. An operation reads the
-- clock before it has its locks, so the times need not be in order. `last` is the last instant of the clock.
pub data Step (last : ℕ) (s t : Shared) : Type 0 where
  acquired :
      (i : ℕ) (asked : List ℕ) (preferred cooldown now : ℕ) (l : UdhReferenceLease)
      (p : UdhReferencePool)
      → s.leases i ≡ none
      → try_acquire s.pool asked preferred cooldown now ≡ (some l, p)
      → t ≡ record { pool = p; leases = set_lease s.leases i (some l); clock = max s.clock now }
      → Step last s t
  refused :
      (asked : List ℕ) (preferred cooldown now : ℕ) (p : UdhReferencePool)
      → try_acquire s.pool asked preferred cooldown now ≡ (none, p)
      → t ≡ record { pool = p; leases = s.leases; clock = max s.clock now }
      → Step last s t
  exposing :
      (i : ℕ) (l : UdhReferenceLease)
      → s.leases i ≡ some l
      → t ≡ record {
        pool = s.pool;
        leases = set_lease s.leases i (some (mark_exposed l));
        clock = s.clock;
      }
      → Step last s t
  dropped :
      (i now : ℕ) (l : UdhReferenceLease)
      → s.leases i ≡ some l
      → t ≡ record {
        pool = release_lease last s.pool l now;
        leases = set_lease s.leases i none;
        clock = max s.clock now;
      }
      → Step last s t

pub data Steps (last : ℕ) (s : Shared) : Shared → Type 0 where
  done : Steps last s s
  next : {t u : Shared} → Steps last s t → Step last t u → Steps last s u

-- The leases have different references, if they share a bucket.
abbrev pub Apart : UdhReferenceLease → UdhReferenceLease → Type 0
Apart l m =
    (b : ℕ)
    → contains l.bucket_ids b ≡ true
    → contains m.bucket_ids b ≡ true
    → l.reference ≢ m.reference

-- The clock is the latest time that an operation has read.
pub record SharedInv (s : Shared) : Type 0 where
  pub ordered : Ordered s.pool
  pub active : (i : ℕ) (l : UdhReferenceLease) → s.leases i ≡ some l → Active s.pool l
  pub apart :
      (i j : ℕ) (l m : UdhReferenceLease)
      → i ≢ j
      → s.leases i ≡ some l
      → s.leases j ≡ some m
      → Apart l m

abbrev pub lease_step :
    (s : Shared) (i : ℕ) (o : Option UdhReferenceLease) (p : UdhReferencePool) (c : ℕ) → Shared
lease_step s i o p c = record { pool = p; leases = set_lease s.leases i o; clock = c }

-- Under a changed name stands the new lease, elsewhere what stood there.
set_lease_cases :
    (ls : Leases) (i j : ℕ) (o : Option UdhReferenceLease) (m : UdhReferenceLease)
    → set_lease ls i o j ≡ some m
    → ((j ≡ i) × (o ≡ some m)) ⊎ ((j ≢ i) × (ls j ≡ some m))
set_lease_cases ls i j o m h = elim (Bool-cases (j == i)) [
  | inl e ↦ inl ((==_iff j i).0 e, (rw e at h))
  | inr e ↦ inr (λ same. true-≢false (sym ((==_iff j i).1 same) ∙ e), (rw e at h))
]

-- A step of one lease keeps the invariant, if the new pool is in order and keeps active what the other
-- leases hold, and a lease put under the name is active and apart from the others.
changed-SharedInv :
    (s : Shared) (i : ℕ) (o : Option UdhReferenceLease) (p : UdhReferencePool) (c : ℕ)
    → SharedInv s
    → Ordered p
    → ((j : ℕ) (m : UdhReferenceLease) → j ≢ i → s.leases j ≡ some m → Active p m)
    → ((l : UdhReferenceLease) → o ≡ some l → Active p l)
    → ((j : ℕ) (l m : UdhReferenceLease) → j ≢ i → o ≡ some l → s.leases j ≡ some m → Apart l m)
    → SharedInv (lease_step s i o p c)
changed-SharedInv s i o p c v ordered others mine new = record {
  ordered = ordered;
  active = λ j m h. elim (set_lease_cases s.leases i j o m h) [
    | inl (e, here) ↦ mine m here
    | inr (n, there) ↦ others j m n there
  ];
  apart = λ j k l m n h g. elim (set_lease_cases s.leases i j o l h) [
    | inl (e, here) ↦ elim (set_lease_cases s.leases i k o m g) [
      | inl (e', here') ↦ absurd (n (e ∙ sym e'))
      | inr (n', there') ↦ new k l m n' here there'
    ]
    | inr (n', there) ↦ elim (set_lease_cases s.leases i k o m g) [
      | inl (e', here') ↦ Apart-sym m l (new j m l n' here' there)
      | inr (n'', there') ↦ v.apart j k l m n there there'
    ]
  ];
}
  where
    Apart-sym : (l m : UdhReferenceLease) → Apart l m → Apart m l
    Apart-sym l m a b h g e = a b g h (sym e)

acquired-SharedInv :
    (s : Shared) (i : ℕ) (p : UdhReferencePool) (now c : ℕ) (l : UdhReferenceLease)
    → SharedInv s
    → Acquisition now s.pool l p
    → SharedInv (lease_step s i (some l) p c)
unfolding Active
acquired-SharedInv s i p now c l v a =
    changed-SharedInv s i (some l) p c v a.ordered
      (λ j m n h b e. a.grows b m.reference (v.active j m h b e))
      (λ k e. subst (Active p) (lease_of e) a.mine)
      (λ j k m n e h. subst (λ (x : UdhReferenceLease). Apart x m) (lease_of e) (apart j m h))
  where
    lease_of : {k : UdhReferenceLease} → some l ≡ some k → l ≡ k
    lease_of e = cc

    apart : (j : ℕ) (m : UdhReferenceLease) → s.leases j ≡ some m → Apart l m
    apart j m h b mine theirs same =
        true-≢false
          (sym (v.active j m h b theirs) ∙ ap (has (s.pool b).active) (sym same) ∙ a.fresh b mine)

refused-SharedInv :
    (s : Shared) (asked : List ℕ) (now c : ℕ)
    → SharedInv s
    → SharedInv (record { pool = purged_for asked now s.pool; leases = s.leases; clock = c })
unfolding Active
refused-SharedInv s asked now c v = record {
  ordered = purged_for-Ordered asked now s.pool v.ordered;
  active = λ i l h b e.
      ap (λ (m : Bitmap). has m l.reference) (purged_for-active asked now s.pool b v.ordered)
      ∙ v.active i l h b e;
  apart = v.apart;
}

exposing-SharedInv :
    (s : Shared) (i : ℕ) (l : UdhReferenceLease)
    → s.leases i ≡ some l
    → SharedInv s
    → SharedInv (lease_step s i (some (mark_exposed l)) s.pool s.clock)
unfolding Active mark_exposed
exposing-SharedInv s i l h v =
    changed-SharedInv s i (some (mark_exposed l)) s.pool s.clock v v.ordered
      (λ j m n g. v.active j m g) (λ k e. subst (Active s.pool) (lease_of e) (v.active i l h))
      (λ j k m n e g.
        subst (λ (x : UdhReferenceLease). Apart x m) (lease_of e)
          (v.apart i j l m (λ same. n (sym same)) h g))
  where
    lease_of : {m k : UdhReferenceLease} → some m ≡ some k → m ≡ k
    lease_of e = cc

dropped-SharedInv :
    (last : ℕ) (s : Shared) (i now c : ℕ) (l : UdhReferenceLease)
    → s.leases i ≡ some l
    → SharedInv s
    → SharedInv (lease_step s i none (release_lease last s.pool l now) c)
unfolding Active
dropped-SharedInv last s i now c l h v =
    changed-SharedInv s i none (release_lease last s.pool l now) c v
      (release_lease-Ordered last now s.pool l v.ordered (v.active i l h))
      (λ j m n g b e.
        release_lease-active last now s.pool l b m.reference
          (λ c. v.apart i j l m (λ same. n (sym same)) h g b c e) (v.active j m g b e))
      (λ k e. absurd (none-≢some e)) (λ j k m n e g. absurd (none-≢some e))
  where
    none-≢some : {k : UdhReferenceLease} → none ≢ some k
    none-≢some e = cc

pub Step-SharedInv : (last : ℕ) (s t : Shared) → Step last s t → SharedInv s → SharedInv t
Step-SharedInv last s t (acquired i asked preferred cooldown now l p free h e) v =
    subst SharedInv (sym e) (
      acquired-SharedInv s i p now (max s.clock now) l v
        (try_acquire-Acquisition s.pool p asked preferred cooldown now l v.ordered h))
Step-SharedInv last s t (refused asked preferred cooldown now p h e) v = subst SharedInv (sym e) (
    subst
      (λ (q : UdhReferencePool).
        SharedInv (record { pool = q; leases = s.leases; clock = max s.clock now }))
      (try_acquire-none s.pool p asked preferred cooldown now h)
      (refused-SharedInv s asked now (max s.clock now) v))
Step-SharedInv last s t (exposing i l h e) v =
    subst SharedInv (sym e) (exposing-SharedInv s i l h v)
Step-SharedInv last s t (dropped i now l h e) v =
    subst SharedInv (sym e) (dropped-SharedInv last s i now (max s.clock now) l h v)

pub Steps-SharedInv : (last : ℕ) (s t : Shared) → Steps last s t → SharedInv s → SharedInv t
Steps-SharedInv last s _ done v = v
Steps-SharedInv last s u (next {t} r st) v =
    Step-SharedInv last t u st (Steps-SharedInv last s t r v)

pub new_shared-SharedInv : SharedInv new_shared
unfolding Listed Queue
new_shared-SharedInv = record {
  ordered = λ b. record { apart = λ r a. has_none r; listed = tt; queue = tt };
  active = λ i l h. cc;
  apart = λ i j l m n h g. cc;
}
