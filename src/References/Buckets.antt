-- ===== src/References/Buckets.antt =====
-- src/connection.rs: a bucket of references in order, and what the purge, an acquisition and a release do to it.
use mathlib.Core.Path.{subst}
use cmppprotocol.Prelude.{
  true-≢false, ℕ, ◌≤◌, ◌≡◌, ◌≢◌, sym, ap, ◌∙◌, All, All-map, Option, none, some, Bool, true, false,
  ◌&&◌, ◌||◌, not, ◌==◌, arith, Bool-cases, ==_iff, ==_refl, inl, inr,
}
use cmppprotocol.References.{
  Cooldown, UdhReferenceBucket, udh_reference_is_set, set_udh_reference, activate, deactivate, cool,
  release_in,
}
use cmppprotocol.References.Bits.{
  has, has-set_udh_reference, has-clear_udh_reference, udh_reference_is_set_iff,
}
use cmppprotocol.References.Cooldowns.{Listed, NotBefore, push-Queue, push-Listed, push-NotBefore}
use cmppprotocol.References.Purge.{BucketInv, Held}

-- A free reference becomes active.
pub activate-BucketInv :
    (b : UdhReferenceBucket) (r : ℕ)
    → udh_reference_is_set b r ≡ false
    → BucketInv b
    → BucketInv (activate r b)
activate-BucketInv b r free v = record {
  apart = λ x a. apart x (sym (has-set_udh_reference b.active r x) ∙ a);
  listed = v.listed;
  queue = v.queue;
}
  where
    idle : (has b.active r || has b.cooling r) ≡ false
    idle = sym (udh_reference_is_set_iff b r) ∙ free

    apart : (x : ℕ) → (has b.active x || r == x) ≡ true → has b.cooling x ≡ false
    apart x a = elim (Bool-cases (r == x)) [
      | inl e ↦
          let same : r ≡ x = (==_iff r x).0 e in
          subst (λ (y : ℕ). has b.cooling y ≡ false) same (ground (arith, idle))
      | inr e ↦ v.apart x (ground (arith, a, e))
    ]

deactivate-BucketInv : (b : UdhReferenceBucket) (r : ℕ) → BucketInv b → BucketInv (deactivate r b)
deactivate-BucketInv b r v = record {
  apart = λ x a. v.apart x (ground (arith, sym (has-clear_udh_reference b.active r x) ∙ a));
  listed = v.listed;
  queue = v.queue;
}

-- A reference that is not active and does not cool down is put to cool.
cool-BucketInv :
    (b : UdhReferenceBucket) (r : ℕ) (deadline : Option ℕ)
    → has b.active r ≡ false
    → has b.cooling r ≡ false
    → BucketInv b
    → BucketInv (cool r deadline b)
unfolding cool Listed
cool-BucketInv b r deadline a c v = by_deadline deadline
  where
    apart : (x : ℕ) → has b.active x ≡ true → has (set_udh_reference b.cooling r) x ≡ false
    apart x h = elim (Bool-cases (r == x)) [
      | inl e ↦
          let same : r ≡ x = (==_iff r x).0 e in
          absurd (true-≢false (sym h ∙ ap (has b.active) (sym same) ∙ a))
      | inr e ↦ has-set_udh_reference b.cooling r x ∙ ground (arith, v.apart x h, e)
    ]

    kept : Listed (set_udh_reference b.cooling r) b.cooldowns
    kept =
        All-map (λ (e : Cooldown). has b.cooling e.1 ≡ true)
          (λ (e : Cooldown). has (set_udh_reference b.cooling r) e.1 ≡ true) b.cooldowns
          (λ e h. has-set_udh_reference b.cooling r e.1 ∙ ground (arith, h)) v.listed

    new : All (λ (e : Cooldown). e.1 ≢ r) b.cooldowns
    new =
        All-map (λ (e : Cooldown). has b.cooling e.1 ≡ true) (λ (e : Cooldown). e.1 ≢ r) b.cooldowns
          (λ e h same. true-≢false (sym h ∙ ap (has b.cooling) same ∙ c)) v.listed

    here : has (set_udh_reference b.cooling r) r ≡ true
    here = has-set_udh_reference b.cooling r r ∙ ground (arith, ==_refl r)

    by_deadline : (deadline : Option ℕ) → BucketInv (cool r deadline b)
    by_deadline none = record { apart = apart; listed = kept; queue = v.queue }
    by_deadline (some d) = record {
      apart = apart;
      listed = push-Listed (set_udh_reference b.cooling r) (d, r) b.cooldowns here kept;
      queue = push-Queue (d, r) b.cooldowns v.queue new;
    }

inactive : (b : UdhReferenceBucket) (r : ℕ) → has (deactivate r b).active r ≡ false
inactive b r = has-clear_udh_reference b.active r r ∙ ground (arith, ==_refl r)

-- The release of an active reference.
pub release_in-BucketInv :
    (b : UdhReferenceBucket) (exposed : Bool) (r : ℕ) (deadline : Option ℕ)
    → has b.active r ≡ true
    → BucketInv b
    → BucketInv (release_in exposed r deadline b)
unfolding release_in
release_in-BucketInv b false r deadline a v = deactivate-BucketInv b r v
release_in-BucketInv b true r deadline a v =
    cool-BucketInv (deactivate r b) r deadline (inactive b r) (v.apart r a)
      (deactivate-BucketInv b r v)

-- The references that are active behind a release are those before it but the released one.
pub release_in-active :
    (b : UdhReferenceBucket) (exposed : Bool) (r : ℕ) (deadline : Option ℕ) (x : ℕ)
    → has (release_in exposed r deadline b).active x ≡ (has b.active x && not (r == x))
unfolding release_in cool
release_in-active b false r deadline x = has-clear_udh_reference b.active r x
release_in-active b true r none x = has-clear_udh_reference b.active r x
release_in-active b true r (some d) x = has-clear_udh_reference b.active r x

-- The deadline is not before this one, or there is none.
abbrev pub Until : ℕ → Option ℕ → Type 0
Until d none = Unit
Until d (some deadline) = d ≤ deadline

-- The exposed reference cools until the deadline of its release.
pub release_in-Held :
    (b : UdhReferenceBucket) (r d : ℕ) (deadline : Option ℕ)
    → has b.active r ≡ true
    → BucketInv b
    → Until d deadline
    → Held (release_in true r deadline b) r d
unfolding release_in cool NotBefore Listed
release_in-Held b r d deadline a v until = by_deadline deadline until
  where
    here : has (set_udh_reference b.cooling r) r ≡ true
    here = has-set_udh_reference b.cooling r r ∙ ground (arith, ==_refl r)

    none_yet : NotBefore d r b.cooldowns
    none_yet =
        All-map (λ (e : Cooldown). has b.cooling e.1 ≡ true) (λ (e : Cooldown). e.1 ≡ r → d ≤ e.0)
          b.cooldowns
          (λ e h same. absurd (true-≢false (sym h ∙ ap (has b.cooling) same ∙ v.apart r a)))
          v.listed

    by_deadline : (deadline : Option ℕ) → Until d deadline → Held (release_in true r deadline b) r d
    by_deadline none u = record { cools = here; not_before = none_yet }
    by_deadline (some e) u = record {
      cools = here;
      not_before = push-NotBefore d r (e, r) b.cooldowns (λ same. u) none_yet;
    }

-- A release keeps what cools.
pub release_in-keeps_Held :
    (b : UdhReferenceBucket) (exposed : Bool) (r : ℕ) (deadline : Option ℕ) (x d : ℕ)
    → has b.active r ≡ true
    → BucketInv b
    → Held b x d
    → Held (release_in exposed r deadline b) x d
unfolding release_in cool
release_in-keeps_Held b exposed r deadline x d a v h = by_case exposed deadline
  where
    still : has (set_udh_reference b.cooling r) x ≡ true
    still = has-set_udh_reference b.cooling r x ∙ ground (arith, h.cools)

    other : r ≢ x
    other same = true-≢false (sym h.cools ∙ ap (has b.cooling) (sym same) ∙ v.apart r a)

    by_case : (exposed : Bool) (deadline : Option ℕ) → Held (release_in exposed r deadline b) x d
    by_case false deadline = record { cools = h.cools; not_before = h.not_before }
    by_case true none = record { cools = still; not_before = h.not_before }
    by_case true (some e) = record {
      cools = still;
      not_before = push-NotBefore d x (e, r) b.cooldowns (λ same. absurd (other same)) h.not_before;
    }
