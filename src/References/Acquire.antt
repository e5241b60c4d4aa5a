-- ===== src/References/Acquire.antt =====
-- src/connection.rs: `UdhReferencePool::try_acquire`, the reference that it finds and the buckets that it leaves.
use mathlib.Core.Path.{subst}
use cmppprotocol.Prelude.{
  ℕ, zero, suc, ◌+◌, ◌-◌, ◌%◌, ◌<◌, ◌≡◌, ◌⊎◌, inl, inr, refl, sym, ap, ◌∙◌, List, [], ◌∷◌, none,
  some, Bool, true, false, ◌||◌, ◌==◌, leb, arith, Bool-cases, ==_iff, ==_refl,
}
use cmppprotocol.Sequence.Registry.{contains}
use cmppprotocol.References.{
  UdhReferencePool, UdhReferenceLease, udh_reference_is_set, purge_udh_cooldowns, insert_sorted,
  sort, dedup, on_buckets, free_in, scan, activate, hand_out, try_acquire,
}

contains-insert_sorted :
    (x : ℕ) (l : List ℕ) (b : ℕ) → contains (insert_sorted x l) b ≡ (x == b || contains l b)
unfolding contains insert_sorted
contains-insert_sorted x [] b = refl
contains-insert_sorted x (y ∷ ys) b = elim (Bool-cases (leb x y)) [
  | inl e ↦ rw e refl
  | inr e ↦
      rw e (
        ap (◌||◌ (y == b)) (contains-insert_sorted x ys b) ∙ swap (y == b) (x == b) (contains ys b))
]
  where
    swap : (p q r : Bool) → (p || (q || r)) ≡ (q || (p || r))
    swap true true r = refl
    swap true false r = refl
    swap false q r = refl

contains-sort : (l : List ℕ) (b : ℕ) → contains (sort l) b ≡ contains l b
unfolding contains sort
contains-sort [] b = refl
contains-sort (x ∷ xs) b =
    contains-insert_sorted x (sort xs) b ∙ ap (◌||◌ (x == b)) (contains-sort xs b)

contains-dedup : (l : List ℕ) (b : ℕ) → contains (dedup l) b ≡ contains l b
unfolding contains dedup
contains-dedup [] b = refl
contains-dedup (x ∷ []) b = refl
contains-dedup (x ∷ y ∷ ys) b = elim (Bool-cases (x == y)) [
  | inl e ↦
      let same : x ≡ y = (==_iff x y).0 e in
      rw e (contains-dedup (y ∷ ys) b ∙ rw same (sym (or_twice (y == b) (contains ys b))))
  | inr e ↦ rw e (ap (◌||◌ (x == b)) (contains-dedup (y ∷ ys) b))
]
  where
    or_twice : (p q : Bool) → (p || (p || q)) ≡ (p || q)
    or_twice true q = refl
    or_twice false q = refl

-- The buckets of a lease are those that were asked for.
pub contains-ids : (l : List ℕ) (b : ℕ) → contains (dedup (sort l)) b ≡ contains l b
contains-ids l b = contains-dedup (sort l) b ∙ contains-sort l b

-- No bucket of these has the reference.
unfoldable pub FreeIn : UdhReferencePool → List ℕ → ℕ → Type 0
FreeIn p ids r = (b : ℕ) → contains ids b ≡ true → udh_reference_is_set (p b) r ≡ false

-- Some bucket of these has the reference.
unfoldable pub TakenIn : UdhReferencePool → List ℕ → ℕ → Type 0
TakenIn p ids r = (b : ℕ) × (contains ids b ≡ true) × (udh_reference_is_set (p b) r ≡ true)

free_in-FreeIn :
    (p : UdhReferencePool) (ids : List ℕ) (r : ℕ)
    → ((free_in p ids r ≡ true) × FreeIn p ids r) ⊎ ((free_in p ids r ≡ false) × TakenIn p ids r)
unfolding free_in contains FreeIn TakenIn
free_in-FreeIn p [] r = inl (refl, λ b h. cc)
free_in-FreeIn p (x ∷ xs) r = elim (Bool-cases (udh_reference_is_set (p x) r)) [
  | inl set ↦ inr (rw set refl, (x, ground (arith, ==_refl x), set))
  | inr clear ↦ elim (free_in-FreeIn p xs r) [
    | inl (e, all) ↦ inl (rw (clear, e) refl, λ b h. member clear b h all)
    | inr (e, (b, c, set)) ↦ inr (rw (clear, e) refl, (b, ground (arith, c), set))
  ]
]
  where
    member :
        udh_reference_is_set (p x) r ≡ false
        → (b : ℕ) → (x == b || contains xs b) ≡ true
        → ((b : ℕ) → contains xs b ≡ true → udh_reference_is_set (p b) r ≡ false)
        → udh_reference_is_set (p b) r ≡ false
    member clear b h all = elim (Bool-cases (x == b)) [
      | inl e ↦
          let same : x ≡ b = (==_iff x b).0 e in
          subst (λ (y : ℕ). udh_reference_is_set (p y) r ≡ false) same clear
      | inr e ↦ all b (ground (arith, e, h))
    ]

-- The scan ends at the first reference, in its order, that is free in all the buckets.
scan_total :
    (p : UdhReferencePool) (ids : List ℕ) (preferred offset n : ℕ)
    → ((k : ℕ) × (k < n)
        × (scan p ids preferred offset n ≡ some ((preferred + (offset + k)) % 256))
        × FreeIn p ids ((preferred + (offset + k)) % 256)
        × ((j : ℕ) → j < k → TakenIn p ids ((preferred + (offset + j)) % 256)))
      ⊎ ((scan p ids preferred offset n ≡ none)
          × ((j : ℕ) → j < n → TakenIn p ids ((preferred + (offset + j)) % 256)))
unfolding scan
scan_total p ids preferred offset zero = inr (refl, λ j h. absurd (omega arith))
scan_total p ids preferred offset (suc n) =
    elim (free_in-FreeIn p ids ((preferred + offset) % 256)) [
      | inl (e, free) ↦ inl (
        0,
        omega arith,
        rw (e, scan) (ap some first),
        subst (FreeIn p ids) first free,
        λ j h. absurd (omega arith),
      )
      | inr (e, taken) ↦ elim (scan_total p ids preferred (offset + 1) n) [
        | inl (k, lt, r, free, before) ↦ inl (
          suc k,
          omega arith,
          rw (e, scan) (r ∙ ap some (at k)),
          subst (FreeIn p ids) (at k) free,
          λ j h. shifted taken k before j (omega arith),
        )
        | inr (r, all) ↦ inr (rw (e, scan) r, λ j h. shifted taken n all j (omega arith))
      ]
    ]
  where
    first : (preferred + offset) % 256 ≡ (preferred + (offset + 0)) % 256
    first = omega arith

    at : (k : ℕ) → (preferred + (offset + 1 + k)) % 256 ≡ (preferred + (offset + suc k)) % 256
    at k = omega arith

    shifted :
        TakenIn p ids ((preferred + offset) % 256)
        → (m : ℕ) → ((j : ℕ) → j < m → TakenIn p ids ((preferred + (offset + 1 + j)) % 256))
        → (j : ℕ) → j < suc m
        → TakenIn p ids ((preferred + (offset + j)) % 256)
    shifted taken m all zero h = subst (TakenIn p ids) first taken
    shifted taken m all (suc j) h = subst (TakenIn p ids) (at j) (all j (omega arith))

-- The pool behind the purge of an acquisition.
abbrev pub purged_for : List ℕ → ℕ → UdhReferencePool → UdhReferencePool
purged_for asked now p = on_buckets (dedup (sort asked)) (purge_udh_cooldowns now) p

abbrev pub fresh_lease : List ℕ → ℕ → ℕ → UdhReferenceLease
fresh_lease asked reference cooldown = record {
  bucket_ids = dedup (sort asked);
  reference = reference;
  cooldown = cooldown;
  exposed = false;
}

-- An acquisition leases the first reference, from the preferred one on and back from 255 to 0, that
-- is free in all the buckets behind their purge, and makes it active there; or it answers none, and
-- then each of the 256 references is taken in some of the buckets.
pub try_acquire_total :
    (p : UdhReferencePool) (asked : List ℕ) (preferred cooldown now : ℕ)
    → ((k : ℕ) × (k < 256)
        × (try_acquire p asked preferred cooldown now ≡ (
          some (fresh_lease asked ((preferred + k) % 256) cooldown),
          on_buckets
              (dedup (sort asked))
              (activate ((preferred + k) % 256))
              (purged_for asked now p),
        ))
        × FreeIn (purged_for asked now p) asked ((preferred + k) % 256)
        × ((j : ℕ) → j < k → TakenIn (purged_for asked now p) asked ((preferred + j) % 256)))
      ⊎ ((try_acquire p asked preferred cooldown now ≡ (none, purged_for asked now p))
          × ((r : ℕ) → r < 256 → TakenIn (purged_for asked now p) asked r))
unfolding try_acquire hand_out FreeIn TakenIn
try_acquire_total p asked preferred cooldown now = elim (scan_total q ids preferred 0 256) [
  | inl (k, lt, r, free, before) ↦ inl (
    k,
    lt,
    ap (hand_out q ids cooldown) (r ∙ ap some (at k)),
    λ b h. subst (FreeIn q ids) (at k) free b (contains-ids asked b ∙ h),
    λ j h. of_asked (at j) (before j h),
  )
  | inr (r, all) ↦ inr (
    ap (hand_out q ids cooldown) r,
    λ r h. of_asked (hit r h) (all ((r + 256 - preferred % 256) % 256) (omega arith)),
  )
]
  where
    ids : List ℕ
    ids = dedup (sort asked)

    q : UdhReferencePool
    q = purged_for asked now p

    at : (k : ℕ) → (preferred + (0 + k)) % 256 ≡ (preferred + k) % 256
    at k = omega arith

    hit : (r : ℕ) → r < 256 → (preferred + (0 + (r + 256 - preferred % 256) % 256)) % 256 ≡ r
    hit r h = omega arith

    of_asked : {r s : ℕ} → r ≡ s → TakenIn q ids r → TakenIn q asked s
    of_asked e t = subst (TakenIn q asked) e (t.0, sym (contains-ids asked t.0) ∙ t.1, t.2)
