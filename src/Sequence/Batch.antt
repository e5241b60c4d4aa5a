-- ===== src/Sequence/Batch.antt =====
-- src/connection.rs, `reserve_batch`: all of a run of numbers, or none of them.
use cmppprotocol.Prelude.{
  ℕ, zero, suc, ◌+◌, ◌%◌, ◌^◌, ◌≤◌, ◌<◌, ◌≡◌, ◌≢◌, ◌↔◌, ◌⊎◌, inl, inr, refl, sym, ◌∙◌, List, [],
  ◌∷◌, ◌++◌, All, Option, none, some, Bool, true, false, ◌&&◌, ◌||◌, ltb, leb, ◌==◌, arith, ltb→lt,
  ltb→le, Bool-cases, ==_iff,
}
use cmppprotocol.Sequence.{retired_sequence_contains}
use cmppprotocol.Sequence.Intervals.{Covers}
use cmppprotocol.Sequence.Places.{retired_sequence_contains-Covers}
use cmppprotocol.Sequence.Registry.{
  SequenceState, contains, used_by_automatic, collect_ids, blocked, any_blocked, reserve_ids,
  reserve_batch,
}
use cmppprotocol.Sequence.Window.{front, RegistryInv, Spent, Taken}

used_test :
    (start id : ℕ) (o : Option ℕ)
    → (elim o as (λ _. Bool) [ none ↦ false | some u ↦ leb start id && leb id u ] ≡ true)
      ↔ ((start ≤ id) × (id < elim o as (λ _. ℕ) [ none ↦ start | some u ↦ u + 1 ]))
used_test start id none = (λ h. cc, λ h. absurd (omega arith))
used_test start id (some u) = ground arith

pub used_by_automatic_iff :
    (s : SequenceState) (id : ℕ)
    → (used_by_automatic s id ≡ true) ↔ ((s.automatic_start ≤ id) × (id < front s))
unfolding used_by_automatic
used_by_automatic_iff s id = used_test s.automatic_start id s.automatic_used_through

second : (a b c : Bool) → b ≡ true → (a || b || c) ≡ true
second true b c h = refl
second false b c h = rw h

third : (a b c : Bool) → c ≡ true → (a || b || c) ≡ true
third true b c h = refl
third false true c h = refl
third false false c h = h

-- The test of the code says which numbers are taken.
blocked-Taken :
    (s : SequenceState) (id : ℕ) → RegistryInv s → id < 2 ^ 32 → (blocked s id ≡ true) ↔ Taken s id
unfolding blocked
blocked-Taken s id v h =
    let (f, g) = used_by_automatic_iff s id in
    let (f', g') = retired_sequence_contains-Covers s.retired id v.chain h in
    (
      there (used_by_automatic s id) (contains s.reserved id)
          (retired_sequence_contains s.retired id) f f',
      λ t. elim t [
        | inl (inl p) ↦ rw (g p)
        | inl (inr c) ↦ third (used_by_automatic s id) (contains s.reserved id) _ (g' c)
        | inr r ↦ second (used_by_automatic s id) _ (retired_sequence_contains s.retired id) r
      ],
    )
  where
    there :
        (a b c : Bool)
        → (a ≡ true → (s.automatic_start ≤ id) × (id < front s))
        → (c ≡ true → Covers s.retired id)
        → (a || b || c) ≡ true
        → Spent s id ⊎ (b ≡ true)
    there true b c f f' h = inl (inl (f refl))
    there false true c f f' h = inr refl
    there false false true f f' h = inl (inr (f' refl))
    there false false false f f' h = cc

-- The numbers `base`, `base + 1`, …, `n` of them, modulo 2 ^ 32, from the `index`-th on.
unfoldable pub batch_ids : ℕ → ℕ → ℕ → List ℕ
batch_ids base index zero = []
batch_ids base index (suc n) = ((base + index) % 2 ^ 32) ∷ batch_ids base (index + 1) n

distinct : (base i j : ℕ) → i < j → j ≤ 255 → ((base + i) % 2 ^ 32 == (base + j) % 2 ^ 32) ≡ false
distinct base i j h k = elim (Bool-cases ((base + i) % 2 ^ 32 == (base + j) % 2 ^ 32)) [
  | inl e ↦ absurd (omega (arith, (==_iff ((base + i) % 2 ^ 32) ((base + j) % 2 ^ 32)).0 e))
  | inr e ↦ e
]

-- At most 255 numbers in a run are distinct, so the run is collected.
collect_ids-eq :
    (base index n : ℕ) (seen : List ℕ)
    → index + n ≤ 255
    → ((j : ℕ) → index ≤ j → j ≤ 255 → contains seen ((base + j) % 2 ^ 32) ≡ false)
    → collect_ids base index n seen ≡ some (batch_ids base index n)
unfolding collect_ids batch_ids contains
collect_ids-eq base index zero seen h fresh = refl
collect_ids-eq base index (suc n) seen h fresh = rw (
  fresh index (omega arith) (omega arith),
  collect_ids-eq base (index + 1) n (((base + index) % 2 ^ 32) ∷ seen) (omega arith)
      (λ j l k. rw (distinct base index j (omega arith) k) (fresh j (omega arith) k)),
)

batch_ids-IsU32 : (base index n : ℕ) → All (λ (id : ℕ). id < 2 ^ 32) (batch_ids base index n)
unfolding batch_ids
batch_ids-IsU32 base index zero = tt
batch_ids-IsU32 base index (suc n) = (omega arith, batch_ids-IsU32 base (index + 1) n)

-- Some number of the list is taken, or none is.
any_blocked-cases :
    (s : SequenceState) (ids : List ℕ)
    → RegistryInv s
    → All (λ (id : ℕ). id < 2 ^ 32) ids
    → ((any_blocked s ids ≡ true) × ((id : ℕ) × (contains ids id ≡ true) × Taken s id))
      ⊎ ((any_blocked s ids ≡ false) × All (λ (id : ℕ). ¬ Taken s id) ids)
unfolding any_blocked contains
any_blocked-cases s [] v u = inr (refl, tt)
any_blocked-cases s (id ∷ ids) v (u, us) =
    let (f, g) = blocked-Taken s id v u in
    let same : (id == id) ≡ true = (==_iff id id).1 refl in
    elim (Bool-cases (blocked s id)) [
      | inl b ↦ inl (rw b, (id, rw same, f b))
      | inr b ↦ elim (any_blocked-cases s ids v us) [
        | inl (e, (k, c, t)) ↦ inl (rw (b, e), (k, later (id == k) _ c, t))
        | inr (e, free) ↦ inr (rw (b, e), ((λ t. clash (sym b ∙ g t)), free))
      ]
    ]
  where
    later : (a b : Bool) → b ≡ true → (a || b) ≡ true
    later true b h = refl
    later false b h = h

    clash : false ≢ true
    clash h = cc

-- In a registry in order, a run of numbers from a base on, modulo 2 to the 32, is handed out and
-- reserved if the numbers are at most 255 and none of them is taken; otherwise none of them is
-- handed out.
pub reserve_batch_total :
    (s : SequenceState) (base count : ℕ)
    → RegistryInv s
    → ((count ≤ 255)
        × All (λ (id : ℕ). ¬ Taken s id) (batch_ids base 0 count)
        × (reserve_batch s base count
            ≡ some (
              batch_ids base 0 count,
              record s { reserved = batch_ids base 0 count ++ s.reserved },
            )))
      ⊎ (((255 < count) ⊎ ((id : ℕ) × (contains (batch_ids base 0 count) id ≡ true) × Taken s id))
          × (reserve_batch s base count ≡ none))
unfolding reserve_batch reserve_ids contains
reserve_batch_total s base count v = elim (Bool-cases (ltb 255 count)) [
  | inl many ↦ inr (inl (ltb→lt 255 count many), rw many)
  | inr few ↦
      let ids : collect_ids base 0 count [] ≡ some (batch_ids base 0 count) =
        collect_ids-eq base 0 count [] (omega (arith, ltb→le 255 count few)) (λ j l k. refl) in
      elim (any_blocked-cases s (batch_ids base 0 count) v (batch_ids-IsU32 base 0 count)) [
        | inl (e, (k, c, t)) ↦ inr (inr (k, c, t), rw (few, ids, e))
        | inr (e, free) ↦ inl (ltb→le 255 count few, free, rw (few, ids, e))
      ]
]
