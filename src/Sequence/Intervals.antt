-- ===== src/Sequence/Intervals.antt =====
-- src/connection.rs: the retired intervals in order, and where a number stands among them.
use cmppprotocol.Prelude.{
  ℕ, ◌+◌, ◌≤◌, ◌<◌, ◌≡◌, ◌↔◌, ◌⊎◌, inl, inr, refl, ap, [], ◌∷◌, ◌++◌, none, some, true, false, ltb,
  ◌==◌, arith, lt→ltb, le→ltb, ltb→lt, ltb→le, Bool-cases,
}
use cmppprotocol.Sequence.{Interval, Intervals, floor, ceiling, map_insert, map_remove, map_update}

-- The number is in one of the intervals.
unfoldable pub Covers : Intervals → ℕ → Type 0
Covers [] x = ⊥
Covers (i ∷ m) x = ((i.start ≤ x) × (x ≤ i.end)) ⊎ Covers m x

-- Non-empty intervals in order, from `lo` on and below `hi`, no two of them with a number in common.
unfoldable pub Chain : ℕ → ℕ → Intervals → Type 0
Chain lo hi [] = lo ≤ hi
Chain lo hi (i ∷ m) = (lo ≤ i.start) × (i.start ≤ i.end) × Chain (i.end + 1) hi m

pub Chain-le : (lo hi : ℕ) (m : Intervals) → Chain lo hi m → lo ≤ hi
unfolding Chain
Chain-le lo hi [] h = h
Chain-le lo hi (i ∷ m) (a, b, c) = omega (arith, Chain-le (i.end + 1) hi m c)

pub Chain-append :
    (lo mid hi : ℕ) (b a : Intervals) → Chain lo mid b → Chain mid hi a → Chain lo hi (b ++ a)
unfolding Chain
Chain-append lo mid hi [] [] h k = omega arith
Chain-append lo mid hi [] (i ∷ m) h (k, q, rest) = (omega arith, q, rest)
Chain-append lo mid hi (i ∷ b) a (p, q, h) k = (p, q, Chain-append (i.end + 1) mid hi b a h k)

-- A lower start and a higher end for a chain.
pub Chain-widen :
    (lo lo' hi hi' : ℕ) (m : Intervals) → lo' ≤ lo → hi ≤ hi' → Chain lo hi m → Chain lo' hi' m
unfolding Chain
Chain-widen lo lo' hi hi' [] h k c = omega arith
Chain-widen lo lo' hi hi' (i ∷ m) h k (a, b, c) =
    (omega arith, b, Chain-widen (i.end + 1) (i.end + 1) hi hi' m (omega arith) k c)

pub Covers-append : (b a : Intervals) (x : ℕ) → Covers (b ++ a) x ↔ (Covers b x ⊎ Covers a x)
unfolding Covers
Covers-append [] a x = (λ h. inr h, λ h. elim h [ inl p ↦ absurd p | inr q ↦ q ])
Covers-append (i ∷ b) a x =
    let (f, g) = Covers-append b a x in
    (
      λ h. elim h [
        | inl p ↦ inl (inl p)
        | inr q ↦ elim (f q) [ inl c ↦ inl (inr c) | inr d ↦ inr d ]
      ],
      λ h. elim h [ inl (inl p) ↦ inl p | inl (inr c) ↦ inr (g (inl c)) | inr d ↦ inr (g (inr d)) ],
    )

-- Where a number stands among the intervals: in one of them, or between two.
pub data Place (lo hi : ℕ) (m : Intervals) (x : ℕ) : Type 0 where
  inside :
      (b : Intervals) (i : Interval) (a : Intervals)
      → m ≡ b ++ (i ∷ a)
      → Chain lo i.start b
      → i.start ≤ x
      → x ≤ i.end
      → Chain (i.end + 1) hi a
      → Place lo hi m x
  between : (b a : Intervals) → m ≡ b ++ a → Chain lo x b → Chain (x + 1) hi a → Place lo hi m x

pub place : (lo hi : ℕ) (m : Intervals) (x : ℕ) → Chain lo hi m → lo ≤ x → x < hi → Place lo hi m x
unfolding Chain
place lo hi [] x c l h = between [] [] refl l (omega arith)
place lo hi (i ∷ m) x (p, q, c) l h = elim (Bool-cases (ltb x i.start)) [
  | inl below ↦ between [] (i ∷ m) refl l (omega (arith, ltb→lt x i.start below), q, c)
  | inr from ↦ elim (Bool-cases (ltb i.end x)) [
    | inr within ↦ inside [] i m refl p (ltb→le x i.start from) (ltb→le i.end x within) c
    | inl above ↦ elim (place (i.end + 1) hi m x c (omega (arith, ltb→lt i.end x above)) h) [
      | inside b j a e cb s t ca ↦ inside (i ∷ b) j a (ap (◌∷◌ i) e) (p, q, cb) s t ca
      | between b a e cb ca ↦ between (i ∷ b) a (ap (◌∷◌ i) e) (p, q, cb) ca
    ]
  ]
]

pub floor-above : (x hi : ℕ) (a : Intervals) → Chain (x + 1) hi a → floor x a ≡ none
unfolding Chain floor
floor-above x hi [] c = refl
floor-above x hi (i ∷ a) (p, q, c) = rw (lt→ltb x i.start (omega arith))

-- Behind smaller keys, and before larger ones, an entry is the floor.
pub floor-middle :
    (x lo : ℕ) (b : Intervals) (i : Interval) (a : Intervals)
    → Chain lo i.start b
    → i.start ≤ x
    → floor x a ≡ none
    → floor x (b ++ (i ∷ a)) ≡ some i
unfolding Chain floor
floor-middle x lo [] i a c h e = rw (le→ltb x i.start h, e)
floor-middle x lo (j ∷ b) i a (p, q, c) h e = rw (
  le→ltb x j.start (omega (arith, Chain-le (j.end + 1) i.start b c)),
  floor-middle x (j.end + 1) b i a c h e,
)

pub ceiling-append : (x lo : ℕ) (b a : Intervals) → Chain lo x b → ceiling x (b ++ a) ≡ ceiling x a
unfolding Chain ceiling
ceiling-append x lo [] a c = refl
ceiling-append x lo (i ∷ b) a (p, q, c) = rw (
  lt→ltb i.start x (omega (arith, Chain-le (i.end + 1) x b c)),
  ceiling-append x (i.end + 1) b a c,
)

pub ceiling-here : (x : ℕ) (i : Interval) (a : Intervals) → x ≤ i.start → ceiling x (i ∷ a) ≡ some i
unfolding ceiling
ceiling-here x i a h = rw (le→ltb i.start x h)

==_false : (a b : ℕ) → a < b → (a == b) ≡ false
==_false a b h = ground arith

==_same : (a : ℕ) → (a == a) ≡ true
==_same a = ground arith

pub map_insert-between :
    (k v lo hi : ℕ) (b a : Intervals)
    → Chain lo k b
    → Chain (k + 1) hi a
    → map_insert k v (b ++ a) ≡ b ++ (record { start = k; end = v } ∷ a)
unfolding Chain map_insert
map_insert-between k v lo hi [] [] c d = refl
map_insert-between k v lo hi [] (i ∷ a) c (p, q, d) =
    let other : (i.start == k) ≡ false = ground arith in rw (le→ltb i.start k (omega arith), other)
map_insert-between k v lo hi (i ∷ b) a (p, q, c) d = rw (
  lt→ltb i.start k (omega (arith, Chain-le (i.end + 1) k b c)),
  map_insert-between k v (i.end + 1) hi b a c d,
)

pub map_remove-middle :
    (lo : ℕ) (b : Intervals) (i : Interval) (a : Intervals)
    → Chain lo i.start b
    → map_remove i.start (b ++ (i ∷ a)) ≡ b ++ a
unfolding Chain map_remove
map_remove-middle lo [] i a c = rw (==_same i.start)
map_remove-middle lo (j ∷ b) i a (p, q, c) = rw (
  ==_false j.start i.start (omega (arith, Chain-le (j.end + 1) i.start b c)),
  map_remove-middle (j.end + 1) b i a c,
)

-- An entry right behind another one.
pub map_remove-second :
    (lo : ℕ) (b : Intervals) (i j : Interval) (a : Intervals)
    → Chain lo i.start b
    → i.start < j.start
    → map_remove j.start (b ++ (i ∷ j ∷ a)) ≡ b ++ (i ∷ a)
unfolding Chain map_remove
map_remove-second lo [] i j a c h = rw (==_false i.start j.start h, ==_same j.start)
map_remove-second lo (k ∷ b) i j a (p, q, c) h = rw (
  ==_false k.start j.start (omega (arith, Chain-le (k.end + 1) i.start b c)),
  map_remove-second (k.end + 1) b i j a c h,
)

pub map_update-middle :
    (lo v : ℕ) (b : Intervals) (i : Interval) (a : Intervals)
    → Chain lo i.start b
    → map_update i.start v (b ++ (i ∷ a)) ≡ b ++ (record { start = i.start; end = v } ∷ a)
unfolding Chain map_update
map_update-middle lo v [] i a c = rw (==_same i.start)
map_update-middle lo v (j ∷ b) i a (p, q, c) = rw (
  ==_false j.start i.start (omega (arith, Chain-le (j.end + 1) i.start b c)),
  map_update-middle (j.end + 1) v b i a c,
)

-- What a chain covers lies between its bounds.
pub Covers-bounds :
    (lo hi : ℕ) (m : Intervals) (x : ℕ) → Chain lo hi m → Covers m x → (lo ≤ x) × (x < hi)
unfolding Chain Covers
Covers-bounds lo hi [] x c h = absurd h
Covers-bounds lo hi (i ∷ m) x (p, q, c) (inl (s, t)) =
    (omega arith, omega (arith, Chain-le (i.end + 1) hi m c))
Covers-bounds lo hi (i ∷ m) x (p, q, c) (inr h) =
    let (s, t) = Covers-bounds (i.end + 1) hi m x c h in (omega arith, t)

pub between-¬Covers :
    (lo hi : ℕ) (b a : Intervals) (x : ℕ)
    → Chain lo x b
    → Chain (x + 1) hi a
    → Covers (b ++ a) x
    → ⊥
between-¬Covers lo hi b a x cb ca h = elim ((Covers-append b a x).0 h) [
  | inl k ↦ absurd (omega (arith, (Covers-bounds lo x b x cb k).1))
  | inr k ↦ absurd (omega (arith, (Covers-bounds (x + 1) hi a x ca k).0))
]
