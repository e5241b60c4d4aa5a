-- ===== src/Sequence/Jump.antt =====
-- src/connection.rs, `reserve_next`: the jump of the automatic sequence over a retired interval.
use cmppprotocol.Prelude.{
  ℕ, ◌+◌, ◌-◌, ◌^◌, ◌≤◌, ◌<◌, ◌≡◌, ◌⊎◌, inl, inr, refl, sym, ◌∷◌, ◌++◌, if◌then◌else◌, ltb, arith,
  lt→ltb, le→ltb, ltb→lt, ltb→le, Bool-cases,
}
use mathlib.Core.Path.{subst}
use cmppprotocol.Sequence.{Interval, Intervals, map_insert, map_remove}
use cmppprotocol.Sequence.Intervals.{
  Covers, Chain, Chain-le, Chain-append, Chain-widen, Covers-append, map_insert-between,
  map_remove-middle,
}
use cmppprotocol.Sequence.Registry.{SequenceState, advance, skip_retired}
use cmppprotocol.Sequence.Window.{front, RegistryInv, Skips}

-- What is left of the intervals once the automatic sequence, which began at `start`, has jumped over `i`.
record Kept (start : ℕ) (m : Intervals) (i : Interval) (m' : Intervals) : Type 0 where
  chain : Chain 0 (2 ^ 32) m'
  back : (x : ℕ) → Covers m' x → Covers m x
  kept : (x : ℕ) → Covers m x → Covers m' x ⊎ ((start ≤ x) × (x ≤ i.end))

cut_below : ℕ → Intervals → Interval → Intervals
cut_below start m i =
    if ltb i.start start
    then map_insert i.start (start - 1) (map_remove i.start m)
    else map_remove i.start m

module _ (start : ℕ) (b : Intervals) (i : Interval) (a : Intervals) (cb : Chain 0 i.start b)
    (whole : i.start ≤ i.end) (ca : Chain (i.end + 1) (2 ^ 32) a) where
  Kept-part :
      i.start < start
      → start ≤ i.end
      → Kept start (b ++ (i ∷ a)) i (cut_below start (b ++ (i ∷ a)) i)
  unfolding cut_below Chain Covers
  Kept-part h k =
      let low : Interval = record { start = i.start; end = start - 1 } in
      let ca' =
        Chain-widen (i.end + 1) (i.start + 1) (2 ^ 32) (2 ^ 32) a (omega arith) (omega arith) ca in
      let eq : cut_below start (b ++ (i ∷ a)) i ≡ b ++ (low ∷ a) =
        rw (lt→ltb i.start start h, map_remove-middle 0 b i a cb)
          (map_insert-between i.start (start - 1) 0 (2 ^ 32) b a cb ca') in
      subst (Kept start (b ++ (i ∷ a)) i) (sym eq) (record {
        chain = Chain-append 0 i.start (2 ^ 32) b (low ∷ a) cb (
          omega arith,
          omega arith,
          Chain-widen (i.end + 1) (start - 1 + 1) (2 ^ 32) (2 ^ 32) a (omega arith) (omega arith)
              ca,
        );
        back = λ x c. elim ((Covers-append b (low ∷ a) x).0 c) [
          | inl p ↦ (Covers-append b (i ∷ a) x).1 (inl p)
          | inr (inl (p, q)) ↦ (Covers-append b (i ∷ a) x).1 (inr (inl (p, omega arith)))
          | inr (inr q) ↦ (Covers-append b (i ∷ a) x).1 (inr (inr q))
        ];
        kept = λ x c. elim ((Covers-append b (i ∷ a) x).0 c) [
          | inl p ↦ inl ((Covers-append b (low ∷ a) x).1 (inl p))
          | inr (inl (p, q)) ↦ elim (Bool-cases (ltb x start)) [
            | inl y ↦
                inl
                  ((Covers-append b (low ∷ a) x).1 (inr (inl (p, omega (arith, ltb→lt x start y)))))
            | inr n ↦ inr (ltb→le x start n, q)
          ]
          | inr (inr q) ↦ inl ((Covers-append b (low ∷ a) x).1 (inr (inr q)))
        ];
      })

  Kept-none : start ≤ i.start → Kept start (b ++ (i ∷ a)) i (cut_below start (b ++ (i ∷ a)) i)
  unfolding cut_below Covers
  Kept-none h =
      let eq : cut_below start (b ++ (i ∷ a)) i ≡ b ++ a =
        rw (le→ltb i.start start h) (map_remove-middle 0 b i a cb) in
      subst (Kept start (b ++ (i ∷ a)) i) (sym eq) (record {
        chain =
            Chain-append 0 i.start (2 ^ 32) b a cb
              (Chain-widen (i.end + 1) i.start (2 ^ 32) (2 ^ 32) a (omega arith) (omega arith) ca);
        back = λ x c. elim ((Covers-append b a x).0 c) [
          | inl p ↦ (Covers-append b (i ∷ a) x).1 (inl p)
          | inr q ↦ (Covers-append b (i ∷ a) x).1 (inr (inr q))
        ];
        kept = λ x c. elim ((Covers-append b (i ∷ a) x).0 c) [
          | inl p ↦ inl ((Covers-append b a x).1 (inl p))
          | inr (inl (p, q)) ↦ inr (omega arith, q)
          | inr (inr q) ↦ inl ((Covers-append b a x).1 (inr q))
        ];
      })

  Kept-rest : start ≤ i.end → Kept start (b ++ (i ∷ a)) i (cut_below start (b ++ (i ∷ a)) i)
  Kept-rest k = elim (Bool-cases (ltb i.start start)) [
    | inl y ↦ Kept-part (ltb→lt i.start start y) k
    | inr n ↦ Kept-none (ltb→le i.start start n)
  ]

pub skip_retired-Skips :
    (s : SequenceState) (b : Intervals) (i : Interval) (a : Intervals)
    → RegistryInv s
    → s.retired ≡ b ++ (i ∷ a)
    → Chain 0 i.start b
    → i.start ≤ front s
    → front s ≤ i.end
    → Chain (i.end + 1) (2 ^ 32) a
    → Skips s (skip_retired (advance s (front s)) i)
unfolding skip_retired advance cut_below Covers
skip_retired-Skips s b i a v e cb p q ca =
    let rest : Kept s.automatic_start s.retired i (cut_below s.automatic_start s.retired i) =
      subst (λ (m : Intervals). Kept s.automatic_start m i (cut_below s.automatic_start m i))
        (sym e) (Kept-rest s.automatic_start b i a cb (omega arith) ca (omega (arith, v.begun))) in
    record {
      inv = record {
        start_pos = v.start_pos;
        begun = omega (arith, v.begun);
        bounded = Chain-le (i.end + 1) (2 ^ 32) a ca;
        next = refl;
        chain = rest.chain;
      };
      grows = omega arith;
      spent = λ x k. elim k [
        | inl (l, h) ↦ inl (l, omega arith)
        | inr c ↦ elim (rest.kept x c) [ inl d ↦ inr d | inr (l, h) ↦ inl (l, omega arith) ]
      ];
      same = refl;
      back = rest.back;
      skipped = λ x l h. inl (
          inr (
            subst (λ (m : Intervals). Covers m x) (sym e)
              ((Covers-append b (i ∷ a) x).1 (inr (inl (omega arith, omega arith))))));
    }
