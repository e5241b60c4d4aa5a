-- ===== src/References/Cooldowns.antt =====
-- src/connection.rs, the cooldowns of a bucket: what `push` and `purge_udh_cooldowns` do to the heap and to the
-- references that cool down.
use cmppprotocol.Prelude.{
  ℕ, ◌+◌, ◌≤◌, ◌<◌, ◌≡◌, ◌≢◌, ◌↔◌, inl, inr, sym, ◌∙◌, List, [], ◌∷◌, All, All-map, true, false,
  ltb, arith, Bool-cases, ltb→lt, ltb→le,
}
use cmppprotocol.References.{Bitmap, Cooldown, clear_udh_reference, entry_leb, push, purge_loop}
use cmppprotocol.References.Bits.{has, has-clear_udh_reference}

-- Every entry of the heap is of a reference that cools down.
unfoldable pub Listed : Bitmap → List Cooldown → Type 0
Listed m h = All (λ (e : Cooldown). has m e.1 ≡ true) h

-- The entry comes no later, and is of another reference.
abbrev pub Ahead : Cooldown → Cooldown → Type 0
Ahead c e = (c.0 ≤ e.0) × (e.1 ≢ c.1)

-- The heap is in the order of its deadlines, and has each reference once.
unfoldable pub Queue : List Cooldown → Type 0
Queue [] = Unit
Queue (c ∷ cs) = All (Ahead c) cs × Queue cs

-- The reference has no deadline before this one.
unfoldable pub NotBefore : ℕ → ℕ → List Cooldown → Type 0
NotBefore d r h = All (λ (e : Cooldown). e.1 ≡ r → d ≤ e.0) h

All-push :
    (P : Cooldown → Type 0) (c : Cooldown) (h : List Cooldown) → P c → All P h → All P (push c h)
unfolding push
All-push P c [] p q = (p, tt)
All-push P c (d ∷ ds) p q = elim (Bool-cases (entry_leb c d)) [
  | inl e ↦ rw e (p, q)
  | inr e ↦ rw e (q.0, All-push P c ds p q.1)
]

entry_leb-le : (c d : Cooldown) → entry_leb c d ≡ true → c.0 ≤ d.0
unfolding entry_leb
entry_leb-le (a, x) (b, y) h = ground arith

entry_leb_total : (c d : Cooldown) → entry_leb c d ≡ false → d.0 ≤ c.0
unfolding entry_leb
entry_leb_total (a, x) (b, y) h = ground arith

pub push-Queue :
    (c : Cooldown) (h : List Cooldown)
    → Queue h
    → All (λ (e : Cooldown). e.1 ≢ c.1) h
    → Queue (push c h)
unfolding push Queue
push-Queue c [] q n = (tt, tt)
push-Queue c (d ∷ ds) q n = elim (Bool-cases (entry_leb c d)) [
  | inl e ↦ let first = entry_leb-le c d e in rw e (((first, n.0), All-both ds q.0 n.1 first), q)
  | inr e ↦ rw e (
    All-push (Ahead d) c ds (entry_leb_total c d e, λ same. n.0 (sym same)) q.0,
    push-Queue c ds q.1 n.1,
  )
]
  where
    All-both :
        (l : List Cooldown)
        → All (Ahead d) l
        → All (λ (e : Cooldown). e.1 ≢ c.1) l
        → c.0 ≤ d.0
        → All (Ahead c) l
    All-both [] a b le = tt
    All-both (e ∷ es) a b le = ((omega (arith, a.0.0), b.0), All-both es a.1 b.1 le)

pub push-Listed :
    (m : Bitmap) (c : Cooldown) (h : List Cooldown)
    → has m c.1 ≡ true
    → Listed m h
    → Listed m (push c h)
unfolding Listed
push-Listed m c h p q = All-push (λ (e : Cooldown). has m e.1 ≡ true) c h p q

pub push-NotBefore :
    (d r : ℕ) (c : Cooldown) (h : List Cooldown)
    → (c.1 ≡ r → d ≤ c.0)
    → NotBefore d r h
    → NotBefore d r (push c h)
unfolding NotBefore
push-NotBefore d r c h p q = All-push (λ (e : Cooldown). e.1 ≡ r → d ≤ e.0) c h p q

-- What the purge leaves of the cooling references and of the heap.
pub record Purged (now : ℕ) (m : Bitmap) (h : List Cooldown) (m' : Bitmap) (h' : List Cooldown)
    : Type 0 where
  pub listed : Listed m' h'
  pub queue : Queue h'
  pub late : All (λ (e : Cooldown). now < e.0) h'
  pub cools : (x : ℕ) → (has m' x ≡ true) ↔ ((has m x ≡ true) × NotBefore (now + 1) x h)
  pub not_before : (d x : ℕ) → NotBefore d x h → NotBefore d x h'

Purged-stop :
    (now d r : ℕ) (m : Bitmap) (h : List Cooldown)
    → Listed m ((d, r) ∷ h)
    → Queue ((d, r) ∷ h)
    → now < d
    → Purged now m ((d, r) ∷ h) m ((d, r) ∷ h)
unfolding Queue NotBefore
Purged-stop now d r m h l q lt = record {
  listed = l;
  queue = q;
  late = late;
  cools = λ x. (
    λ c. (
      c,
      All-map (λ (e : Cooldown). now < e.0) (λ (e : Cooldown). e.1 ≡ x → now + 1 ≤ e.0) ((d, r) ∷ h)
          (λ e le same. omega (arith, le)) late,
    ),
    λ c. c.0,
  );
  not_before = λ e x n. n;
}
  where
    late : All (λ (e : Cooldown). now < e.0) ((d, r) ∷ h)
    late =
        (lt, All-map (Ahead (d, r)) (λ (e : Cooldown). now < e.0) h (λ e a. omega (arith, a.0)) q.0)

Listed-clear :
    (m : Bitmap) (d r : ℕ) (h : List Cooldown)
    → Listed m ((d, r) ∷ h)
    → Queue ((d, r) ∷ h)
    → Listed (clear_udh_reference m r) h
unfolding Listed Queue
Listed-clear m d r h l q = both h l.1 q.0
  where
    both :
        (h : List Cooldown)
        → All (λ (e : Cooldown). has m e.1 ≡ true) h
        → All (Ahead (d, r)) h
        → All (λ (e : Cooldown). has (clear_udh_reference m r) e.1 ≡ true) h
    both [] a b = tt
    both (e ∷ es) a b =
        (has-clear_udh_reference m r e.1 ∙ ground (arith, a.0, b.0.1), both es a.1 b.1)

Purged-next :
    (now d r : ℕ) (m m' : Bitmap) (h h' : List Cooldown)
    → Queue ((d, r) ∷ h)
    → d ≤ now
    → Purged now (clear_udh_reference m r) h m' h'
    → Purged now m ((d, r) ∷ h) m' h'
unfolding Queue NotBefore
Purged-next now d r m m' h h' q le p = record {
  listed = p.listed;
  queue = p.queue;
  late = p.late;
  cools = λ x. (forth x, back x);
  not_before = λ e x n. p.not_before e x n.1;
}
  where
    forth : (x : ℕ) → has m' x ≡ true → (has m x ≡ true) × NotBefore (now + 1) x ((d, r) ∷ h)
    forth x c =
        let (cleared, n) = (p.cools x).0 c in
        let e = sym (has-clear_udh_reference m r x) ∙ cleared in
        (ground (arith, e), (λ same. absurd (ground (arith, e, same)), n))

    back : (x : ℕ) → (has m x ≡ true) × NotBefore (now + 1) x ((d, r) ∷ h) → has m' x ≡ true
    back x (c, n) = (p.cools x).1 (has-clear_udh_reference m r x ∙ ground (arith, c, n.0, le), n.1)

-- Over cooling references and a heap in order, the loop takes out what has a deadline by now, and
-- nothing else.
pub purge_loop-Purged :
    (now : ℕ) (m : Bitmap) (h : List Cooldown)
    → Listed m h
    → Queue h
    → Purged now m h (purge_loop now m h).0 (purge_loop now m h).1
unfolding purge_loop NotBefore Queue
purge_loop-Purged now m [] l q = record {
  listed = l;
  queue = q;
  late = tt;
  cools = λ x. ((λ c. (c, tt)), λ c. c.0);
  not_before = λ e x n. n;
}
purge_loop-Purged now m ((d, r) ∷ h) l q = elim (Bool-cases (ltb now d)) [
  | inl lt ↦ rw (lt, purge_loop) (Purged-stop now d r m h l q (ltb→lt now d lt))
  | inr le ↦
      rw (le, purge_loop)
        (Purged-next now d r m _ h _ q (ltb→le now d le)
          (purge_loop-Purged now (clear_udh_reference m r) h (Listed-clear m d r h l q) q.1))
]
