-- ===== src/Encoding/Filled.antt =====
-- src/encoding.rs: both loops fill a part before they begin the next.
use cmppprotocol.Prelude.{
  ℕ, zero, suc, ◌+◌, ◌-◌, ◌<◌, ◌≡◌, refl, sym, List, [], ◌∷◌, ◌++◌, All, true, length, take, drop,
  length-take, length-drop, length-append, arith, inl, inr, Bool-cases, ◌==◌, leb,
}
use mathlib.Core.Path.{subst}
use cmppprotocol.Text.{Str}
use cmppprotocol.Encoding.Plan.{ucs2_size, ucs2_bytes, breaks, chunk_lengths}
use cmppprotocol.Encoding.Ascii.{sum, ascii_pieces, IsChunk}
use cmppprotocol.Encoding.Pieces.{ucs2_pieces, ucs2_bytes-snoc, ucs2_bytes_one}

-- The first character of a part does not fit the part before it, by the size of a text.
abbrev pub Filled : (Str → ℕ) → List Str → Type 0
Filled measure [] = Unit {0}
Filled measure (p ∷ []) = Unit {0}
Filled measure (p ∷ q ∷ ps) = (134 < measure (p ++ take 1 q)) × Filled measure (q ∷ ps)

-- All chunks but the last have 134 bytes.
abbrev Full : List ℕ → Type 0
Full [] = Unit {0}
Full (l ∷ []) = Unit {0}
Full (l ∷ m ∷ ls) = (l ≡ 134) × Full (m ∷ ls)

Full-cons : (ls : List ℕ) → Full ls → Full (134 ∷ ls)
Full-cons [] h = tt
Full-cons (m ∷ ls) h = (refl, h)

pub chunk_lengths-Full : (fuel n : ℕ) → Full (chunk_lengths fuel n)
unfolding chunk_lengths
chunk_lengths-Full zero n = tt
chunk_lengths-Full (suc fuel) n = elim (Bool-cases (n == 0)) [
  | inl none ↦ rw none tt
  | inr some ↦ elim (Bool-cases (leb n 134)) [
    | inl last ↦ rw (some, last) tt
    | inr more ↦
        rw (some, more)
          (Full-cons (chunk_lengths fuel (n - 134)) (chunk_lengths-Full fuel (n - 134)))
  ]
]

pub ascii_pieces-Filled :
    (ls : List ℕ) (s : Str)
    → Full ls
    → All IsChunk ls
    → sum ls ≡ length s
    → Filled length (ascii_pieces ls s)
unfolding ascii_pieces
ascii_pieces-Filled [] s f c e = tt
ascii_pieces-Filled (l ∷ []) s f c e = tt
ascii_pieces-Filled (l ∷ m ∷ ls) s f c e = (
  omega (
    arith,
    length-append (take l s) (take 1 (take m (drop l s))),
    length-take l s,
    length-take 1 (take m (drop l s)),
    length-take m (drop l s),
    length-drop l s,
    f.0,
    c.1.0.0,
    e,
  ),
  ascii_pieces-Filled (m ∷ ls) (drop l s) f.1 c.1 (omega (arith, length-drop l s, e)),
)

-- A part that has begun with a character keeps it.
begun_with :
    (c : ℕ) (cur : Str) (current : ℕ) (s : Str)
    → (q : Str) × (ps : List Str) × (ucs2_pieces (c ∷ cur) current s ≡ ((c ∷ q) ∷ ps))
unfolding ucs2_pieces
begun_with c cur current [] = (cur, [], refl)
begun_with c cur current (d ∷ s) = elim (Bool-cases (breaks current d)) [
  | inl b ↦ (cur, ucs2_pieces (d ∷ []) (ucs2_size d) s, rw b refl)
  | inr b ↦ rw b (begun_with c (cur ++ (d ∷ [])) (current + ucs2_size d) s)
]

breaks-over : (n c : ℕ) → breaks n c ≡ true → 134 < n + ucs2_size c
breaks-over n c h = ground arith

pub ucs2_pieces-Filled :
    (cur : Str) (current : ℕ) (s : Str)
    → current ≡ ucs2_bytes cur
    → Filled ucs2_bytes (ucs2_pieces cur current s)
unfolding ucs2_pieces
ucs2_pieces-Filled cur current [] e = tt
ucs2_pieces-Filled cur current (c ∷ s) e = elim (Bool-cases (breaks current c)) [
  | inl b ↦
      let (q, ps, same) = begun_with c [] (ucs2_size c) s in
      let over : 134 < ucs2_bytes (cur ++ (c ∷ [])) =
        omega (arith, ucs2_bytes-snoc cur c, breaks-over current c b, e) in
      let rest : Filled ucs2_bytes (ucs2_pieces (c ∷ []) (ucs2_size c) s) =
        ucs2_pieces-Filled (c ∷ []) (ucs2_size c) s (sym (ucs2_bytes_one c)) in
      rw b (
        subst (λ (l : List Str). Filled ucs2_bytes (cur ∷ l)) (sym same)
          (over, subst (Filled ucs2_bytes) same rest))
  | inr b ↦ rw b (
      ucs2_pieces-Filled (cur ++ (c ∷ [])) (current + ucs2_size c) s
        (omega (arith, ucs2_bytes-snoc cur c, e)))
]
