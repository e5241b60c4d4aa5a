-- ===== src/Encoding/Pieces.antt =====
-- src/encoding.rs: the pieces that the UCS2 and the ASCII loop cut the content into.
use cmppprotocol.Prelude.{
  ℕ, ◌+◌, ◌≤◌, ◌≡◌, refl, sym, ap, ◌∙◌, List, [], ◌∷◌, ◌++◌, append_assoc, append-nil, All, true,
  false, if◌then◌else◌, length, length-append, arith, inl, inr, Bool-cases,
}
use native.Mathlib.Nat.{add-zero}
use cmppprotocol.Text.{Str, utf8, as_bytes, len_utf16}
use cmppprotocol.Encoding.{len}
use cmppprotocol.Encoding.Plan.{ucs2_size, ucs2_bytes, breaks, count_ucs2, ucs2_ranges}
use cmppprotocol.Encoding.Cuts.{Cuts, concat, len-append, len-cons}

-- The part under way, its size, and what is still to come.
unfoldable pub ucs2_pieces : Str → ℕ → Str → List Str
ucs2_pieces cur current [] = cur ∷ []
ucs2_pieces cur current (c ∷ s) =
    let rest =
      ucs2_pieces (if breaks current c then c ∷ [] else cur ++ (c ∷ []))
        (if breaks current c then ucs2_size c else current + ucs2_size c) s in
    if breaks current c then cur ∷ rest else rest

pub len-nil : len [] ≡ 0
unfolding as_bytes
len-nil = refl

len-snoc : (x : Str) (c n : ℕ) → n ≡ len x → n + length (utf8 c) ≡ len (x ++ (c ∷ []))
len-snoc x c n e = omega (arith, len-append x (c ∷ []), len-cons c [], len-nil)

pub ucs2_ranges-Cuts :
    (s before cur : Str) (end start current offset : ℕ)
    → end ≡ len (before ++ (cur ++ s))
    → start ≡ len before
    → offset ≡ len (before ++ cur)
    → Cuts before (ucs2_ranges end start current offset s) (ucs2_pieces cur current s)
unfolding ucs2_ranges ucs2_pieces
ucs2_ranges-Cuts [] before cur end start current offset he hs ho =
    (hs, he ∙ ap (λ (t : Str). len (before ++ t)) (append-nil cur), tt)
ucs2_ranges-Cuts (c ∷ s) before cur end start current offset he hs ho =
    elim (Bool-cases (breaks current c)) [
      | inl e ↦ rw e (
        hs,
        ho,
        ucs2_ranges-Cuts s (before ++ cur) (c ∷ []) end offset (ucs2_size c)
            (offset + length (utf8 c)) (he ∙ ap len (sym (append_assoc before cur (c ∷ s)))) ho
            (len-snoc (before ++ cur) c offset ho),
      )
      | inr e ↦ rw e (
          ucs2_ranges-Cuts s before (cur ++ (c ∷ [])) end start (current + ucs2_size c)
            (offset + length (utf8 c))
            (he ∙ ap (λ (t : Str). len (before ++ t)) (sym (append_assoc cur (c ∷ []) s))) hs
            (len-snoc (before ++ cur) c offset ho ∙ ap len (append_assoc before cur (c ∷ []))))
    ]

pub concat-ucs2_pieces :
    (cur : Str) (current : ℕ) (s : Str) → concat (ucs2_pieces cur current s) ≡ cur ++ s
unfolding ucs2_pieces
concat-ucs2_pieces cur current [] = refl
concat-ucs2_pieces cur current (c ∷ s) = elim (Bool-cases (breaks current c)) [
  | inl e ↦ rw e (ap (◌++◌ cur) (concat-ucs2_pieces (c ∷ []) (ucs2_size c) s))
  | inr e ↦
      rw e (
        concat-ucs2_pieces (cur ++ (c ∷ [])) (current + ucs2_size c) s
        ∙ append_assoc cur (c ∷ []) s)
]

ucs2_bytes-append : (a b : Str) → ucs2_bytes (a ++ b) ≡ ucs2_bytes a + ucs2_bytes b
unfolding ucs2_bytes
ucs2_bytes-append [] b = omega arith
ucs2_bytes-append (c ∷ a) b = omega (arith, ucs2_bytes-append a b)

pub ucs2_bytes-snoc : (a : Str) (c : ℕ) → ucs2_bytes (a ++ (c ∷ [])) ≡ ucs2_bytes a + ucs2_size c
ucs2_bytes-snoc a c = omega (arith, ucs2_bytes-append a (c ∷ []), one)
  where
    one : ucs2_bytes (c ∷ []) ≡ ucs2_size c
    one = unfold ucs2_bytes in add-zero (ucs2_size c)

pub ucs2_size-le : (c : ℕ) → (2 ≤ ucs2_size c) × (ucs2_size c ≤ 4)
unfolding len_utf16
ucs2_size-le c = ground arith

-- A piece holds a character at least, and has 134 bytes at most.
abbrev pub IsPiece : Str → Type 0
IsPiece p = (1 ≤ length p) × (ucs2_bytes p ≤ 134)

breaks-pos : (n c : ℕ) → breaks n c ≡ true → 1 ≤ n
breaks-pos n c h = ground arith

breaks-fits : (n c : ℕ) → breaks n c ≡ false → n + ucs2_size c ≤ 134
breaks-fits n c h = ground (arith, ucs2_size-le c)

pub ucs2_bytes-pos : (s : Str) → 1 ≤ ucs2_bytes s → 1 ≤ length s
unfolding ucs2_bytes
ucs2_bytes-pos [] h = absurd (omega arith)
ucs2_bytes-pos (c ∷ s) h = omega arith

pub ucs2_bytes_one : (c : ℕ) → ucs2_bytes (c ∷ []) ≡ ucs2_size c
unfolding ucs2_bytes
ucs2_bytes_one c = add-zero (ucs2_size c)

pub ucs2_pieces-IsPiece :
    (cur : Str) (current : ℕ) (s : Str)
    → current ≡ ucs2_bytes cur
    → current ≤ 134
    → 1 ≤ length cur + length s
    → All IsPiece (ucs2_pieces cur current s)
unfolding ucs2_pieces
ucs2_pieces-IsPiece cur current [] e h n = ((omega arith, omega arith), tt)
ucs2_pieces-IsPiece cur current (c ∷ s) e h n =
    let (two, four) = ucs2_size-le c in
    elim (Bool-cases (breaks current c)) [
      | inl b ↦ rw b (
        (ucs2_bytes-pos cur (omega (arith, breaks-pos current c b)), omega arith),
        ucs2_pieces-IsPiece (c ∷ []) (ucs2_size c) s (sym (ucs2_bytes_one c)) (omega arith)
            (omega arith),
      )
      | inr b ↦ rw b (
          ucs2_pieces-IsPiece (cur ++ (c ∷ [])) (current + ucs2_size c) s
            (omega (arith, ucs2_bytes-snoc cur c)) (breaks-fits current c b)
            (omega (arith, length-append cur (c ∷ []))))
    ]

-- The count made beforehand is the number of pieces.
pub count_ucs2-eq :
    (count : ℕ) (cur : Str) (current : ℕ) (s : Str)
    → count_ucs2 count current s + 1 ≡ count + length (ucs2_pieces cur current s)
unfolding count_ucs2 ucs2_pieces
count_ucs2-eq count cur current [] = omega arith
count_ucs2-eq count cur current (c ∷ s) = elim (Bool-cases (breaks current c)) [
  | inl b ↦ rw b (omega (arith, count_ucs2-eq (count + 1) (c ∷ []) (ucs2_size c) s))
  | inr b ↦ rw b (count_ucs2-eq count (cur ++ (c ∷ [])) (current + ucs2_size c) s)
]
