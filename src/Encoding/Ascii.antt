-- ===== src/Encoding/Ascii.antt =====
-- src/encoding.rs: the ASCII branch of the plan, chunks of 134 bytes.
use cmppprotocol.Prelude.{
  ℕ, zero, suc, ◌+◌, ◌-◌, ◌≤◌, ◌<◌, ◌≡◌, refl, ap, ◌∙◌, List, [], ◌∷◌, ◌++◌, All, All-take,
  All-drop, true, length, take, drop, length-take, length-drop, take-append-drop, arith,
}
use cmppprotocol.Text.{Str, utf8, as_bytes}
use cmppprotocol.Encoding.{len, is_ascii}
use cmppprotocol.Encoding.Plan.{chunk_lengths, push_ranges, div_ceil}
use cmppprotocol.Encoding.Cuts.{Cuts, concat, len-append}

abbrev pub IsAsciiChar : ℕ → Type 0
IsAsciiChar c = c < 0x80

pub is_ascii-All : (s : Str) → is_ascii s ≡ true → All IsAsciiChar s
unfolding is_ascii
is_ascii-All [] h = tt
is_ascii-All (c ∷ s) h = (ground arith, is_ascii-All s (ground arith))

utf8_one : (c : ℕ) → c < 0x80 → utf8 c ≡ c ∷ []
unfolding utf8
utf8_one c h = ground arith

pub as_bytes-ascii : (s : Str) → All IsAsciiChar s → as_bytes s ≡ s
unfolding as_bytes
as_bytes-ascii [] h = refl
as_bytes-ascii (c ∷ s) h = rw (utf8_one c h.0) (ap (◌∷◌ c) (as_bytes-ascii s h.1))

pub len-ascii : (s : Str) → All IsAsciiChar s → len s ≡ length s
len-ascii s h = ap length (as_bytes-ascii s h)

abbrev pub sum : List ℕ → ℕ
sum [] = 0
sum (l ∷ ls) = l + sum ls

unfoldable pub ascii_pieces : List ℕ → Str → List Str
ascii_pieces [] s = []
ascii_pieces (l ∷ ls) s = take l s ∷ ascii_pieces ls (drop l s)

pub push_ranges-Cuts :
    (ls : List ℕ) (s before : Str) (start : ℕ)
    → All IsAsciiChar s
    → sum ls ≡ length s
    → start ≡ len before
    → Cuts before (push_ranges start ls) (ascii_pieces ls s)
unfolding push_ranges ascii_pieces
push_ranges-Cuts [] s before start a e h = tt
push_ranges-Cuts (l ∷ ls) s before start a e h = (
  h,
  ends,
  push_ranges-Cuts ls (drop l s) (before ++ take l s) (start + l) (All-drop IsAsciiChar l s a)
      (omega (arith, length-drop l s)) ends,
)
  where
    ends : start + l ≡ len (before ++ take l s)
    ends = omega (
      arith,
      len-append before (take l s),
      len-ascii (take l s) (All-take IsAsciiChar l s a),
      length-take l s,
    )

pub concat-ascii_pieces :
    (ls : List ℕ) (s : Str) → sum ls ≡ length s → concat (ascii_pieces ls s) ≡ s
unfolding ascii_pieces
concat-ascii_pieces [] [] e = refl
concat-ascii_pieces [] (c ∷ s) e = absurd (omega arith)
concat-ascii_pieces (l ∷ ls) s e =
    ap (◌++◌ (take l s)) (concat-ascii_pieces ls (drop l s) (omega (arith, length-drop l s)))
    ∙ take-append-drop l s

abbrev pub IsChunk : ℕ → Type 0
IsChunk l = (1 ≤ l) × (l ≤ 134)

pub chunk_lengths-IsChunk : (fuel n : ℕ) → All IsChunk (chunk_lengths fuel n)
unfolding chunk_lengths
chunk_lengths-IsChunk zero n = tt
chunk_lengths-IsChunk (suc fuel) n = ground (arith, chunk_lengths-IsChunk fuel (n - 134))

pub sum-chunk_lengths : (fuel n : ℕ) → n ≤ fuel → sum (chunk_lengths fuel n) ≡ n
unfolding chunk_lengths
sum-chunk_lengths zero n h = omega arith
sum-chunk_lengths (suc fuel) n h = ground (arith, sum-chunk_lengths fuel (n - 134))

-- There are as many chunks as the count made beforehand says.
pub length-chunk_lengths : (fuel n : ℕ) → n ≤ fuel → length (chunk_lengths fuel n) ≡ div_ceil n 134
unfolding chunk_lengths
length-chunk_lengths zero n h = omega arith
length-chunk_lengths (suc fuel) n h = ground (arith, length-chunk_lengths fuel (n - 134))

abbrev pub IsAsciiPiece : Str → Type 0
IsAsciiPiece p = (1 ≤ length p) × (length p ≤ 134) × All IsAsciiChar p

pub ascii_pieces-IsAsciiPiece :
    (ls : List ℕ) (s : Str)
    → All IsChunk ls
    → sum ls ≡ length s
    → All IsAsciiChar s
    → All IsAsciiPiece (ascii_pieces ls s)
unfolding ascii_pieces
ascii_pieces-IsAsciiPiece [] s c e a = tt
ascii_pieces-IsAsciiPiece (l ∷ ls) s c e a = (
  (
    omega (arith, length-take l s, c.0),
    omega (arith, length-take l s, c.0),
    All-take IsAsciiChar l s a,
  ),
  ascii_pieces-IsAsciiPiece ls (drop l s) c.1 (omega (arith, length-drop l s))
      (All-drop IsAsciiChar l s a),
)

pub length-ascii_pieces : (ls : List ℕ) (s : Str) → length (ascii_pieces ls s) ≡ length ls
unfolding ascii_pieces
length-ascii_pieces [] s = refl
length-ascii_pieces (l ∷ ls) s = ap suc (length-ascii_pieces ls (drop l s))
