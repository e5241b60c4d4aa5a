-- ===== src/Encoding/Cuts.antt =====
-- src/encoding.rs: the ranges of a plan cut the content at character borders, into consecutive pieces.
use cmppprotocol.Prelude.{
  ℕ, suc, ◌+◌, ◌-◌, ◌≤◌, ◌≡◌, refl, sym, ap, ◌∙◌, List, [], ◌∷◌, ◌++◌, append_assoc, le→ltb, length,
  length-append, arith,
}
use cmppprotocol.Error.{ok}
use cmppprotocol.Text.{Str, utf8, as_bytes}
use cmppprotocol.Encoding.{Range, len}
use cmppprotocol.Encoding.Plan.{split_at, str_slice}

pub length-utf8-pos : (c : ℕ) → (1 ≤ length (utf8 c)) × (length (utf8 c) ≤ 4)
unfolding utf8
length-utf8-pos c = ground arith

as_bytes-append : (a b : Str) → as_bytes (a ++ b) ≡ as_bytes a ++ as_bytes b
unfolding as_bytes
as_bytes-append [] b = refl
as_bytes-append (c ∷ a) b =
    rw (as_bytes-append a b) (sym (append_assoc (utf8 c) (as_bytes a) (as_bytes b)))

pub len-append : (a b : Str) → len (a ++ b) ≡ len a + len b
len-append a b = ap length (as_bytes-append a b) ∙ length-append (as_bytes a) (as_bytes b)

pub len-cons : (c : ℕ) (s : Str) → len (c ∷ s) ≡ length (utf8 c) + len s
unfolding as_bytes
len-cons c s = length-append (utf8 c) (as_bytes s)

split_at-zero : (s : Str) → split_at 0 s ≡ ok ([], s)
unfolding split_at
split_at-zero [] = refl
split_at-zero (c ∷ s) = refl

split_at-cons :
    (c n m : ℕ) (s : Str) (a b : Str)
    → n ≡ length (utf8 c) + m
    → split_at m s ≡ ok (a, b)
    → split_at n (c ∷ s) ≡ ok (c ∷ a, b)
unfolding split_at
split_at-cons c n m s a b e f =
    let e' : n - length (utf8 c) ≡ m = omega arith in rw (e', f) (ground (arith, length-utf8-pos c))

split_at-append : (a b : Str) → split_at (len a) (a ++ b) ≡ ok (a, b)
split_at-append [] b = unfold as_bytes in split_at-zero b
split_at-append (c ∷ a) b =
    split_at-cons c (len (c ∷ a)) (len a) (a ++ b) a b (len-cons c a) (split_at-append a b)

-- The slice between two borders is what stands there.
pub str_slice-middle :
    (a p b : Str) (r : Range)
    → r.start ≡ len a
    → r.end ≡ len (a ++ p)
    → str_slice (a ++ (p ++ b)) r ≡ ok p
unfolding str_slice
str_slice-middle a p b r hs he =
    rw (le→ltb r.end r.start ordered, width, hs, split_at-append a (p ++ b), split_at-append p b)
  where
    ordered : r.start ≤ r.end
    ordered = omega (arith, len-append a p)

    width : r.end - r.start ≡ len p
    width = omega (arith, len-append a p)

-- The ranges are those of consecutive pieces, the first of which stands behind `before`.
abbrev pub Cuts : Str → List Range → List Str → Type 0
Cuts before [] [] = Unit
Cuts before (r ∷ rs) (p ∷ ps) =
    (r.start ≡ len before) × (r.end ≡ len (before ++ p)) × Cuts (before ++ p) rs ps
Cuts before _ _ = ⊥

abbrev pub concat {ℓ} : {A : Type ℓ} → List (List A) → List A
concat [] = []
concat (p ∷ ps) = p ++ concat ps

-- Slice after slice, the pieces.
abbrev pub Slices : Str → List Range → List Str → Type 0
Slices content [] [] = Unit
Slices content (r ∷ rs) (p ∷ ps) = (str_slice content r ≡ ok p) × Slices content rs ps
Slices content _ _ = ⊥

pub Cuts-Slices :
    (before : Str) (rs : List Range) (ps : List Str)
    → Cuts before rs ps
    → Slices (before ++ concat ps) rs ps
Cuts-Slices before [] [] h = tt
Cuts-Slices before [] (p ∷ ps) h = absurd h
Cuts-Slices before (r ∷ rs) [] h = absurd h
Cuts-Slices before (r ∷ rs) (p ∷ ps) h = (
  str_slice-middle before p (concat ps) r h.0 h.1,
  rw (append_assoc before p (concat ps)) at (Cuts-Slices (before ++ p) rs ps h.2),
)

pub Cuts-length :
    (before : Str) (rs : List Range) (ps : List Str) → Cuts before rs ps → length rs ≡ length ps
Cuts-length before [] [] h = refl
Cuts-length before [] (p ∷ ps) h = absurd h
Cuts-length before (r ∷ rs) [] h = absurd h
Cuts-length before (r ∷ rs) (p ∷ ps) h = ap suc (Cuts-length (before ++ p) rs ps h.2)
