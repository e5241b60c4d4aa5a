-- ===== src/Pdu/Fields.antt =====
-- The octet-string fields and words of src/pdu.rs: their widths, and that reading undoes writing.
use cmppprotocol.Prelude.{
  ℕ, zero, suc, ◌-◌, ◌/◌, ◌%◌, ◌^◌, ◌≤◌, min, ◌≡◌, ◌≢◌, refl, sym, ap, ◌∙◌, List, [], ◌∷◌, ◌++◌,
  All, All-append, All-take, length, length-append, length-take, length-replicate, take, take_all,
  replicate, append_assoc, append-nil, arith,
}
use cmppprotocol.Types.{IsU32}
use cmppprotocol.Text.{Str, IsByte, IsStr, utf8, as_bytes}
use cmppprotocol.Text.Utf8.{from_utf8_lossy-as_bytes, as_bytes-IsByte}
use cmppprotocol.Pdu.Bytes.{from_be32, put_octet_str, trim_end, read_octet_str}

-- The last character is neither NUL nor a space.
abbrev pub EndsClean : Str → Type 0
EndsClean [] = Unit
EndsClean (c ∷ []) = (c ≢ 0) × (c ≢ 0x20)
EndsClean (c ∷ d ∷ s) = EndsClean (d ∷ s)

-- A string that a field of `len` octets can hold: it is short enough, and ends in no padding.
pub record Fits (len : ℕ) (s : Str) : Type 0 where
  pub scalars : IsStr s
  pub short : length (as_bytes s) ≤ len
  pub clean : EndsClean s

pub be32_digits :
    (n : ℕ)
    → IsU32 n
    → from_be32 (n / 2 ^ 24 % 256) (n / 2 ^ 16 % 256) (n / 2 ^ 8 % 256) (n % 256) ≡ n
unfolding from_be32
be32_digits n h = omega arith

pub from_be32-IsU32 :
    (a b c d : ℕ) → IsByte a → IsByte b → IsByte c → IsByte d → IsU32 (from_be32 a b c d)
unfolding from_be32
from_be32-IsU32 a b c d ha hb hc hd = omega arith

pub length-put_octet_str : (s : Str) (len : ℕ) → length (put_octet_str s len) ≡ len
unfolding put_octet_str
length-put_octet_str s len = omega (
  arith,
  length-append (take (min (length (as_bytes s)) len) (as_bytes s))
      (replicate (len - min (length (as_bytes s)) len) 0),
  length-take (min (length (as_bytes s)) len) (as_bytes s),
  length-replicate {A = ℕ} (len - min (length (as_bytes s)) len) 0,
)

replicate-IsByte : (n : ℕ) → All IsByte (replicate n 0)
replicate-IsByte zero = tt
replicate-IsByte (suc n) = (omega arith, replicate-IsByte n)

pub put_octet_str-IsByte : (s : Str) (len : ℕ) → IsStr s → All IsByte (put_octet_str s len)
unfolding put_octet_str
put_octet_str-IsByte s len h =
    let n = min (length (as_bytes s)) len in
    All-append IsByte (take n (as_bytes s)) (replicate (len - n) 0)
      (All-take IsByte n (as_bytes s) (as_bytes-IsByte s h)) (replicate-IsByte (len - n))

trim_end-zeros : (n : ℕ) → trim_end (replicate n 0) ≡ []
unfolding trim_end
trim_end-zeros zero = refl
trim_end-zeros (suc n) = rw (trim_end-zeros n)

-- Bytes before a part that keeps something are all kept.
trim_end-append :
    (xs ys : List ℕ) (z : ℕ) (zs : List ℕ)
    → trim_end ys ≡ z ∷ zs
    → trim_end (xs ++ ys) ≡ xs ++ (z ∷ zs)
unfolding trim_end
trim_end-append [] ys z zs e = e
trim_end-append (x ∷ []) ys z zs e = rw e
trim_end-append (x ∷ w ∷ xs) ys z zs e = rw (trim_end-append (w ∷ xs) ys z zs e)

trim_end-utf8 : (c n : ℕ) → c ≢ 0 → c ≢ 0x20 → trim_end (utf8 c ++ replicate n 0) ≡ utf8 c
unfolding trim_end utf8
trim_end-utf8 c n h g = ground (arith, trim_end-zeros n)

utf8-ne-nil : (c : ℕ) → utf8 c ≢ []
unfolding utf8
utf8-ne-nil c = ground arith

as_bytes-ne-nil : (c : ℕ) (s : Str) → as_bytes (c ∷ s) ≢ []
unfolding as_bytes
as_bytes-ne-nil c s = ground (arith, utf8-ne-nil c)

split_first : (xs : List ℕ) → xs ≢ [] → (y : ℕ) × (ys : List ℕ) × (xs ≡ y ∷ ys)
split_first [] h = absurd (h refl)
split_first (y ∷ ys) h = (y, ys, refl)

trim_end-as_bytes :
    (s : Str) (n : ℕ) → EndsClean s → trim_end (as_bytes s ++ replicate n 0) ≡ as_bytes s
unfolding as_bytes
trim_end-as_bytes [] n h = trim_end-zeros n
trim_end-as_bytes (c ∷ []) n h = rw (append-nil (utf8 c)) (trim_end-utf8 c n h.0 h.1)
trim_end-as_bytes (c ∷ d ∷ s) n h =
    let (b, bs, e) = split_first (as_bytes (d ∷ s)) (as_bytes-ne-nil d s) in
    rw (append_assoc (utf8 c) (as_bytes (d ∷ s)) (replicate n 0)) (
      trim_end-append (utf8 c) (as_bytes (d ∷ s) ++ replicate n 0) b bs
        (trim_end-as_bytes (d ∷ s) n h ∙ e)
      ∙ ap (◌++◌ (utf8 c)) (sym e))

-- A string field gives back what was written into it: a string of scalar values that is no longer
-- than the field and ends in neither NUL nor space.
pub read-put_octet_str : (s : Str) (len : ℕ) → Fits len s → read_octet_str (put_octet_str s len) ≡ s
unfolding read_octet_str put_octet_str
read-put_octet_str s len f =
    rw
      (
        take_all (min (length (as_bytes s)) len) (as_bytes s) (omega (arith, f.short)),
        trim_end-as_bytes s (len - min (length (as_bytes s)) len) f.clean,
      )
      (from_utf8_lossy-as_bytes s f.scalars)

-- Of a longer string a field keeps the first bytes.
pub put_octet_str-truncates :
    (s : Str) (len : ℕ) → len ≤ length (as_bytes s) → put_octet_str s len ≡ take len (as_bytes s)
unfolding put_octet_str
put_octet_str-truncates s len h = rw (min-eq, zero_left) (append-nil (take len (as_bytes s)))
  where
    min-eq : min (length (as_bytes s)) len ≡ len
    min-eq = omega arith

    zero_left : len - len ≡ 0
    zero_left = omega arith
