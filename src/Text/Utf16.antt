-- ===== src/Text/Utf16.antt =====
-- UTF-16 of src/encoding.rs's UCS2 content: the lossy decoder reads back what `encode_utf16` gives.
use cmppprotocol.Prelude.{
  ℕ, ◌<◌, ◌≡◌, refl, ap, ◌∙◌, List, [], ◌∷◌, ◌++◌, All, length, All-append, arith, append_assoc,
  append-nil, none,
}
use cmppprotocol.Text.{
  Str, IsScalar, IsStr, len_utf16, utf16, encode_utf16, utf16_step, utf16_lossy_from,
  from_utf16_lossy,
}

abbrev pub IsUnit16 : ℕ → Type 0
IsUnit16 u = u < 65536

utf16_lossy_from-utf16 :
    (c : ℕ) (us : List ℕ)
    → IsScalar c
    → utf16_lossy_from none (utf16 c ++ us) ≡ c ∷ utf16_lossy_from none us
unfolding utf16 utf16_lossy_from utf16_step
utf16_lossy_from-utf16 c us h = ground arith

lossy_from-encode_utf16 :
    (s : Str) (us : List ℕ)
    → IsStr s
    → utf16_lossy_from none (encode_utf16 s ++ us) ≡ s ++ utf16_lossy_from none us
unfolding encode_utf16
lossy_from-encode_utf16 [] us h = refl
lossy_from-encode_utf16 (c ∷ s) us h =
    rw (append_assoc (utf16 c) (encode_utf16 s) us)
      (utf16_lossy_from-utf16 c _ h.0 ∙ ap (◌∷◌ c) (lossy_from-encode_utf16 s us h.1))

-- Decoding what `encode_utf16` gives yields the string.
pub from_utf16_lossy-encode_utf16 : (s : Str) → IsStr s → from_utf16_lossy (encode_utf16 s) ≡ s
unfolding from_utf16_lossy utf16_lossy_from
from_utf16_lossy-encode_utf16 s h =
    rw (← append-nil (encode_utf16 s)) (lossy_from-encode_utf16 s [] h ∙ append-nil s)

pub length-utf16 : (c : ℕ) → length (utf16 c) ≡ len_utf16 c
unfolding utf16 len_utf16
length-utf16 c = ground arith

utf16-IsUnit16 : (c : ℕ) → IsScalar c → All IsUnit16 (utf16 c)
unfolding utf16
utf16-IsUnit16 c h = ground arith

pub encode_utf16-IsUnit16 : (s : Str) → IsStr s → All IsUnit16 (encode_utf16 s)
unfolding encode_utf16
encode_utf16-IsUnit16 [] h = tt
encode_utf16-IsUnit16 (c ∷ s) h =
    All-append IsUnit16 (utf16 c) _ (utf16-IsUnit16 c h.0) (encode_utf16-IsUnit16 s h.1)
