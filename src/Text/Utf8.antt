-- ===== src/Text/Utf8.antt =====
-- UTF-8 of src/pdu.rs's strings: the lossy decoder reads back what `str::as_bytes` gives.
use cmppprotocol.Prelude.{
  ℕ, ◌+◌, ◌-◌, ◌*◌, ◌/◌, ◌%◌, ◌≤◌, ◌<◌, ◌≡◌, inl, inr, refl, ap, ◌∙◌, List, [], ◌∷◌, ◌++◌, All,
  All-append, arith, append_assoc, append-nil, Bool-cases, ltb, ◌==◌, if◌then◌else◌, ltb→lt, ltb→le,
}
use cmppprotocol.Text.{
  Str, IsByte, IsScalar, IsStr, utf8, as_bytes, Utf8State, utf8_start, utf8_step, utf8_lossy_from,
  from_utf8_lossy,
}

abbrev due : ℕ → ℕ → ℕ → ℕ → Utf8State
due n lo hi v = record { need = n; lo = lo; hi = hi; acc = v }

abbrev if_eq : ℕ → ℕ → ℕ → ℕ → ℕ
if_eq k n a b = if k == n then a else b

-- One step of the decoder, and the steps behind it.
lossy_chain :
    (s t : Utf8State) (b : ℕ) (out : Str) (bs : List ℕ) {rest : Str}
    → utf8_step s b ≡ (out, t)
    → utf8_lossy_from t bs ≡ rest
    → utf8_lossy_from s (b ∷ bs) ≡ out ++ rest
unfolding utf8_lossy_from
lossy_chain s t b out bs e f = rw (e, f)

step_one : (b : ℕ) → b < 0x80 → utf8_step utf8_start b ≡ (b ∷ [], utf8_start)
unfolding utf8_step
step_one b h = ground arith

step_two : (k : ℕ) → 2 ≤ k → k < 32 → utf8_step utf8_start (0xc0 + k) ≡ ([], due 1 0x80 0xbf k)
unfolding utf8_step
step_two k h g = ground arith

-- The second byte of a three-byte or four-byte sequence has a narrower range after some first bytes.
step_three :
    (k : ℕ)
    → k < 16
    → utf8_step utf8_start (0xe0 + k) ≡ ([], due 2 (if_eq k 0 0xa0 0x80) (if_eq k 13 0x9f 0xbf) k)
unfolding utf8_step
step_three k g = ground arith

step_four :
    (k : ℕ)
    → k < 5
    → utf8_step utf8_start (0xf0 + k) ≡ ([], due 3 (if_eq k 0 0x90 0x80) (if_eq k 4 0x8f 0xbf) k)
unfolding utf8_step
step_four k g = ground arith

step_last :
    (lo hi v k : ℕ)
    → lo ≤ 0x80 + k
    → 0x80 + k ≤ hi
    → utf8_step (due 1 lo hi v) (0x80 + k) ≡ ((v * 64 + k) ∷ [], utf8_start)
unfolding utf8_step
step_last lo hi v k h g = ground arith

step_more :
    (n lo hi v k : ℕ)
    → 2 ≤ n
    → lo ≤ 0x80 + k
    → 0x80 + k ≤ hi
    → utf8_step (due n lo hi v) (0x80 + k) ≡ ([], due (n - 1) 0x80 0xbf (v * 64 + k))
unfolding utf8_step
step_more n lo hi v k m h g = ground arith

lossy_two :
    (c : ℕ) (bs : List ℕ)
    → 0x80 ≤ c
    → c < 0x800
    → utf8_lossy_from utf8_start ((0xc0 + c / 64) ∷ (0x80 + c % 64) ∷ bs)
      ≡ c ∷ utf8_lossy_from utf8_start bs
lossy_two c bs l h =
    lossy_chain _ _ _ [] _ (step_two (c / 64) (omega arith) (omega arith)) (
      lossy_chain _ _ _ _ bs (step_last 0x80 0xbf (c / 64) (c % 64) (omega arith) (omega arith))
        refl)
    ∙ ap (λ (v : ℕ). v ∷ utf8_lossy_from utf8_start bs) whole
  where
    whole : c / 64 * 64 + c % 64 ≡ c
    whole = omega arith

lossy_three :
    (c : ℕ) (bs : List ℕ)
    → 0x800 ≤ c
    → c < 0x10000
    → IsScalar c
    → utf8_lossy_from utf8_start ((0xe0 + c / 4096) ∷ (0x80 + c / 64 % 64) ∷ (0x80 + c % 64) ∷ bs)
      ≡ c ∷ utf8_lossy_from utf8_start bs
lossy_three c bs l h sc =
    lossy_chain _ _ _ [] _ (step_three (c / 4096) (omega arith)) (
      lossy_chain _ _ _ [] _
        (step_more 2 _ _ (c / 4096) (c / 64 % 64) (omega arith) (ground arith) (ground arith))
        (lossy_chain _ _ _ _ bs (step_last 0x80 0xbf _ (c % 64) (omega arith) (omega arith)) refl))
    ∙ ap (λ (v : ℕ). v ∷ utf8_lossy_from utf8_start bs) whole
  where
    whole : (c / 4096 * 64 + c / 64 % 64) * 64 + c % 64 ≡ c
    whole = omega arith

lossy_four :
    (c : ℕ) (bs : List ℕ)
    → 0x10000 ≤ c
    → c < 0x110000
    → utf8_lossy_from utf8_start
        ((0xf0 + c / 262144) ∷ (0x80 + c / 4096 % 64) ∷ (0x80 + c / 64 % 64) ∷ (0x80 + c % 64) ∷ bs)
      ≡ c ∷ utf8_lossy_from utf8_start bs
lossy_four c bs l h =
    lossy_chain _ _ _ [] _ (step_four (c / 262144) (omega arith)) (
      lossy_chain _ _ _ [] _
        (step_more 3 _ _ (c / 262144) (c / 4096 % 64) (omega arith) (ground arith) (ground arith))
        (lossy_chain _ _ _ [] _
          (step_more 2 0x80 0xbf _ (c / 64 % 64) (omega arith) (omega arith) (omega arith))
          (lossy_chain _ _ _ _ bs (step_last 0x80 0xbf _ (c % 64) (omega arith) (omega arith))
            refl)))
    ∙ ap (λ (v : ℕ). v ∷ utf8_lossy_from utf8_start bs) whole
  where
    whole : ((c / 262144 * 64 + c / 4096 % 64) * 64 + c / 64 % 64) * 64 + c % 64 ≡ c
    whole = omega arith

utf8_lossy_from-utf8 :
    (c : ℕ) (bs : List ℕ)
    → IsScalar c
    → utf8_lossy_from utf8_start (utf8 c ++ bs) ≡ c ∷ utf8_lossy_from utf8_start bs
unfolding utf8
utf8_lossy_from-utf8 c bs h = elim (Bool-cases (ltb c 0x80)) [
  | inl one ↦ rw one (lossy_chain _ _ _ _ bs (step_one c (ltb→lt c 0x80 one)) refl)
  | inr a ↦ rw a (elim (Bool-cases (ltb c 0x800)) [
    | inl two ↦ rw two (lossy_two c bs (ltb→le c 0x80 a) (ltb→lt c 0x800 two))
    | inr b ↦ rw b (elim (Bool-cases (ltb c 0x10000)) [
      | inl three ↦ rw three (lossy_three c bs (ltb→le c 0x800 b) (ltb→lt c 0x10000 three) h)
      | inr d ↦ rw d (lossy_four c bs (ltb→le c 0x10000 d) (omega (arith, ltb→le c 0x10000 d)))
    ])
  ])
]

lossy_from-as_bytes :
    (s : Str) (bs : List ℕ)
    → IsStr s
    → utf8_lossy_from utf8_start (as_bytes s ++ bs) ≡ s ++ utf8_lossy_from utf8_start bs
unfolding as_bytes
lossy_from-as_bytes [] bs h = refl
lossy_from-as_bytes (c ∷ s) bs h =
    rw (append_assoc (utf8 c) (as_bytes s) bs)
      (utf8_lossy_from-utf8 c _ h.0 ∙ ap (◌∷◌ c) (lossy_from-as_bytes s bs h.1))

-- Decoding what `as_bytes` gives yields the string.
pub from_utf8_lossy-as_bytes : (s : Str) → IsStr s → from_utf8_lossy (as_bytes s) ≡ s
unfolding from_utf8_lossy utf8_lossy_from
from_utf8_lossy-as_bytes s h =
    rw (← append-nil (as_bytes s)) (lossy_from-as_bytes s [] h ∙ append-nil s)

pub utf8-IsByte : (c : ℕ) → IsScalar c → All IsByte (utf8 c)
unfolding utf8
utf8-IsByte c h = ground arith

pub as_bytes-IsByte : (s : Str) → IsStr s → All IsByte (as_bytes s)
unfolding as_bytes
as_bytes-IsByte [] h = tt
as_bytes-IsByte (c ∷ s) h = All-append IsByte (utf8 c) _ (utf8-IsByte c h.0) (as_bytes-IsByte s h.1)
