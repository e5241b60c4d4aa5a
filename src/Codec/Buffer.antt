-- ===== src/Codec/Buffer.antt =====
-- src/codec.rs: `decode` on any buffer. It answers, it takes a bounded number of bytes from the front, and
-- bytes that arrive later do not change what it has answered.
use cmppprotocol.Prelude.{
  ℕ, ◌≤◌, ◌≡◌, ◌≢◌, ◌⊎◌, inl, inr, refl, sym, ap, ◌∙◌, List, [], ◌∷◌, ◌++◌, append-nil, length,
  length-take, take-append-drop, ◌<◌, ltb→lt, take, drop, arith, Bool-cases, ltb, ltb→le, none,
  some,
}
use mathlib.Core.Path.{subst}
use cmppprotocol.Error.{ok, err, decode, DecodeReason, bad_length}
use cmppprotocol.Types.{header_length}
use cmppprotocol.Pdu.Message.{Frame}
use cmppprotocol.Pdu.Total.{ArraysFit, decode_pdu_total}
use cmppprotocol.Codec.{Decoded, decode_split, decode_framed, decode_frame, word_at}
use cmppprotocol.Codec.Stable.{header_stable, framed_cases, split-append}

-- A frame of the first n bytes: n is the number in the first four bytes, and decode gives the same
-- answer on those bytes alone and leaves none of them, whatever stands behind.
abbrev pub FromFirst : ℕ → List ℕ → Decoded → Type 0
FromFirst n src d =
    (12 ≤ n)
    × (n ≤ 65536)
    × (n ≤ length src)
    × (word_at 0 src ≡ ok n)
    × (d.left ≡ drop n src)
    × (decode_frame (take n src) ≡ record { result = d.result; left = [] })

-- What a call may answer: it waits and keeps the buffer; it refuses the length in the first four bytes and
-- keeps the buffer; or it answers for the first 12 to 65536 bytes, with a decode error or a frame.
abbrev pub DecodesTo : List ℕ → Decoded → Type 0
DecodesTo src d =
    (((length src < 12)
        ⊎ ((n : ℕ) × (word_at 0 src ≡ ok n) × (12 ≤ n) × (n ≤ 65536) × (length src < n)))
      × (d ≡ record { result = ok none; left = src }))
    ⊎ ((n : ℕ) × (word_at 0 src ≡ ok n)
        × ((n < 12) ⊎ (65536 < n))
        × (d ≡ record { result = err (decode (bad_length n)); left = src }))
    ⊎ ((reason : DecodeReason) × (n : ℕ) × (d.result ≡ err (decode reason)) × FromFirst n src d)
    ⊎ ((f : Frame) × (n : ℕ) × ArraysFit f.pdu × (d.result ≡ ok (some f)) × FromFirst n src d)

drop-all : {A : Type 0} (xs : List A) → drop (length xs) xs ≡ []
drop-all [] = refl
drop-all (x ∷ xs) = drop-all xs

take-all : {A : Type 0} (xs : List A) → take (length xs) xs ≡ xs
take-all [] = refl
take-all (x ∷ xs) = ap (◌∷◌ x) (take-all xs)

-- The frame's bytes alone are split in the same way, and nothing is left of them.
split_take :
    (t c s : ℕ) (src : List ℕ)
    → length (take t src) ≡ t
    → decode_split t c s (take t src)
      ≡ record { result = (decode_split t c s src).result; left = [] }
unfolding decode_split
split_take t c s src e = rw (alone, none_left)
  where
    alone : take t (take t src) ≡ take t src
    alone = subst (λ (n : ℕ). take n (take t src) ≡ take t src) e (take-all (take t src))

    none_left : drop t (take t src) ≡ []
    none_left = subst (λ (n : ℕ). drop n (take t src) ≡ []) e (drop-all (take t src))

-- A header in range and a buffer that holds the frame.
framed_split :
    (t c s : ℕ) (src : List ℕ)
    → 12 ≤ t
    → t ≤ 65536
    → t ≤ length src
    → decode_framed t c s src ≡ decode_split t c s src
framed_split t c s src lo hi w = elim (framed_cases t c s src) [
  | inl (out, bad) ↦
      absurd (elim out [ inl a ↦ omega (arith, a, lo) | inr b ↦ omega (arith, b, hi) ])
  | inr (inl (lo', hi', short, wait)) ↦ absurd (omega (arith, w, short))
  | inr (inr (lo', hi', w', split)) ↦ rw append-nil at (split [])
]

split_FromFirst :
    (t : ℕ) (src : List ℕ)
    → 12 ≤ t
    → t ≤ 65536
    → t ≤ length src
    → word_at 0 src ≡ ok t
    → (c s : ℕ) × (decode_frame src ≡ decode_split t c s src) × FromFirst t src (decode_frame src)
split_FromFirst t src lo hi w first =
    let n : length (take t src) ≡ t = omega (arith, length-take t src, w) in
    let (t', c, s, e, f) = header_stable (take t src) (omega (arith, n, lo)) in
    let joined : take t src ++ drop t src ≡ src = take-append-drop t src in
    let found : word_at 0 src ≡ ok t' = rw joined at (f (drop t src)) in
    let same : t' ≡ t = cc (found, first) in
    let whole : decode_frame src ≡ decode_framed t' c s src = rw joined at (e (drop t src)) in
    let alone : decode_frame (take t src) ≡ decode_framed t' c s (take t src) =
      rw append-nil at (e []) in
    let split : decode_frame src ≡ decode_split t c s src =
      rw same at whole ∙ framed_split t c s src lo hi w in
    let split' : decode_frame (take t src) ≡ decode_split t c s (take t src) =
      rw same at alone ∙ framed_split t c s (take t src) lo hi (omega (arith, n)) in
    (
      c,
      s,
      split,
      (
        lo,
        hi,
        w,
        first,
        ap (λ (d : Decoded). d.left) split ∙ (unfold decode_split in refl),
        split'
            ∙ split_take t c s src n
            ∙ ap (λ (d : Decoded). record { result = d.result; left = [] }) (sym split),
      ),
    )

split_answer :
    (t c s : ℕ) (src : List ℕ)
    → ((reason : DecodeReason) × ((decode_split t c s src).result ≡ err (decode reason)))
      ⊎ ((f : Frame) × ArraysFit f.pdu × ((decode_split t c s src).result ≡ ok (some f)))
unfolding decode_split
split_answer t c s src =
    elim (decode_pdu_total (record { total_length = t; command_id = c; sequence_id = s })
      (drop header_length (take t src))) [
        | inl (d, e) ↦ inl (d, rw e)
        | inr (p, a, e) ↦ inr (record { sequence_id = s; pdu = p }, a, rw e)
      ]

framed_DecodesTo :
    (t : ℕ) (src : List ℕ)
    → 12 ≤ t
    → t ≤ 65536
    → t ≤ length src
    → word_at 0 src ≡ ok t
    → DecodesTo src (decode_frame src)
framed_DecodesTo t src lo hi w first =
    let (c, s, split, from) = split_FromFirst t src lo hi w first in
    let answer = ap (λ (d : Decoded). d.result) split in
    elim (split_answer t c s src) [
      | inl (reason, e) ↦ inr (inr (inl (reason, t, answer ∙ e, from)))
      | inr (f, a, e) ↦ inr (inr (inr (f, t, a, answer ∙ e, from)))
    ]

-- On any buffer, decode does one of four things. It waits and keeps the buffer, which is shorter
-- than a header or than the length in its first four bytes; it refuses that length, outside 12 to
-- 65536, and keeps the buffer; or it drops as many bytes as that length from the front, with a
-- decode error or with a frame whose fixed arrays have their lengths, and then it gives that answer
-- on those bytes alone and leaves none of them. It never panics.
pub decode_frame_total : (src : List ℕ) → DecodesTo src (decode_frame src)
decode_frame_total src = elim (Bool-cases (ltb (length src) 12)) [
  | inl short ↦ inl (inl (ltb→lt _ 12 short), (unfold decode_frame in rw short))
  | inr long ↦
      let (t, c, s, e, first) = header_stable src (ltb→le _ 12 long) in
      let e' : decode_frame src ≡ decode_framed t c s src = rw append-nil at (e []) in
      let first' : word_at 0 src ≡ ok t = rw append-nil at (first []) in
      elim (framed_cases t c s src) [
        | inl (out, bad) ↦ inr (inl (t, first', out, e' ∙ (rw append-nil at (bad []))))
        | inr (inl (lo, hi, short, wait)) ↦ inl (inr (t, first', lo, hi, short), e' ∙ wait)
        | inr (inr (lo, hi, h, split)) ↦ framed_DecodesTo t src lo hi h first'
      ]
]

-- Where decode has answered with a frame or an error, more bytes behind the buffer change nothing:
-- the answer is the same, and the new bytes stand behind what is left.
pub decode_frame-append :
    (src more : List ℕ)
    → (decode_frame src).result ≢ ok none
    → decode_frame (src ++ more)
      ≡ record { result = (decode_frame src).result; left = (decode_frame src).left ++ more }
decode_frame-append src more h = elim (Bool-cases (ltb (length src) 12)) [
  | inl short ↦ absurd (h (unfold decode_frame in rw short))
  | inr long ↦
      let (t, c, s, e, first) = header_stable src (ltb→le _ 12 long) in
      let e' : decode_frame src ≡ decode_framed t c s src = rw append-nil at (e []) in
      elim (framed_cases t c s src) [
        | inl (out, bad) ↦
            let bad' : decode_framed t c s src
                ≡ record { result = err (decode (bad_length t)); left = src } =
              rw append-nil at (bad []) in
            rw (e', bad') (e more ∙ bad more)
        | inr (inl (lo, hi, short, wait)) ↦ absurd (h (ap (λ (d : Decoded). d.result) (e' ∙ wait)))
        | inr (inr (lo, hi, w, split)) ↦
            let split' : decode_framed t c s src ≡ decode_split t c s src =
              rw append-nil at (split []) in
            rw (e', split') (e more ∙ split more ∙ split-append t c s src more w)
      ]
]
