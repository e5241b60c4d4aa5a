-- ===== src/Codec/Stable.antt =====
-- src/codec.rs: what `decode` reads of the front of a buffer, whatever stands behind.
use cmppprotocol.Prelude.{
  ℕ, zero, suc, ◌+◌, ◌≤◌, ◌≡◌, ◌⊎◌, inl, inr, refl, ap, ◌∙◌, List, [], ◌∷◌, ◌++◌, length,
  length-append, length-drop, ◌<◌, false, ltb→lt, take, drop, arith, Bool-cases, ltb, le→ltb,
  ltb→le, in_range, none,
}
use cmppprotocol.Error.{ok, err, decode, bad_length}
use cmppprotocol.Types.{header_length, max_message_length}
use cmppprotocol.Pdu.Bytes.{from_be32}
use cmppprotocol.Codec.{decode_split, decode_framed, decode_frame, word_of, word_at}

drop-append_left :
    {A : Type 0} (n : ℕ) (xs ys : List A) → n ≤ length xs → drop n (xs ++ ys) ≡ drop n xs ++ ys
drop-append_left zero xs ys h = refl
drop-append_left (suc n) [] ys h = absurd (omega arith)
drop-append_left (suc n) (x ∷ xs) ys h = drop-append_left n xs ys (omega arith)

take-append_left :
    {A : Type 0} (n : ℕ) (xs ys : List A) → n ≤ length xs → take n (xs ++ ys) ≡ take n xs
take-append_left zero xs ys h = refl
take-append_left (suc n) [] ys h = absurd (omega arith)
take-append_left (suc n) (x ∷ xs) ys h = ap (◌∷◌ x) (take-append_left n xs ys (omega arith))

word_of_stable :
    (xs : List ℕ) → 4 ≤ length xs → (w : ℕ) × ((ys : List ℕ) → word_of (xs ++ ys) ≡ ok w)
word_of_stable (a ∷ b ∷ c ∷ d ∷ xs) h = (from_be32 a b c d, λ ys. refl)
word_of_stable _ h = absurd (omega arith)

word_at_stable :
    (i : ℕ) (src : List ℕ)
    → i + 4 ≤ length src
    → (w : ℕ) × ((more : List ℕ) → word_at i (src ++ more) ≡ ok w)
word_at_stable i src h =
    let (w, e) = word_of_stable (drop i src) (omega (arith, length-drop i src)) in
    (w, λ more. ap word_of (drop-append_left i src more (omega arith)) ∙ e more)

-- A buffer with a header keeps it, whatever arrives.
pub header_stable :
    (src : List ℕ)
    → 12 ≤ length src
    → (total command sequence : ℕ) × ((more : List ℕ)
        → decode_frame (src ++ more) ≡ decode_framed total command sequence (src ++ more))
      × ((more : List ℕ) → word_at 0 (src ++ more) ≡ ok total)
unfolding decode_frame
header_stable src h =
    let (t, et) = word_at_stable 0 src (omega arith) in
    let (c, ec) = word_at_stable 4 src (omega arith) in
    let (s, es) = word_at_stable 8 src (omega arith) in
    (
      t,
      c,
      s,
      λ more. rw (
        le→ltb (length (src ++ more)) 12 (omega (arith, length-append src more)),
        et more,
        ec more,
        es more,
      ),
      et,
    )

pub outside : (t : ℕ) → in_range header_length max_message_length t ≡ false → (t < 12) ⊎ (65536 < t)
outside t h = ground arith

pub framed_cases :
    (t c s : ℕ) (src : List ℕ)
    → (((t < 12) ⊎ (65536 < t))
        × ((more : List ℕ)
            → decode_framed t c s (src ++ more)
              ≡ record { result = err (decode (bad_length t)); left = src ++ more }))
      ⊎ ((12 ≤ t)
          × (t ≤ 65536)
          × (length src < t)
          × (decode_framed t c s src ≡ record { result = ok none; left = src }))
      ⊎ ((12 ≤ t)
          × (t ≤ 65536)
          × (t ≤ length src)
          × ((more : List ℕ)
              → decode_framed t c s (src ++ more) ≡ decode_split t c s (src ++ more)))
unfolding decode_framed
framed_cases t c s src = elim (Bool-cases (in_range header_length max_message_length t)) [
  | inr bad ↦ inl (outside t bad, λ more. rw bad)
  | inl fits ↦ elim (Bool-cases (ltb (length src) t)) [
    | inl short ↦ inr (inl (ground arith, ground arith, ltb→lt _ t short, rw (fits, short)))
    | inr whole ↦ inr (
        inr (
          ground arith,
          ground arith,
          ltb→le _ t whole,
          λ more. rw (
            fits,
            le→ltb (length (src ++ more)) t
                (omega (arith, length-append src more, ltb→le _ t whole)),
          ),
        ))
  ]
]

pub split-append :
    (t c s : ℕ) (src more : List ℕ)
    → t ≤ length src
    → decode_split t c s (src ++ more) ≡ record {
      result = (decode_split t c s src).result;
      left = (decode_split t c s src).left ++ more;
    }
unfolding decode_split
split-append t c s src more h = rw (take-append_left t src more h, drop-append_left t src more h)
