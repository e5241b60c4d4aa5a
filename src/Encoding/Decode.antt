-- ===== src/Encoding/Decode.antt =====
-- src/encoding.rs: the segments of a content decode to the content.
use cmppprotocol.Prelude.{
  ℕ, suc, ◌+◌, ◌*◌, ◌/◌, ◌%◌, ◌≤◌, ◌≡◌, ◌≢◌, refl, sym, ap, ◌∙◌, List, [], ◌∷◌, ◌++◌, append-nil,
  All, true, ◌==◌, length, length-append, arith, ◌⊎◌, inl, inr, Bool-cases, map, lt→ltb,
}
use mathlib.Core.Path.{subst}
use cmppprotocol.Error.{Error, Result, ok, err, panic}
use cmppprotocol.Text.{Str, IsScalar, IsStr, encode_utf16, utf16, from_utf8_lossy}
use cmppprotocol.Text.Utf8.{from_utf8_lossy-as_bytes}
use cmppprotocol.Text.Utf16.{
  IsUnit16, encode_utf16-IsUnit16, from_utf16_lossy-encode_utf16, length-utf16,
}
use cmppprotocol.Encoding.{
  SmsEncoding, ascii, ucs2, gbk, msg_fmt, SmsSegment, Gbk, is_ascii, choose_encoding,
  encode_content, be_units, units_of, decode_msg_content,
}
use cmppprotocol.Encoding.Plan.{udh, ucs2_bytes, try_split_content}
use cmppprotocol.Encoding.Cuts.{concat}
use cmppprotocol.Encoding.Ascii.{IsAsciiChar, is_ascii-All, as_bytes-ascii}
use cmppprotocol.Encoding.Pieces.{ucs2_size-le}
use cmppprotocol.Encoding.Split.{parts}
use cmppprotocol.Encoding.Prepare.{size, IsPieceOf}
use cmppprotocol.Encoding.Segments.{try_split_content_total}

units_of-be_units : (us : List ℕ) → All IsUnit16 us → units_of (be_units us) ≡ us
unfolding units_of be_units
units_of-be_units [] h = refl
units_of-be_units (u ∷ us) h =
    let whole : u / 256 % 256 * 256 + u % 256 ≡ u = omega (arith, h.0) in
    rw (whole, units_of-be_units us h.1)

length-be_units : (us : List ℕ) → length (be_units us) ≡ 2 * length us
unfolding be_units
length-be_units [] = refl
length-be_units (u ∷ us) = omega (arith, length-be_units us)

length-encode_utf16 : (s : Str) → 2 * length (encode_utf16 s) ≡ ucs2_bytes s
unfolding encode_utf16 ucs2_bytes
length-encode_utf16 [] = refl
length-encode_utf16 (c ∷ s) =
    omega (arith, length-append (utf16 c) (encode_utf16 s), length-utf16 c, length-encode_utf16 s)

map_mod : (s : Str) → All IsAsciiChar s → map (λ (c : ℕ). c % 256) s ≡ s
map_mod [] h = refl
map_mod (c ∷ s) h = let small : c % 256 ≡ c = omega (arith, h.0) in rw (small, map_mod s h.1)

length-map_mod : (s : Str) → length (map (λ (c : ℕ). c % 256) s) ≡ length s
length-map_mod [] = refl
length-map_mod (c ∷ s) = ap suc (length-map_mod s)

size-pos : (p : Str) (enc : SmsEncoding) → enc ≢ gbk → 1 ≤ length p → 1 ≤ size enc p
unfolding ucs2_bytes
size-pos [] enc n h = absurd (omega arith)
size-pos (c ∷ p) ascii n h = omega arith
size-pos (c ∷ p) ucs2 n h = omega (arith, ucs2_size-le c)
size-pos (c ∷ p) gbk n h = absurd (n refl)

pub choose_encoding-≢gbk : (content : Str) → choose_encoding content ≢ gbk
unfolding choose_encoding
choose_encoding-≢gbk content h = ground arith

-- The pieces of a text are texts.
All-split : (P : ℕ → Type 0) (xs ys : Str) → All P (xs ++ ys) → All P xs × All P ys
All-split P [] ys h = (tt, h)
All-split P (x ∷ xs) ys h = let (a, b) = All-split P xs ys h.1 in ((h.0, a), b)

All-concat : (P : ℕ → Type 0) (ps : List Str) → All P (concat ps) → All (All P) ps
All-concat P [] h = tt
All-concat P (p ∷ ps) h = let (a, b) = All-split P p (concat ps) h in (a, All-concat P ps b)

pub ok-≢err : {A : Type 0} {a : A} {e : Error} → ok a ≢ err e
ok-≢err h = cc

module _ (g : Gbk) where
  pub length-encode_content :
      (p : Str) (enc : SmsEncoding) → enc ≢ gbk → length (encode_content g p enc) ≡ size enc p
  unfolding encode_content
  length-encode_content p ascii h = length-map_mod p
  length-encode_content p ucs2 h = length-be_units (encode_utf16 p) ∙ length-encode_utf16 p
  length-encode_content p gbk h = absurd (h refl)

  decode-ascii :
      (p : Str)
      → IsStr p
      → All IsAsciiChar p
      → decode_msg_content g (msg_fmt ascii) 0 (encode_content g p ascii) ≡ p
  unfolding decode_msg_content encode_content msg_fmt
  decode-ascii p s a =
      rw (map_mod p a)
        (ap from_utf8_lossy (sym (as_bytes-ascii p a)) ∙ from_utf8_lossy-as_bytes p s)

  decode-ucs2 :
      (p : Str) → IsStr p → decode_msg_content g (msg_fmt ucs2) 0 (encode_content g p ucs2) ≡ p
  unfolding decode_msg_content encode_content msg_fmt
  decode-ucs2 p s =
      let units = encode_utf16 p in
      let even : (length (be_units units) % 2 == 0) ≡ true =
        ground (arith, length-be_units units) in
      rw (even, units_of-be_units units (encode_utf16-IsUnit16 p s))
        (from_utf16_lossy-encode_utf16 p s)

  decode-whole :
      (p : Str) (enc : SmsEncoding)
      → IsStr p
      → enc ≢ gbk
      → (is_ascii p ≡ true) ⊎ (enc ≡ ucs2)
      → decode_msg_content g (msg_fmt enc) 0 (encode_content g p enc) ≡ p
  decode-whole p ascii s n (inl a) = decode-ascii p s (is_ascii-All p a)
  decode-whole p ascii s n (inr e) = cc
  decode-whole p ucs2 s n h = decode-ucs2 p s
  decode-whole p gbk s n h = absurd (n refl)

  -- The header of a part is dropped before decoding.
  decode-udh :
      (fmt reference total seq : ℕ) (e : List ℕ)
      → 1 ≤ length e
      → decode_msg_content g fmt 1 (udh reference total seq ++ e) ≡ decode_msg_content g fmt 0 e
  unfolding decode_msg_content
  decode-udh fmt reference total seq e h =
      rw (lt→ltb 6 (length (udh reference total seq ++ e)) (omega arith))

  abbrev pub decode_segment : SmsSegment → Str
  decode_segment s = decode_msg_content g s.msg_fmt s.tp_udhi s.content

  decode-parts :
      (enc : SmsEncoding) (total reference index : ℕ) (ps : List Str)
      → enc ≢ gbk
      → All IsStr ps
      → All (IsPieceOf enc) ps
      → map decode_segment (parts g enc total reference index ps) ≡ ps
  unfolding parts
  decode-parts enc total reference index [] n s a = refl
  decode-parts enc total reference index (p ∷ ps) n s a =
      let p_ok = a.0 in
      rw (
        decode-udh (msg_fmt enc) reference total (index + 1) (encode_content g p enc)
            (omega (arith, length-encode_content p enc n, size-pos p enc n p_ok.some_content)),
        decode-whole p enc s.0 n p_ok.encodable,
        decode-parts enc total reference (index + 1) ps n s.1 a.1,
      )

  unfoldable pub split_of : Result (List SmsSegment × ℕ) → List SmsSegment
  split_of (ok (segs, counter)) = segs
  split_of (err e) = []
  split_of panic = []

  -- Where a text is split, the texts of the segments, each decoded by itself, make up the text.
  pub try_split_content-decode :
      (content : Str) (counter counter' : ℕ) (segs : List SmsSegment)
      → IsStr content
      → try_split_content g content counter ≡ ok (segs, counter')
      → concat (map decode_segment segs) ≡ content
  unfolding split_of
  try_split_content-decode content counter counter' segs s h =
      elim (try_split_content_total g content counter) [
        | inl (short, answer) ↦
            subst (λ (l : List SmsSegment). concat (map decode_segment l) ≡ content)
              (ap split_of (sym answer ∙ h)) (append-nil _ ∙ decode-whole content enc s n encodable)
        | inr (inl (ps, joined, pieces, filled, two, few, long, answer)) ↦
            subst (λ (l : List SmsSegment). concat (map decode_segment l) ≡ content)
              (ap split_of (sym answer ∙ h))
              (ap concat (
                  decode-parts enc (length ps) (counter % 256) 0 ps n
                    (All-concat IsScalar ps (subst IsStr (sym joined) s)) pieces)
                ∙ joined)
        | inr (inr (ps, joined, pieces, filled, many, long, answer)) ↦
            absurd (ok-≢err (sym h ∙ answer))
      ]
    where
      enc : SmsEncoding
      enc = choose_encoding content

      n : enc ≢ gbk
      n = choose_encoding-≢gbk content

      encodable : (is_ascii content ≡ true) ⊎ (enc ≡ ucs2)
      encodable =
          unfold choose_encoding in
          elim (Bool-cases (is_ascii content)) [ inl a ↦ inl a | inr a ↦ inr (rw a) ]
