-- ===== src/Encoding/Prepare.antt =====
-- src/encoding.rs: the plan of `prepare_submit_content` for a content that needs several segments.
use cmppprotocol.Prelude.{
  ℕ, ◌≤◌, ◌<◌, ◌≡◌, refl, sym, ap, ◌∙◌, List, [], ◌∷◌, append-nil, All, true, length, arith, ◌⊎◌,
  inl, inr, lt→leb,
}
use mathlib.Core.Path.{subst}
use cmppprotocol.Error.{ok}
use cmppprotocol.Text.{Str}
use cmppprotocol.Encoding.{SmsEncoding, ascii, ucs2, gbk, Range, len, is_ascii}
use cmppprotocol.Encoding.Plan.{
  ucs2_bytes, count_segments, chunk_lengths, div_ceil, push_ranges, ucs2_ranges, make_ranges,
}
use cmppprotocol.Encoding.Cuts.{Slices, Cuts, Cuts-Slices, Cuts-length, concat}
use cmppprotocol.Encoding.Pieces.{
  IsPiece, len-nil, ucs2_bytes-pos, ucs2_pieces, ucs2_ranges-Cuts, concat-ucs2_pieces,
  ucs2_pieces-IsPiece, count_ucs2-eq,
}
use cmppprotocol.Encoding.Filled.{
  Filled, chunk_lengths-Full, ascii_pieces-Filled, ucs2_pieces-Filled,
}
use cmppprotocol.Encoding.Ascii.{
  IsAsciiChar, IsAsciiPiece, is_ascii-All, len-ascii, sum, ascii_pieces, push_ranges-Cuts,
  concat-ascii_pieces, chunk_lengths-IsChunk, sum-chunk_lengths, length-chunk_lengths,
  ascii_pieces-IsAsciiPiece, length-ascii_pieces,
}

-- The size in bytes of a piece, encoded.
abbrev pub size : SmsEncoding → Str → ℕ
size ascii p = length p
size ucs2 p = ucs2_bytes p
size gbk p = 0

-- A piece of a long message: not empty, at most 134 bytes, in the character set of the message.
pub record IsPieceOf (enc : SmsEncoding) (p : Str) : Type 0 where
  pub some_content : 1 ≤ length p
  pub fits : size enc p ≤ 134
  pub encodable : is_ascii p ≡ true ⊎ (enc ≡ ucs2)

-- What a plan says of the content: consecutive pieces, and the slices that the ranges cut.
pub record Planned (enc : SmsEncoding) (content : Str) (ranges : List Range) (ps : List Str)
    : Type 0 where
  pub slices : Slices content ranges ps
  pub whole : concat ps ≡ content
  pub pieces : All (IsPieceOf enc) ps
  pub filled : Filled (size enc) ps
  pub counted : length ranges ≡ length ps

All-map :
    {A : Type 0} (P Q : A → Type 0) (xs : List A) → ((x : A) → P x → Q x) → All P xs → All Q xs
All-map P Q [] f h = tt
All-map P Q (x ∷ xs) f h = (f x h.0, All-map P Q xs f h.1)

is_ascii_of_All : (s : Str) → All IsAsciiChar s → is_ascii s ≡ true
unfolding is_ascii
is_ascii_of_All [] h = refl
is_ascii_of_All (c ∷ s) h = ground (arith, is_ascii_of_All s h.1)

size-nil : (enc : SmsEncoding) → size enc [] ≡ 0
unfolding ucs2_bytes
size-nil ascii = refl
size-nil ucs2 = refl
size-nil gbk = refl

-- A content above 140 bytes is in two pieces at least.
two_pieces :
    (enc : SmsEncoding) (content : Str) (ps : List Str)
    → 140 < size enc content
    → concat ps ≡ content
    → All (IsPieceOf enc) ps
    → 2 ≤ length ps
two_pieces enc content [] h e a = absurd (omega (arith, ap (size enc) e, size-nil enc))
two_pieces enc content (p ∷ []) h e a =
    absurd (omega (arith, ap (size enc) e, ap (size enc) (append-nil p), a.0.fits))
two_pieces enc content (p ∷ q ∷ ps) h e a = omega arith

abbrev pub Long : SmsEncoding → Str → Type 0
Long enc content =
    (ranges : List Range) × (ps : List Str) × (make_ranges enc content (size enc content)
      ≡ ok ranges)
    × (count_segments enc content (size enc content) ≡ ok (length ps))
    × Planned enc content ranges ps
    × (2 ≤ length ps)

pub Long-ascii :
    (content : Str) → is_ascii content ≡ true → 140 < length content → Long ascii content
Long-ascii content a h = (
  push_ranges 0 ls,
  ps,
  made,
  counted,
  planned,
  two_pieces ascii content ps h planned.whole planned.pieces,
)
  where
    chars : All IsAsciiChar content
    chars = is_ascii-All content a

    n : len content ≡ length content
    n = len-ascii content chars

    ls : List ℕ
    ls = chunk_lengths (len content) (len content)

    ps : List Str
    ps = ascii_pieces ls content

    total : sum ls ≡ length content
    total = sum-chunk_lengths (len content) (len content) (omega arith) ∙ n

    made : make_ranges ascii content (length content) ≡ ok (push_ranges 0 ls)
    made = unfold make_ranges in rw (lt→leb (length content) 140 h)

    counted : count_segments ascii content (length content) ≡ ok (length ps)
    counted =
        unfold count_segments in
        rw (lt→leb (length content) 140 h) (
          ap ok (
            ap (λ (k : ℕ). div_ceil k 134) (sym n)
            ∙ sym (length-chunk_lengths (len content) (len content) (omega arith))
            ∙ sym (length-ascii_pieces ls content)))

    planned : Planned ascii content (push_ranges 0 ls) ps
    planned = record {
      slices =
          subst (λ (s : Str). Slices s (push_ranges 0 ls) ps) (concat-ascii_pieces ls content total)
            (Cuts-Slices [] (push_ranges 0 ls) ps
              (push_ranges-Cuts ls content [] 0 chars total (sym len-nil)));
      whole = concat-ascii_pieces ls content total;
      pieces =
          All-map IsAsciiPiece (IsPieceOf ascii) ps
            (λ p q. record {
              some_content = q.0;
              fits = q.1;
              encodable = inl (is_ascii_of_All p q.2);
            })
            (ascii_pieces-IsAsciiPiece ls content
              (chunk_lengths-IsChunk (len content) (len content)) total chars);
      filled =
          ascii_pieces-Filled ls content (chunk_lengths-Full (len content) (len content))
            (chunk_lengths-IsChunk (len content) (len content)) total;
      counted =
          Cuts-length [] (push_ranges 0 ls) ps
            (push_ranges-Cuts ls content [] 0 chars total (sym len-nil));
    }

pub Long-ucs2 : (content : Str) → 140 < ucs2_bytes content → Long ucs2 content
Long-ucs2 content h =
    (rs, ps, made, counted, planned, two_pieces ucs2 content ps h planned.whole planned.pieces)
  where
    rs : List Range
    rs = ucs2_ranges (len content) 0 0 0 content

    ps : List Str
    ps = ucs2_pieces [] 0 content

    cuts : Cuts [] rs ps
    cuts = ucs2_ranges-Cuts content [] [] (len content) 0 0 0 refl (sym len-nil) (sym len-nil)

    made : make_ranges ucs2 content (ucs2_bytes content) ≡ ok rs
    made = unfold make_ranges in rw (lt→leb (ucs2_bytes content) 140 h)

    counted : count_segments ucs2 content (ucs2_bytes content) ≡ ok (length ps)
    counted =
        unfold count_segments in
        rw (lt→leb (ucs2_bytes content) 140 h) (ap ok (omega (arith, count_ucs2-eq 1 [] 0 content)))

    planned : Planned ucs2 content rs ps
    planned = record {
      slices =
          subst (λ (s : Str). Slices s rs ps) (concat-ucs2_pieces [] 0 content)
            (Cuts-Slices [] rs ps cuts);
      whole = concat-ucs2_pieces [] 0 content;
      pieces =
          All-map IsPiece (IsPieceOf ucs2) ps
            (λ p q. record { some_content = q.0; fits = q.1; encodable = inr refl })
            (ucs2_pieces-IsPiece [] 0 content (sym (size-nil ucs2)) (omega arith)
              (omega (arith, ucs2_bytes-pos content)));
      filled = ucs2_pieces-Filled [] 0 content (sym (size-nil ucs2));
      counted = Cuts-length [] rs ps cuts;
    }
