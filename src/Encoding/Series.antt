-- ===== src/Encoding/Series.antt =====
-- src/encoding.rs: the numbers and the sizes of the segments of a content.
use cmppprotocol.Prelude.{
  ℕ, suc, ◌+◌, ◌%◌, ◌≤◌, ◌≡◌, ◌≢◌, refl, sym, ap, ◌∙◌, List, [], ◌∷◌, All, if◌then◌else◌, ltb,
  length, arith, inl, inr, lt→ltb,
}
use mathlib.Core.Path.{subst}
use cmppprotocol.Error.{ok}
use cmppprotocol.Text.{Str}
use cmppprotocol.Encoding.{SmsEncoding, gbk, msg_fmt, SmsSegment, Gbk, choose_encoding}
use cmppprotocol.Encoding.Plan.{try_split_content}
use cmppprotocol.Encoding.Split.{whole_of, parts}
use cmppprotocol.Encoding.Prepare.{IsPieceOf}
use cmppprotocol.Encoding.Segments.{try_split_content_total}
use cmppprotocol.Encoding.Decode.{choose_encoding-≢gbk, ok-≢err, length-encode_content, split_of}

-- Segments `index + 1`, `index + 2`, … of `total`: each carries the character set, the header flag and at
-- most 140 bytes.
pub record IsSegment (enc : SmsEncoding) (udhi of index : ℕ) (s : SmsSegment) : Type 0 where
  pub fmt : s.msg_fmt ≡ msg_fmt enc
  pub flag : s.tp_udhi ≡ udhi
  pub total : s.pk_total ≡ of
  pub number : s.pk_number ≡ index + 1
  pub fits : length s.content ≤ 140

unfoldable pub IsSeries : SmsEncoding → ℕ → ℕ → ℕ → List SmsSegment → Type 0
IsSeries enc udhi total index [] = index ≡ total
IsSeries enc udhi total index (s ∷ segs) =
    IsSegment enc udhi total index s × IsSeries enc udhi total (index + 1) segs

module _ (g : Gbk) where
  length-parts :
      (enc : SmsEncoding) (total reference index : ℕ) (ps : List Str)
      → length (parts g enc total reference index ps) ≡ length ps
  unfolding parts
  length-parts enc total reference index [] = refl
  length-parts enc total reference index (p ∷ ps) =
      ap suc (length-parts enc total reference (index + 1) ps)

  parts-IsSeries :
      (enc : SmsEncoding) (total reference index : ℕ) (ps : List Str)
      → enc ≢ gbk
      → All (IsPieceOf enc) ps
      → total ≡ index + length ps
      → IsSeries enc 1 total index (parts g enc total reference index ps)
  unfolding parts IsSeries
  parts-IsSeries enc total reference index [] n a h = omega arith
  parts-IsSeries enc total reference index (p ∷ ps) n a h =
      let p_ok = a.0 in
      (
        record {
          fmt = refl;
          flag = refl;
          total = refl;
          number = refl;
          fits = omega (arith, length-encode_content g p enc n, p_ok.fits);
        },
        parts-IsSeries enc total reference (index + 1) ps n a.1 (omega arith),
      )

  -- Where a content is split, the segments are numbered from 1 to their count, carry that count and
  -- the character set, carry the flag of the user data header exactly where they are several, and
  -- have at most 140 bytes each.
  pub try_split_content-IsSeries :
      (content : Str) (counter counter' : ℕ) (segs : List SmsSegment)
      → try_split_content g content counter ≡ ok (segs, counter')
      → IsSeries
          (choose_encoding content)
          (if ltb 1 (length segs) then 1 else 0)
          (length segs)
          0
          segs
  unfolding split_of
  try_split_content-IsSeries content counter counter' segs h =
      elim (try_split_content_total g content counter) [
        | inl (short, answer) ↦
            let same : whole_of g enc content ∷ [] ≡ segs = ap (split_of g) (sym answer ∙ h) in
            subst
              (λ (l : List SmsSegment).
                IsSeries enc (if ltb 1 (length l) then 1 else 0) (length l) 0 l)
              same
              (unfold IsSeries in
                (
                  record {
                    fmt = refl;
                    flag = refl;
                    total = refl;
                    number = refl;
                    fits = omega (arith, length-encode_content g content enc n);
                  },
                  refl,
                ))
        | inr (inl (ps, joined, pieces, filled, two, few, long, answer)) ↦
            let count : length (parts g enc (length ps) (counter % 256) 0 ps) ≡ length ps =
              length-parts enc (length ps) (counter % 256) 0 ps in
            subst
              (λ (l : List SmsSegment).
                IsSeries enc (if ltb 1 (length l) then 1 else 0) (length l) 0 l)
              (ap (split_of g) (sym answer ∙ h))
              (rw (count, lt→ltb 1 (length ps) two)
                (parts-IsSeries enc (length ps) (counter % 256) 0 ps n pieces (omega arith)))
        | inr (inr (ps, joined, pieces, filled, many, long, answer)) ↦
            absurd (ok-≢err (sym h ∙ answer))
      ]
    where
      enc : SmsEncoding
      enc = choose_encoding content

      n : enc ≢ gbk
      n = choose_encoding-≢gbk content
