-- ===== src/Encoding/Segments.antt =====
-- src/encoding.rs, `try_split_content`: one segment, numbered parts, or the error of too many.
use cmppprotocol.Prelude.{
  ℕ, ◌+◌, ◌%◌, ◌^◌, ◌≤◌, ◌<◌, ◌≡◌, refl, sym, ap, ◌∙◌, List, [], ◌∷◌, append-nil, All, Option, none,
  some, true, false, if◌then◌else◌, ltb, length, arith, ◌⊎◌, inl, inr, Bool-cases, ltb→lt, ltb→le,
  lt→ltb, le→leb,
}
use cmppprotocol.Error.{ok, err, config, too_many_segments}
use cmppprotocol.Text.{Str}
use cmppprotocol.Encoding.{
  SmsEncoding, ascii, ucs2, Range, SubmitContentPlan, Gbk, len, is_ascii, choose_encoding,
}
use cmppprotocol.Encoding.Plan.{
  str_slice, segment_count, ucs2_bytes, total_bytes, count_segments, make_ranges,
  prepare_submit_content, collect_segments, try_split_content,
}
use cmppprotocol.Encoding.Cuts.{concat, str_slice-middle}
use cmppprotocol.Encoding.Pieces.{len-nil}
use cmppprotocol.Encoding.Filled.{Filled}
use cmppprotocol.Encoding.Ascii.{is_ascii-All, len-ascii}
use cmppprotocol.Encoding.Split.{whole_of, parts, segment-whole, collect-parts}
use cmppprotocol.Encoding.Prepare.{size, IsPieceOf, Planned, Long, Long-ascii, Long-ucs2}

plan_in : SmsEncoding → Str → List Range → Option ℕ → SubmitContentPlan
plan_in enc content ranges ref = record {
  content = content;
  encoding = enc;
  ranges = ranges;
  preferred_ref = ref;
}

module _ (content : Str) (counter : ℕ) (enc : SmsEncoding) (chosen : choose_encoding content ≡ enc)
    (total : total_bytes enc content ≡ ok (size enc content)) where
  prepare-long :
      (ranges : List Range) (count : ℕ)
      → make_ranges enc content (size enc content) ≡ ok ranges
      → count_segments enc content (size enc content) ≡ ok count
      → 2 ≤ length ranges
      → prepare_submit_content content counter ≡ (
          if ltb 255 count
          then err (config too_many_segments)
          else ok (plan_in enc content ranges (some (counter % 256)), (counter + 1) % 2 ^ 32))
  unfolding prepare_submit_content plan_in
  prepare-long ranges count made counted two =
      rw (chosen, total, counted, made, lt→ltb 1 (length ranges) two)

  prepare-short :
      size enc content ≤ 140
      → prepare_submit_content content counter
        ≡ ok (plan_in enc content (record { start = 0; end = len content } ∷ []) none, counter)
  unfolding prepare_submit_content plan_in make_ranges count_segments
  prepare-short h = rw (chosen, total, le→leb (size enc content) 140 h)

  whole_slice : str_slice content (record { start = 0; end = len content }) ≡ ok content
  whole_slice =
      ap (λ (s : Str). str_slice s (record { start = 0; end = len content }))
        (sym (append-nil content))
      ∙ str_slice-middle [] content [] (record { start = 0; end = len content }) (sym len-nil) refl

module _ (g : Gbk) where
  -- The three answers to a content: one segment without a header; two to 255 numbered parts under one
  -- reference, whose pieces make up the content; the error where the pieces are more.
  abbrev pub SplitsTo : SmsEncoding → Str → ℕ → Type 0
  SplitsTo enc content counter =
      ((size enc content ≤ 140)
        × (try_split_content g content counter ≡ ok (whole_of g enc content ∷ [], counter)))
      ⊎ ((ps : List Str) × (concat ps ≡ content)
          × All (IsPieceOf enc) ps
          × Filled (size enc) ps
          × (2 ≤ length ps)
          × (length ps ≤ 255)
          × (140 < size enc content)
          × (try_split_content g content counter
              ≡ ok (parts g enc (length ps) (counter % 256) 0 ps, (counter + 1) % 2 ^ 32)))
      ⊎ ((ps : List Str) × (concat ps ≡ content)
          × All (IsPieceOf enc) ps
          × Filled (size enc) ps
          × (256 ≤ length ps)
          × (140 < size enc content)
          × (try_split_content g content counter ≡ err (config too_many_segments)))

  module _ (content : Str) (counter : ℕ) (enc : SmsEncoding)
      (chosen : choose_encoding content ≡ enc)
      (total : total_bytes enc content ≡ ok (size enc content)) where
    split-short : size enc content ≤ 140 → SplitsTo enc content counter
    split-short h = inl (h, answer)
      where
        range : Range
        range = record { start = 0; end = len content }

        answer : try_split_content g content counter ≡ ok (whole_of g enc content ∷ [], counter)
        answer =
            unfold try_split_content in
            rw (prepare-short content counter enc chosen total h) (
              unfold collect_segments segment_count plan_in in
              rw (
                segment-whole g (plan_in enc content (range ∷ []) none) none range content
                  (unfold plan_in in refl) (whole_slice content counter enc chosen total)))

    module _ (ranges : List Range) (ps : List Str) (planned : Planned enc content ranges ps)
        (two : 2 ≤ length ps) (made : make_ranges enc content (size enc content) ≡ ok ranges)
        (counted : count_segments enc content (size enc content) ≡ ok (length ps)) where
      too_many :
          ltb 255 (length ps) ≡ true
          → try_split_content g content counter ≡ err (config too_many_segments)
      unfolding try_split_content
      too_many over = rw (
        prepare-long content counter enc chosen total ranges (length ps) made counted
            (omega (arith, planned.counted)),
        over,
      )

      numbered :
          ltb 255 (length ps) ≡ false
          → try_split_content g content counter
            ≡ ok (parts g enc (length ps) (counter % 256) 0 ps, (counter + 1) % 2 ^ 32)
      unfolding try_split_content segment_count plan_in
      numbered few =
          rw
            (
              prepare-long content counter enc chosen total ranges (length ps) made counted
                  (omega (arith, planned.counted)),
              few,
              collect-parts g (plan_in enc content ranges (some (counter % 256))) (counter % 256) 0
                  [] ranges ps refl refl planned.slices (omega (arith, planned.counted))
                  (omega (arith, planned.counted, ltb→le 255 _ few)),
            )
            (ap (λ (n : ℕ). ok (parts g enc n (counter % 256) 0 ps, (counter + 1) % 2 ^ 32))
              planned.counted)

    split-Long : 140 < size enc content → Long enc content → SplitsTo enc content counter
    split-Long h (ranges, ps, made, counted, planned, two) =
        elim (Bool-cases (ltb 255 (length ps))) [
          | inl over ↦ inr (
              inr (
                ps,
                planned.whole,
                planned.pieces,
                planned.filled,
                ltb→lt 255 _ over,
                h,
                too_many ranges ps planned two made counted over,
              ))
          | inr few ↦ inr (
              inl (
                ps,
                planned.whole,
                planned.pieces,
                planned.filled,
                two,
                ltb→le 255 _ few,
                h,
                numbered ranges ps planned two made counted few,
              ))
        ]

  split-ascii :
      (content : Str) (counter : ℕ) → is_ascii content ≡ true → SplitsTo ascii content counter
  split-ascii content counter a = elim (Bool-cases (ltb 140 (length content))) [
    | inl long ↦
        split-Long content counter ascii chosen total (ltb→lt 140 _ long)
          (Long-ascii content a (ltb→lt 140 _ long))
    | inr short ↦ split-short content counter ascii chosen total (ltb→le 140 _ short)
  ]
    where
      chosen : choose_encoding content ≡ ascii
      chosen = unfold choose_encoding in rw a

      total : total_bytes ascii content ≡ ok (length content)
      total = unfold total_bytes in ap ok (len-ascii content (is_ascii-All content a))

  split-ucs2 :
      (content : Str) (counter : ℕ) → is_ascii content ≡ false → SplitsTo ucs2 content counter
  split-ucs2 content counter a = elim (Bool-cases (ltb 140 (ucs2_bytes content))) [
    | inl long ↦
        split-Long content counter ucs2 chosen total (ltb→lt 140 _ long)
          (Long-ucs2 content (ltb→lt 140 _ long))
    | inr short ↦ split-short content counter ucs2 chosen total (ltb→le 140 _ short)
  ]
    where
      chosen : choose_encoding content ≡ ucs2
      chosen = unfold choose_encoding in rw a

      total : total_bytes ucs2 content ≡ ok (ucs2_bytes content)
      total = unfold total_bytes in refl

  -- For every content, in the character set chosen for it: at most 140 bytes give one segment
  -- without a header; more are cut into texts that make up the content, that are not empty and have
  -- at most 134 bytes each, and each of which is filled: the first character of the next text would
  -- not fit it. Two to 255 of them give as many parts in order under one reference, the counter's
  -- low byte; more than 255 give the error of too many segments. It never panics, and the reference
  -- counter moves on exactly where there are parts.
  pub try_split_content_total :
      (content : Str) (counter : ℕ) → SplitsTo (choose_encoding content) content counter
  try_split_content_total content counter = elim (Bool-cases (is_ascii content)) [
    | inl a ↦
        let e : choose_encoding content ≡ ascii = unfold choose_encoding in rw a in
        rw e (split-ascii content counter a)
    | inr a ↦
        let e : choose_encoding content ≡ ucs2 = unfold choose_encoding in rw a in
        rw e (split-ucs2 content counter a)
  ]
