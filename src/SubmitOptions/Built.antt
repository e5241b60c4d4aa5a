-- ===== src/SubmitOptions/Built.antt =====
-- src/submit.rs: the SUBMITs built for a content fit the wire format and carry the content.
use cmppprotocol.Prelude.{
  ℕ, ◌+◌, ◌%◌, ◌≤◌, ◌<◌, ◌≡◌, ◌⊎◌, inl, inr, refl, sym, ap, ◌∙◌, List, [], ◌∷◌, map, none, some,
  ltb, length, All, arith, Bool-cases, ltb→le, ltb→lt,
}
use mathlib.Core.Path.{subst}
use cmppprotocol.Error.{Result, ok, err, panic, ◌>>=◌}
use cmppprotocol.Text.{Str, IsStr}
use cmppprotocol.Encoding.{SmsEncoding, SmsSegment, Gbk, choose_encoding, decode_msg_content}
use cmppprotocol.Encoding.Cuts.{concat}
use cmppprotocol.Encoding.Plan.{try_split_content}
use cmppprotocol.Encoding.Split.{whole_of, parts}
use cmppprotocol.Encoding.Prepare.{size}
use cmppprotocol.Encoding.Segments.{try_split_content_total}
use cmppprotocol.Encoding.Decode.{decode_segment, try_split_content-decode, ok-≢err}
use cmppprotocol.Encoding.Series.{IsSeries, try_split_content-IsSeries}
use cmppprotocol.Pdu.Fields.{Fits}
use cmppprotocol.Pdu.Submit.{Submit}
use cmppprotocol.Pdu.WellFormed.{SubmitFits}
use cmppprotocol.SubmitOptions.{
  SubmitOptions, apply_segment, build_submit_template, build_submit_from_segment, only_submit,
  try_build_submits, build_short_submit,
}

-- Options whose strings fit the octet fields of a SUBMIT.
pub record OptionsFit (o : SubmitOptions) : Type 0 where
  pub service_id : Fits 10 o.service_id
  pub fee_terminal_id : Fits 21 o.fee_terminal_id
  pub msg_src : Fits 6 o.msg_src
  pub fee_type : Fits 2 o.fee_type
  pub fee_code : Fits 6 o.fee_code
  pub valid_time : Fits 17 o.valid_time
  pub at_time : Fits 17 o.at_time
  pub src_id : Fits 21 o.src_id
  pub destinations : All (Fits 21) o.dest_terminal_ids

from_segment-SubmitFits :
    (o : SubmitOptions) (seg : SmsSegment)
    → OptionsFit o
    → length o.dest_terminal_ids ≤ 255
    → length seg.content ≤ 140
    → SubmitFits (build_submit_from_segment o seg)
unfolding build_submit_from_segment build_submit_template apply_segment
from_segment-SubmitFits o seg f few short = record {
  msg_id = refl;
  service_id = f.service_id;
  fee_terminal_id = f.fee_terminal_id;
  msg_src = f.msg_src;
  fee_type = f.fee_type;
  fee_code = f.fee_code;
  valid_time = f.valid_time;
  at_time = f.at_time;
  src_id = f.src_id;
  destinations = f.destinations;
  few_destinations = few;
  short_content = omega arith;
}

series-SubmitFits :
    (o : SubmitOptions) (enc : SmsEncoding) (udhi total index : ℕ) (segs : List SmsSegment)
    → OptionsFit o
    → length o.dest_terminal_ids ≤ 255
    → IsSeries enc udhi total index segs
    → All SubmitFits (map (build_submit_from_segment o) segs)
unfolding IsSeries
series-SubmitFits o enc udhi total index [] f few h = tt
series-SubmitFits o enc udhi total index (s ∷ segs) f few h =
    let first = h.0 in
    (
      from_segment-SubmitFits o s f few first.fits,
      series-SubmitFits o enc udhi total (index + 1) segs f few h.1,
    )

module _ (g : Gbk) where
  -- What the content of a SUBMIT says, read the way `Deliver` contents are.
  abbrev pub submit_text : Submit → Str
  submit_text p = decode_msg_content g p.msg_fmt p.tp_udhi p.msg_content

  text_of_segment :
      (o : SubmitOptions) (segs : List SmsSegment)
      → map submit_text (map (build_submit_from_segment o) segs) ≡ map (decode_segment g) segs
  unfolding build_submit_from_segment build_submit_template apply_segment
  text_of_segment o [] = refl
  text_of_segment o (s ∷ segs) = ap (◌∷◌ (decode_segment g s)) (text_of_segment o segs)

  built_of : SubmitOptions → Result (List SmsSegment × ℕ) → Result (List Submit × ℕ)
  built_of o r = do (segments, c) ← r; ok (map (build_submit_from_segment o) segments, c)

  Built : SubmitOptions → Str → ℕ → ℕ → List Submit → Type 0
  Built o content counter counter' submits =
      (segs : List SmsSegment) × (length o.dest_terminal_ids ≤ 255)
      × (try_split_content g content counter ≡ ok (segs, counter'))
      × (map (build_submit_from_segment o) segs ≡ submits)

  submits_of : Result (List Submit × ℕ) → List Submit
  submits_of (ok (submits, counter)) = submits
  submits_of _ = []

  counter_of : Result (List Submit × ℕ) → ℕ
  counter_of (ok (submits, counter)) = counter
  counter_of _ = 0

  from_split :
      (o : SubmitOptions) (content : Str) (counter counter' : ℕ) (submits : List Submit)
      → length o.dest_terminal_ids ≤ 255
      → (r : Result (List SmsSegment × ℕ)) → try_split_content g content counter ≡ r
      → built_of o r ≡ ok (submits, counter')
      → Built o content counter counter' submits
  unfolding Built submits_of counter_of built_of
  from_split o content counter counter' submits few (ok (segs, c)) e h =
      let same : c ≡ counter' = ap counter_of h in (segs, few, rw (← same) e, ap submits_of h)
  from_split o content counter counter' submits few (err x) e h = absurd (ok-≢err (sym h))
  from_split o content counter counter' submits few panic e h = cc

  built :
      (o : SubmitOptions) (content : Str) (counter counter' : ℕ) (submits : List Submit)
      → try_build_submits g o content counter ≡ ok (submits, counter')
      → Built o content counter counter' submits
  unfolding try_build_submits built_of
  built o content counter counter' submits h =
      elim (Bool-cases (ltb 255 (length o.dest_terminal_ids))) [
        | inl e ↦ absurd (ok-≢err (sym (rw e at h)))
        | inr e ↦ from_split o content counter counter' submits (ltb→le 255 _ e) _ refl (rw e at h)
      ]

  -- Where the strings of the options fit the fields of a SUBMIT, every SUBMIT that is built for a
  -- content fits the wire format: its arrays have their lengths, its strings fit, and its counts
  -- fit a byte.
  pub try_build_submits-SubmitFits :
      (o : SubmitOptions) (content : Str) (counter counter' : ℕ) (submits : List Submit)
      → OptionsFit o
      → try_build_submits g o content counter ≡ ok (submits, counter')
      → All SubmitFits submits
  unfolding Built
  try_build_submits-SubmitFits o content counter counter' submits f h =
      let (segs, few, split, same) = built o content counter counter' submits h in
      subst (All SubmitFits) same (
        series-SubmitFits o _ _ _ _ segs f few
          (try_split_content-IsSeries g content counter counter' segs split))

  -- The SUBMITs built for a text carry it: the texts of their contents, each decoded by itself,
  -- make up the text.
  pub try_build_submits-content :
      (o : SubmitOptions) (content : Str) (counter counter' : ℕ) (submits : List Submit)
      → IsStr content
      → try_build_submits g o content counter ≡ ok (submits, counter')
      → concat (map submit_text submits) ≡ content
  unfolding Built
  try_build_submits-content o content counter counter' submits s h =
      let (segs, few, split, same) = built o content counter counter' submits h in
      rw (← same) (
        ap concat (text_of_segment o segs)
        ∙ try_split_content-decode g content counter counter' segs s split)

  one :
      (o : SubmitOptions) (enc : SmsEncoding) (content : Str)
      → ok (only_submit (build_submit_from_segment o (whole_of g enc content) ∷ []))
        ≡ ok (some (build_submit_from_segment o (whole_of g enc content)))
  unfolding only_submit build_submit_from_segment build_submit_template apply_segment
  one o enc content = refl

  two_or_more :
      (o : SubmitOptions) (enc : SmsEncoding) (total reference index : ℕ) (ps : List Str)
      → only_submit (map (build_submit_from_segment o) (parts g enc total reference index ps))
        ≡ none
  unfolding only_submit parts build_submit_from_segment build_submit_template apply_segment
  two_or_more o enc total reference index [] = refl
  two_or_more o enc total reference index (p ∷ []) = refl
  two_or_more o enc total reference index (p ∷ q ∷ ps) = refl

  -- A content is given as one SUBMIT, made of the whole content, if there are at most 255
  -- destinations and the content has at most 140 bytes in its character set; otherwise there is
  -- none. It never panics.
  pub build_short_submit_total :
      (o : SubmitOptions) (content : Str) (counter : ℕ)
      → ((length o.dest_terminal_ids ≤ 255)
          × (size (choose_encoding content) content ≤ 140)
          × (build_short_submit g o content counter
              ≡ ok (
                  some
                    (build_submit_from_segment o (whole_of g (choose_encoding content) content)))))
        ⊎ (((255 < length o.dest_terminal_ids) ⊎ (140 < size (choose_encoding content) content))
            × (build_short_submit g o content counter ≡ ok none))
  unfolding build_short_submit try_build_submits
  build_short_submit_total o content counter =
      elim (Bool-cases (ltb 255 (length o.dest_terminal_ids))) [
        | inl many ↦ inr (inl (ltb→lt 255 _ many), rw many)
        | inr few ↦ elim (try_split_content_total g content counter) [
          | inl (short, answer) ↦
              inl (
                ltb→le 255 _ few,
                short,
                rw (few, answer) (one o (choose_encoding content) content),
              )
          | inr (inl (ps, joined, pieces, filled, two, small, long, answer)) ↦ inr (
            inr long,
            rw (few, answer)
                (ap ok (two_or_more o (choose_encoding content) (length ps) (counter % 256) 0 ps)),
          )
          | inr (inr (ps, joined, pieces, filled, many, long, answer)) ↦
              inr (inr long, rw (few, answer))
        ]
      ]
