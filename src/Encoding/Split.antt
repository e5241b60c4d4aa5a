-- ===== src/Encoding/Split.antt =====
-- src/encoding.rs: what `try_split_content` gives, for every content.
use cmppprotocol.Prelude.{
  ℕ, ◌+◌, ◌≤◌, ◌<◌, ◌≡◌, refl, sym, ap, ◌∙◌, List, [], ◌∷◌, ◌++◌, append_assoc, Option, some, false,
  ◌==◌, length, length-append, get_elem?, arith, le→ltb,
}
use cmppprotocol.Error.{ok}
use cmppprotocol.Text.{Str}
use cmppprotocol.Encoding.{
  SmsEncoding, msg_fmt, SmsSegment, Range, SubmitContentPlan, Gbk, encode_content,
}
use cmppprotocol.Encoding.Plan.{str_slice, udh, part, segment, collect_segments}
use cmppprotocol.Encoding.Cuts.{Slices}

-- One part of a long message, numbered from 1.
abbrev pub part_of : Gbk → SmsEncoding → ℕ → ℕ → ℕ → Str → SmsSegment
part_of g enc total reference index p = record {
  msg_fmt = msg_fmt enc;
  tp_udhi = 1;
  pk_total = total;
  pk_number = index + 1;
  content = udh reference total (index + 1) ++ encode_content g p enc;
}

unfoldable pub parts : Gbk → SmsEncoding → ℕ → ℕ → ℕ → List Str → List SmsSegment
parts g enc total reference index [] = []
parts g enc total reference index (p ∷ ps) =
    part_of g enc total reference index p ∷ parts g enc total reference (index + 1) ps

abbrev pub whole_of : Gbk → SmsEncoding → Str → SmsSegment
whole_of g enc p = record {
  msg_fmt = msg_fmt enc;
  tp_udhi = 0;
  pk_total = 1;
  pk_number = 1;
  content = encode_content g p enc;
}

get_elem?-middle :
    {A : Type 0} (done rest : List A) (x : A)
    → get_elem? (done ++ (x ∷ rest)) (length done) ≡ some x
get_elem?-middle [] rest x = refl
get_elem?-middle (d ∷ done) rest x = get_elem?-middle done rest x

module _ (g : Gbk) where
  segment-part :
      (plan : SubmitContentPlan) (index reference : ℕ) (r : Range) (p : Str)
      → get_elem? plan.ranges index ≡ some r
      → str_slice plan.content r ≡ ok p
      → 2 ≤ length plan.ranges
      → length plan.ranges ≤ 255
      → index < length plan.ranges
      → segment g plan index (some reference)
        ≡ ok (part_of g plan.encoding (length plan.ranges) reference index p)
  unfolding segment part
  segment-part plan index reference r p er es two few within =
      rw
        (er, es, several, le→ltb 255 (length plan.ranges) few, le→ltb 255 (index + 1) (omega arith))
    where
      several : (length plan.ranges == 1) ≡ false
      several = ground arith

  pub segment-whole :
      (plan : SubmitContentPlan) (reference : Option ℕ) (r : Range) (p : Str)
      → plan.ranges ≡ r ∷ []
      → str_slice plan.content r ≡ ok p
      → segment g plan 0 reference ≡ ok (whole_of g plan.encoding p)
  unfolding segment
  segment-whole plan reference r p er es = rw (er, es)

  pub collect-parts :
      (plan : SubmitContentPlan) (reference index : ℕ) (done rs : List Range) (ps : List Str)
      → plan.ranges ≡ done ++ rs
      → index ≡ length done
      → Slices plan.content rs ps
      → 2 ≤ length plan.ranges
      → length plan.ranges ≤ 255
      → collect_segments g plan (some reference) index (length rs)
        ≡ ok (parts g plan.encoding (length plan.ranges) reference index ps)
  unfolding collect_segments parts
  collect-parts plan reference index done [] [] e i h two few = refl
  collect-parts plan reference index done [] (p ∷ ps) e i h two few = absurd h
  collect-parts plan reference index done (r ∷ rs) [] e i h two few = absurd h
  collect-parts plan reference index done (r ∷ rs) (p ∷ ps) e i h two few = rw (
    segment-part plan index reference r p (rw (e, i) (get_elem?-middle done rs r)) h.0 two few
        (omega (arith, ap length e, length-append done (r ∷ rs))),
    collect-parts plan reference (index + 1) (done ++ (r ∷ [])) rs ps
        (e ∙ sym (append_assoc done (r ∷ []) rs)) (omega (arith, length-append done (r ∷ []))) h.1
        two few,
  )
