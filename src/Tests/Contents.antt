-- ===== src/Tests/Contents.antt =====
-- Inputs and runs for src/encoding.rs and src/submit.rs.
use cmppprotocol.Prelude.{
  ℕ, zero, suc, ◌≤◌, ◌<◌, ◌≡◌, ◌⊎◌, inl, refl, List, [], ◌∷◌, ◌++◌, map, replicate, All, none, some,
  length, arith, if◌then◌else◌, ltb,
}
use cmppprotocol.Error.{Result, ok}
use cmppprotocol.Text.{Str, IsStr, as_bytes, utf8, encode_utf16, utf16, len_utf16}
use cmppprotocol.Encoding.{
  msg_fmt, SmsSegment, Gbk, is_ascii, choose_encoding, encode_content, be_units,
}
use cmppprotocol.Encoding.Cuts.{concat}
use cmppprotocol.Encoding.Plan.{
  split_at, str_slice, segment_count, part, segment, ucs2_bytes, total_bytes, count_ucs2,
  count_segments, make_ranges, ucs2_ranges, plan_of, prepare_submit_content, collect_segments,
  try_split_content,
}
use cmppprotocol.Encoding.Prepare.{size}
use cmppprotocol.Encoding.Split.{whole_of}
use cmppprotocol.Encoding.Segments.{SplitsTo, try_split_content_total}
use cmppprotocol.Encoding.Decode.{decode_segment, try_split_content-decode}
use cmppprotocol.Encoding.Series.{IsSeries, try_split_content-IsSeries}
use cmppprotocol.Pdu.Submit.{Submit}
use cmppprotocol.Pdu.WellFormed.{SubmitFits}
use cmppprotocol.SubmitOptions.{
  SubmitOptions, build_submit_from_segment, try_build_submits, build_short_submit,
}
use cmppprotocol.SubmitOptions.Built.{
  OptionsFit, submit_text, try_build_submits-SubmitFits, try_build_submits-content,
  build_short_submit_total,
}
use cmppprotocol.Tests.Messages.{short_number, short_number-Fits, empty-Fits}

-- GBK restricted to ASCII.
abbrev ascii_gbk : Gbk
ascii_gbk = record { encode = λ s. s; decode = λ s. s }

-- 70 Chinese characters and one more: 142 bytes in UCS2.
abbrev long_text : Str
long_text = replicate 71 0x4e2d

abbrev sample_segments : Result (List SmsSegment × ℕ)
sample_segments = try_split_content ascii_gbk long_text 300

abbrev parts_of : ℕ → ℕ → ℕ → SmsSegment
parts_of reference number chars = record {
  msg_fmt = 8;
  tp_udhi = 1;
  pk_total = 2;
  pk_number = number;
  content =
      (5 ∷ 0 ∷ 3 ∷ reference ∷ 2 ∷ number ∷ []) ++ concat (replicate chars (0x4e ∷ 0x2d ∷ []));
}

-- 67 characters, then 4, under the reference 300 mod 256.
split_long :
    try_split_content ascii_gbk long_text 300 ≡ ok (parts_of 44 1 67 ∷ parts_of 44 2 4 ∷ [], 301)
unfolding try_split_content prepare_submit_content total_bytes choose_encoding is_ascii
    count_segments ucs2_bytes len_utf16 count_ucs2 make_ranges collect_segments segment_count
    ucs2_ranges segment str_slice utf8 split_at as_bytes msg_fmt encode_content part plan_of
    be_units encode_utf16 utf16
split_long = refl

abbrev long_segments : List SmsSegment
long_segments = parts_of 44 1 67 ∷ parts_of 44 2 4 ∷ []

scalars : (n : ℕ) → IsStr (replicate n 0x4e2d)
scalars zero = tt
scalars (suc n) = (inl (omega arith), scalars n)

try_split_content_total_example : SplitsTo ascii_gbk (choose_encoding long_text) long_text 300
try_split_content_total_example = try_split_content_total ascii_gbk long_text 300

try_split_content-decode_example : concat (map (decode_segment ascii_gbk) long_segments) ≡ long_text
try_split_content-decode_example =
    try_split_content-decode ascii_gbk long_text 300 301 long_segments (scalars 71) split_long

try_split_content-IsSeries_example :
    IsSeries
      (choose_encoding long_text)
      (if ltb 1 (length long_segments) then 1 else 0)
      (length long_segments)
      0
      long_segments
try_split_content-IsSeries_example =
    try_split_content-IsSeries ascii_gbk long_text 300 301 long_segments split_long

abbrev sample_options : SubmitOptions
sample_options = record {
  service_id = short_number;
  msg_src = short_number;
  src_id = short_number;
  dest_terminal_ids = short_number ∷ short_number ∷ [];
  registered_delivery = 1;
  msg_level = 0;
  fee_user_type = 2;
  fee_terminal_id = [];
  fee_type = [];
  fee_code = short_number;
  tp_pid = 0;
  valid_time = [];
  at_time = [];
}

sample_options-OptionsFit : OptionsFit sample_options
sample_options-OptionsFit = record {
  service_id = short_number-Fits 10 (omega arith);
  fee_terminal_id = empty-Fits 21;
  msg_src = short_number-Fits 6 (omega arith);
  fee_type = empty-Fits 2;
  fee_code = short_number-Fits 6 (omega arith);
  valid_time = empty-Fits 17;
  at_time = empty-Fits 17;
  src_id = short_number-Fits 21 (omega arith);
  destinations = (short_number-Fits 21 (omega arith), (short_number-Fits 21 (omega arith), tt));
}

abbrev long_submits : List Submit
long_submits = map (build_submit_from_segment sample_options) long_segments

submits_long : try_build_submits ascii_gbk sample_options long_text 300 ≡ ok (long_submits, 301)
unfolding try_build_submits
submits_long = rw split_long

try_build_submits-SubmitFits_example : All SubmitFits long_submits
try_build_submits-SubmitFits_example =
    try_build_submits-SubmitFits ascii_gbk sample_options long_text 300 301 long_submits
      sample_options-OptionsFit submits_long

try_build_submits-content_example : concat (map (submit_text ascii_gbk) long_submits) ≡ long_text
try_build_submits-content_example =
    try_build_submits-content ascii_gbk sample_options long_text 300 301 long_submits (scalars 71)
      submits_long

build_short_submit_total_example :
    ((length sample_options.dest_terminal_ids ≤ 255)
      × (size (choose_encoding long_text) long_text ≤ 140)
      × (build_short_submit ascii_gbk sample_options long_text 300
          ≡ ok (
              some (
                build_submit_from_segment sample_options
                  (whole_of ascii_gbk (choose_encoding long_text) long_text)))))
    ⊎ (((255 < length sample_options.dest_terminal_ids)
          ⊎ (140 < size (choose_encoding long_text) long_text))
        × (build_short_submit ascii_gbk sample_options long_text 300 ≡ ok none))
build_short_submit_total_example = build_short_submit_total ascii_gbk sample_options long_text 300
