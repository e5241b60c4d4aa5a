-- ===== src/Tests/Messages.antt =====
-- Inputs and runs for src/pdu.rs, src/codec.rs and src/config.rs.
use cmppprotocol.Prelude.{
  ℕ, ◌^◌, ◌≤◌, ◌<◌, ◌≡◌, ◌≢◌, ◌↔◌, ◌⊎◌, inl, refl, List, [], ◌∷◌, ◌++◌, replicate, All, none, some,
  length, length-append, take, arith, if◌then◌else◌, ◌==◌,
}
use cmppprotocol.Error.{
  ok, err, decode, config, too_many_destinations, content_too_long, bad_length,
}
use cmppprotocol.Types.{CmppHeader, IsU32}
use cmppprotocol.Text.{Str, IsByte, as_bytes, utf8}
use cmppprotocol.Pdu.Bytes.{be32, from_be32, put_octet_str, read_octet_str}
use cmppprotocol.Pdu.Fields.{Fits, read-put_octet_str}
use cmppprotocol.Pdu.Connect.{UtcTime, new_connect}
use cmppprotocol.Pdu.Submit.{Submit}
use cmppprotocol.Pdu.Deliver.{DeliverReport, parse_report}
use cmppprotocol.Pdu.Message.{
  Frame, submit, submit_resp, active_test, try_encode_into, try_encode, try_encode_submit,
  decode_pdu, require_body_len, command_id, body_len_hint,
}
use cmppprotocol.Pdu.WellFormed.{SubmitFits}
use cmppprotocol.Pdu.Encode.{
  IsRepresentable, wire_body, wire_frame, try_encode_into_total, try_encode_submit-eq,
}
use cmppprotocol.Pdu.Lengths.{body_len_hint-eq, length-wire_body-le}
use cmppprotocol.Pdu.RoundTrip.{header_of, excess, decode_pdu-append}
use cmppprotocol.Pdu.Total.{ArraysFit, Answers, decode_pdu_total}
use cmppprotocol.Pdu.Reports.{ReportFits, report_bytes, parse_report-report_bytes}
use cmppprotocol.Pdu.Clock.{IsClock, clock_digits, new_connect-clock}
use cmppprotocol.Codec.{Decoded, decode_frame, decode_framed, decode_split, decode_header}
use cmppprotocol.Codec.Frames.{FrameFits, decode_frame-wire_frame, decode_frame-partial}
use cmppprotocol.Codec.Buffer.{DecodesTo, decode_frame_total, decode_frame-append}
use cmppprotocol.Codec.Stream.{encode_all, Decodes, encode_all-Decodes}
use cmppprotocol.Config.{
  CmppConfig, validate_config, validate_params, validate_keepalive, is_empty, below_one,
  above_max_port, default_params, pos,
}
use cmppprotocol.Config.Valid.{ConfigInRange, validate_config_iff}

-- "106"
abbrev pub short_number : Str
short_number = 0x31 ∷ 0x30 ∷ 0x36 ∷ []

pub short_number-Fits : (len : ℕ) → 3 ≤ len → Fits len short_number
unfolding as_bytes utf8
short_number-Fits len h = record {
  scalars = (inl (omega arith), (inl (omega arith), (inl (omega arith), tt)));
  short = omega arith;
  clean = (λ e. omega arith, λ e. omega arith);
}

pub empty-Fits : (len : ℕ) → Fits len []
unfolding as_bytes
empty-Fits len = record { scalars = tt; short = omega arith; clean = tt }

abbrev sample_id : List ℕ
sample_id = 1 ∷ 2 ∷ 3 ∷ 4 ∷ 5 ∷ 6 ∷ 7 ∷ 255 ∷ []

abbrev sample_submit : Submit
sample_submit = record {
  msg_id = sample_id;
  pk_total = 1;
  pk_number = 1;
  registered_delivery = 1;
  msg_level = 0;
  service_id = short_number;
  fee_user_type = 2;
  fee_terminal_id = [];
  tp_pid = 0;
  tp_udhi = 0;
  msg_fmt = 0;
  msg_src = short_number;
  fee_type = [];
  fee_code = short_number;
  valid_time = [];
  at_time = [];
  src_id = short_number;
  dest_terminal_ids = short_number ∷ short_number ∷ [];
  msg_content = 0x68 ∷ 0x69 ∷ [];
}

sample_submit-SubmitFits : SubmitFits sample_submit
sample_submit-SubmitFits = record {
  msg_id = refl;
  service_id = short_number-Fits 10 (omega arith);
  fee_terminal_id = empty-Fits 21;
  msg_src = short_number-Fits 6 (omega arith);
  fee_type = empty-Fits 2;
  fee_code = short_number-Fits 6 (omega arith);
  valid_time = empty-Fits 17;
  at_time = empty-Fits 17;
  src_id = short_number-Fits 21 (omega arith);
  destinations = (short_number-Fits 21 (omega arith), (short_number-Fits 21 (omega arith), tt));
  few_destinations = omega arith;
  short_content = omega arith;
}

abbrev sample_frame : Frame
sample_frame = record { sequence_id = 7; pdu = submit sample_submit }

sample_frame-FrameFits : FrameFits sample_frame
sample_frame-FrameFits = record { pdu = sample_submit-SubmitFits; sequence = omega arith }

abbrev sample_ack : Frame
sample_ack = record {
  sequence_id = 8;
  pdu = submit_resp (record { msg_id = sample_id; result = 0 });
}

sample_ack-FrameFits : FrameFits sample_ack
sample_ack-FrameFits = record { pdu = refl; sequence = omega arith }

abbrev sample_test : Frame
sample_test = record { sequence_id = 9; pdu = active_test }

sample_test-FrameFits : FrameFits sample_test
sample_test-FrameFits = record { pdu = tt; sequence = omega arith }

-- A frame's bytes, and a header that claims 2 bytes.
abbrev test_bytes : List ℕ
test_bytes = 0 ∷ 0 ∷ 0 ∷ 12 ∷ 0 ∷ 0 ∷ 0 ∷ 8 ∷ 0 ∷ 0 ∷ 0 ∷ 9 ∷ []

abbrev bad_bytes : List ℕ
bad_bytes = 0 ∷ 0 ∷ 0 ∷ 2 ∷ 0 ∷ 0 ∷ 0 ∷ 8 ∷ 0 ∷ 0 ∷ 0 ∷ 9 ∷ []

decode_test : decode_frame test_bytes ≡ record { result = ok (some sample_test); left = [] }
unfolding decode_frame decode_framed decode_split decode_header decode_pdu from_be32
    require_body_len
decode_test = refl

decode_bad :
    decode_frame bad_bytes ≡ record { result = err (decode (bad_length 2)); left = bad_bytes }
unfolding decode_frame decode_framed decode_split decode_header from_be32
decode_bad = refl

encode_all-Decodes_example :
    (bytes : List ℕ) × (encode_all (sample_frame ∷ sample_ack ∷ sample_test ∷ []) (1 ∷ [])
      ≡ ok ((1 ∷ []) ++ bytes))
    × Decodes (bytes ++ (9 ∷ [])) (sample_frame ∷ sample_ack ∷ sample_test ∷ []) (9 ∷ [])
encode_all-Decodes_example =
    encode_all-Decodes (sample_frame ∷ sample_ack ∷ sample_test ∷ []) (1 ∷ []) (9 ∷ [])
      (sample_frame-FrameFits, (sample_ack-FrameFits, (sample_test-FrameFits, tt)))

decode_frame-wire_frame_example :
    decode_frame (wire_frame sample_frame.pdu sample_frame.sequence_id ++ (0 ∷ []))
    ≡ record { result = ok (some sample_frame); left = 0 ∷ [] }
decode_frame-wire_frame_example =
    decode_frame-wire_frame sample_frame (0 ∷ []) sample_frame-FrameFits

test_frame_bytes : wire_frame active_test 9 ≡ test_bytes
unfolding wire_frame be32 wire_body command_id
test_frame_bytes = refl

decode_frame-partial_example :
    decode_frame (0 ∷ 0 ∷ []) ≡ record { result = ok none; left = 0 ∷ 0 ∷ [] }
decode_frame-partial_example =
    decode_frame-partial sample_test (0 ∷ 0 ∷ []) (12 ∷ 0 ∷ 0 ∷ 0 ∷ 8 ∷ 0 ∷ 0 ∷ 0 ∷ 9 ∷ []) 0
      sample_test-FrameFits test_frame_bytes

decode_frame_total_example : DecodesTo bad_bytes (decode_frame bad_bytes)
decode_frame_total_example = decode_frame_total bad_bytes

abbrev test_answer : Decoded
test_answer = record { result = ok (some sample_test); left = [] }

answers_test : (decode_frame test_bytes).result ≢ ok none
answers_test h = let e : ok (some sample_test) ≡ ok none = rw decode_test at h in cc

decode_frame-append_example : decode_frame (test_bytes ++ (1 ∷ 2 ∷ [])) ≡ record {
  result = (decode_frame test_bytes).result;
  left = (decode_frame test_bytes).left ++ (1 ∷ 2 ∷ []);
}
decode_frame-append_example = decode_frame-append test_bytes (1 ∷ 2 ∷ []) answers_test

abbrev one_byte : List ℕ
one_byte = 1 ∷ []

short_body : length (wire_body (submit sample_submit) ++ one_byte) < 2 ^ 64
short_body =
    omega (
      arith,
      length-append {0},
      length-wire_body-le (submit sample_submit) sample_submit-SubmitFits,
    )

decode_pdu-append_example :
    decode_pdu
      (header_of 183 (submit sample_submit) 7)
      (wire_body (submit sample_submit) ++ one_byte)
    ≡ (if length one_byte == 0
        then ok (submit sample_submit)
        else err (decode (excess (submit sample_submit) (length one_byte))))
decode_pdu-append_example =
    decode_pdu-append (submit sample_submit) 183 7 one_byte sample_submit-SubmitFits short_body

abbrev sample_header : CmppHeader
sample_header = record { total_length = 14; command_id = 5; sequence_id = 1 }

decode_pdu_total_example : Answers ArraysFit (decode_pdu sample_header (1 ∷ 2 ∷ []))
decode_pdu_total_example = decode_pdu_total sample_header (1 ∷ 2 ∷ [])

try_encode_into_total_example :
    (IsRepresentable (submit sample_submit)
      → try_encode_into (submit sample_submit) 7 (1 ∷ [])
        ≡ ok ((1 ∷ []) ++ wire_frame (submit sample_submit) 7))
    × (¬ IsRepresentable (submit sample_submit)
        → (try_encode_into (submit sample_submit) 7 (1 ∷ []) ≡ err (config too_many_destinations))
          ⊎ (try_encode_into (submit sample_submit) 7 (1 ∷ []) ≡ err (config content_too_long)))
try_encode_into_total_example = try_encode_into_total (submit sample_submit) 7 (1 ∷ [])

try_encode_submit-eq_example :
    try_encode_submit sample_submit 7 ≡ try_encode (submit sample_submit) 7
try_encode_submit-eq_example = try_encode_submit-eq sample_submit 7

body_len_hint-eq_example :
    body_len_hint (submit sample_submit) ≡ length (wire_body (submit sample_submit))
body_len_hint-eq_example = body_len_hint-eq (submit sample_submit) sample_submit-SubmitFits

read-put_octet_str_example : read_octet_str (put_octet_str short_number 6) ≡ short_number
read-put_octet_str_example = read-put_octet_str short_number 6 (short_number-Fits 6 (omega arith))

abbrev sample_report : DeliverReport
sample_report = record {
  msg_id = sample_id;
  stat = short_number;
  submit_time = short_number;
  done_time = [];
  dest_terminal_id = short_number;
  smsc_sequence = 70_000;
}

sample_report-ReportFits : ReportFits sample_report
sample_report-ReportFits = record {
  msg_id = refl;
  stat = short_number-Fits 7 (omega arith);
  submit_time = short_number-Fits 10 (omega arith);
  done_time = empty-Fits 10;
  dest_terminal_id = short_number-Fits 21 (omega arith);
  smsc_sequence = omega arith;
}

parse_report-report_bytes_example :
    parse_report (report_bytes sample_report ++ (1 ∷ [])) ≡ some sample_report
parse_report-report_bytes_example =
    parse_report-report_bytes sample_report (1 ∷ []) sample_report-ReportFits

sample_id-bytes : All IsByte sample_id
sample_id-bytes = omega arith

abbrev sample_clock : UtcTime
sample_clock = record { month = 11; day = 26; hour = 12; minute = 5; second = 59 }

sample_clock-IsClock : IsClock sample_clock
sample_clock-IsClock = record {
  month = omega arith;
  day = omega arith;
  hour = omega arith;
  minute = omega arith;
  second = omega arith;
}

-- A digest that keeps the first 16 bytes.
abbrev toy_md5 : List ℕ → List ℕ
toy_md5 bytes = take 16 (bytes ++ replicate 16 0)

new_connect-clock_example :
    ((new_connect toy_md5 sample_clock short_number short_number 0x20).authenticator_source
      ≡ toy_md5 (
          as_bytes short_number
          ++ (replicate 9 0 ++ (as_bytes short_number ++ clock_digits sample_clock))))
    × IsU32 (new_connect toy_md5 sample_clock short_number short_number 0x20).timestamp
new_connect-clock_example =
    new_connect-clock toy_md5 sample_clock short_number short_number 0x20 sample_clock-IsClock

abbrev sample_config : CmppConfig
sample_config = record {
  host = short_number;
  port = pos 7890;
  account = short_number;
  password = short_number;
  version = 0x20;
  protocol_params = default_params;
}

-- The default parameters are valid.
validate_sample : validate_config sample_config ≡ none
unfolding validate_config validate_params validate_keepalive default_params is_empty below_one
    above_max_port as_bytes utf8
validate_sample = refl

validate_config_iff_example : validate_config sample_config ≡ none ↔ ConfigInRange sample_config
validate_config_iff_example = validate_config_iff sample_config
