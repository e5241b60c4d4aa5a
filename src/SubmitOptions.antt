-- ===== src/SubmitOptions.antt =====
-- src/submit.rs: `SubmitOptions`, and the SUBMITs that it builds for a content.
pub mod Built
use cmppprotocol.Prelude.{
  ℕ, List, [], ◌∷◌, map, Option, none, some, Bool, true, false, ◌&&◌, if◌then◌else◌, ltb, ◌==◌,
  length, replicate,
}
use cmppprotocol.Error.{Result, ok, err, panic, ◌>>=◌, expect, config, too_many_destinations}
use cmppprotocol.Text.{Str}
use cmppprotocol.Encoding.{SmsSegment, Gbk}
use cmppprotocol.Encoding.Plan.{try_split_content}
use cmppprotocol.Pdu.Submit.{Submit}

-- `Submit::apply_segment`
unfoldable pub apply_segment : Submit → SmsSegment → Submit
apply_segment p seg = record p {
  pk_total = seg.pk_total;
  pk_number = seg.pk_number;
  tp_udhi = seg.tp_udhi;
  msg_fmt = seg.msg_fmt;
  msg_content = seg.content;
}

pub record SubmitOptions : Type 0 where
  pub service_id : Str
  pub msg_src : Str
  pub src_id : Str
  pub dest_terminal_ids : List Str
  pub registered_delivery : ℕ
  pub msg_level : ℕ
  pub fee_user_type : ℕ
  pub fee_terminal_id : Str
  pub fee_type : Str
  pub fee_code : Str
  pub tp_pid : ℕ
  pub valid_time : Str
  pub at_time : Str

-- `"01"` and `"000000"`
abbrev pub default_fee_type : Str
default_fee_type = 0x30 ∷ 0x31 ∷ []

abbrev pub default_fee_code : Str
default_fee_code = replicate 6 0x30

-- `SubmitOptions::new`
unfoldable pub new_options : Str → Str → Str → Str → SubmitOptions
new_options service_id msg_src src_id dest_terminal_id = record {
  service_id = service_id;
  msg_src = msg_src;
  src_id = src_id;
  dest_terminal_ids = dest_terminal_id ∷ [];
  registered_delivery = 1;
  msg_level = 0;
  fee_user_type = 2;
  fee_terminal_id = [];
  fee_type = default_fee_type;
  fee_code = default_fee_code;
  tp_pid = 0;
  valid_time = [];
  at_time = [];
}

-- `dest_terminal_ids(ids)`
unfoldable pub with_dest_terminal_ids : SubmitOptions → List Str → SubmitOptions
with_dest_terminal_ids o ids = record o { dest_terminal_ids = ids }

unfoldable pub with_registered_delivery : SubmitOptions → ℕ → SubmitOptions
with_registered_delivery o v = record o { registered_delivery = v }

unfoldable pub with_msg_level : SubmitOptions → ℕ → SubmitOptions
with_msg_level o v = record o { msg_level = v }

unfoldable pub with_fee : SubmitOptions → ℕ → Str → Str → SubmitOptions
with_fee o user_type fee_type fee_code = record o {
  fee_user_type = user_type;
  fee_type = fee_type;
  fee_code = fee_code;
}

unfoldable pub build_submit_template : SubmitOptions → Submit
build_submit_template o = record {
  msg_id = replicate 8 0;
  pk_total = 1;
  pk_number = 1;
  registered_delivery = o.registered_delivery;
  msg_level = o.msg_level;
  service_id = o.service_id;
  fee_user_type = o.fee_user_type;
  fee_terminal_id = o.fee_terminal_id;
  tp_pid = o.tp_pid;
  tp_udhi = 0;
  msg_fmt = 0;
  msg_src = o.msg_src;
  fee_type = o.fee_type;
  fee_code = o.fee_code;
  valid_time = o.valid_time;
  at_time = o.at_time;
  src_id = o.src_id;
  dest_terminal_ids = o.dest_terminal_ids;
  msg_content = [];
}

unfoldable pub build_submit_from_segment : SubmitOptions → SmsSegment → Submit
build_submit_from_segment o seg = apply_segment (build_submit_template o) seg

-- `submits.len() == 1 && submits[0].tp_udhi == 0`
unfoldable pub only_submit : List Submit → Option Submit
only_submit (p ∷ []) = if p.tp_udhi == 0 then some p else none
only_submit _ = none

module _ (g : Gbk) where
  -- The SUBMITs, and the counter of references after them.
  unfoldable pub try_build_submits : SubmitOptions → Str → ℕ → Result (List Submit × ℕ)
  try_build_submits o content counter =
      if ltb 255 (length o.dest_terminal_ids) then err (config too_many_destinations) else (do
        (segments, counter') ← try_split_content g content counter
        ok (map (build_submit_from_segment o) segments, counter'))

  -- Panics where `try_build_submits` fails.
  unfoldable pub build_submits : SubmitOptions → Str → ℕ → Result (List Submit × ℕ)
  build_submits o content counter = expect (try_build_submits o content counter)

  -- `try_build_submits(content).ok()?`, then the only SUBMIT of a content that is not split.
  short_of : Result (List Submit × ℕ) → Result (Option Submit)
  short_of (ok (submits, counter')) = ok (only_submit submits)
  short_of (err e) = ok none
  short_of panic = panic

  unfoldable pub build_short_submit : SubmitOptions → Str → ℕ → Result (Option Submit)
  unfolding short_of
  build_short_submit o content counter = short_of (try_build_submits o content counter)
