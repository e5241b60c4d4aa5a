-- ===== src/Pdu/Submit.antt =====
-- src/pdu.rs: `Submit` and `SubmitResp`, their validation, encoding and decoding.
use cmppprotocol.Prelude.{
  ℕ, zero, suc, ◌+◌, ◌-◌, ◌*◌, min, List, [], ◌∷◌, ◌++◌, if◌then◌else◌, ltb, length, replicate,
}
use cmppprotocol.Error.{
  Result, ok, err, panic, decode, config, destination_mismatch, destination_overflow,
  too_many_destinations, content_too_long,
}
use cmppprotocol.Error
use cmppprotocol.Types.{usize_mod}
use cmppprotocol.Text.{Str}
use cmppprotocol.Pdu.Bytes.{put_octet_str}
use cmppprotocol.Pdu.Reader.{
  M, ◌>>=◌, ◌>>◌, pure, fail, take_bytes, read_u8, read_str, remaining, run_body,
}

pub record Submit : Type 0 where
  pub msg_id : List ℕ
  pub pk_total : ℕ
  pub pk_number : ℕ
  pub registered_delivery : ℕ
  pub msg_level : ℕ
  pub service_id : Str
  pub fee_user_type : ℕ
  pub fee_terminal_id : Str
  pub tp_pid : ℕ
  pub tp_udhi : ℕ
  pub msg_fmt : ℕ
  pub msg_src : Str
  pub fee_type : Str
  pub fee_code : Str
  pub valid_time : Str
  pub at_time : Str
  pub src_id : Str
  pub dest_terminal_ids : List Str
  pub msg_content : List ℕ

abbrev pub saturating_add : ℕ → ℕ → ℕ
saturating_add a b = min (a + b) (usize_mod - 1)

abbrev pub saturating_mul : ℕ → ℕ → ℕ
saturating_mul a b = min (a * b) (usize_mod - 1)

-- `u8::try_from(n).expect(…)`
abbrev pub u8_expect : ℕ → Result ℕ
u8_expect n = if ltb 255 n then panic else ok n

unfoldable pub validate_submit : Submit → Result (Unit {0})
validate_submit p =
    if ltb 255 (length p.dest_terminal_ids)
    then err (config too_many_destinations)
    else if ltb 255 (length p.msg_content)
    then err (config content_too_long)
    else ok tt

unfoldable pub submit_len_hint : Submit → ℕ
submit_len_hint p =
    saturating_add (saturating_add 126 (saturating_mul (length p.dest_terminal_ids) 21))
      (length p.msg_content)

unfoldable pub put_destinations : List Str → List ℕ
put_destinations [] = []
put_destinations (d ∷ ds) = put_octet_str d 21 ++ put_destinations ds

-- The body, its two counts given.
unfoldable pub submit_bytes : Submit → ℕ → ℕ → List ℕ
submit_bytes p dest_count msg_length =
    p.msg_id
    ++ ((p.pk_total ∷ [])
        ++ ((p.pk_number ∷ [])
            ++ ((p.registered_delivery ∷ [])
                ++ ((p.msg_level ∷ [])
                    ++ (put_octet_str p.service_id 10
                        ++ ((p.fee_user_type ∷ [])
                            ++ (put_octet_str p.fee_terminal_id 21
                                ++ ((p.tp_pid ∷ [])
                                    ++ ((p.tp_udhi ∷ [])
                                        ++ ((p.msg_fmt ∷ [])
                                            ++ (put_octet_str p.msg_src 6
                                                ++ (put_octet_str p.fee_type 2
                                                    ++ (put_octet_str p.fee_code 6
                                                        ++ (put_octet_str p.valid_time 17
                                                            ++ (put_octet_str p.at_time 17
                                                            ++ (put_octet_str p.src_id 21
                                                            ++ ((dest_count ∷ [])
                                                            ++ (put_destinations p.dest_terminal_ids
                                                            ++ ((msg_length ∷ [])
                                                            ++ (p.msg_content
                                                            ++ replicate 8 0))))))))))))))))))))

unfoldable pub encode_submit : Submit → Result (List ℕ)
encode_submit p = Error.◌>>=◌ (u8_expect (length p.dest_terminal_ids)) λ dest_count.
    Error.◌>>=◌ (u8_expect (length p.msg_content))
      λ msg_length. ok (submit_bytes p dest_count msg_length)

unfoldable pub read_destinations : ℕ → M (List Str)
read_destinations zero = pure []
read_destinations (suc n) = do d ← read_str 21; ds ← read_destinations n; pure (d ∷ ds)

-- `dest_count * 21 + (1 + 8)`, each step checked, and no more than what is left of the body.
unfoldable pub check_destinations : ℕ → M (Unit {0})
check_destinations dest_count = do
  left ← remaining
  if ltb (usize_mod - 1) (dest_count * 21)
      then fail (decode destination_overflow)
      else if ltb (usize_mod - 1) (dest_count * 21 + 9)
      then fail (decode destination_overflow)
      else if ltb left (dest_count * 21 + 9)
      then fail (decode (destination_mismatch dest_count))
      else pure tt

unfoldable pub read_submit : M Submit
read_submit = do
  msg_id ← take_bytes 8
  pk_total ← read_u8
  pk_number ← read_u8
  registered_delivery ← read_u8
  msg_level ← read_u8
  service_id ← read_str 10
  fee_user_type ← read_u8
  fee_terminal_id ← read_str 21
  tp_pid ← read_u8
  tp_udhi ← read_u8
  msg_fmt ← read_u8
  msg_src ← read_str 6
  fee_type ← read_str 2
  fee_code ← read_str 6
  valid_time ← read_str 17
  at_time ← read_str 17
  src_id ← read_str 21
  dest_count ← read_u8
  check_destinations dest_count
  dest_terminal_ids ← read_destinations dest_count
  msg_length ← read_u8
  msg_content ← take_bytes msg_length
  reserved ← take_bytes 8
  pure (record {
    msg_id = msg_id;
    pk_total = pk_total;
    pk_number = pk_number;
    registered_delivery = registered_delivery;
    msg_level = msg_level;
    service_id = service_id;
    fee_user_type = fee_user_type;
    fee_terminal_id = fee_terminal_id;
    tp_pid = tp_pid;
    tp_udhi = tp_udhi;
    msg_fmt = msg_fmt;
    msg_src = msg_src;
    fee_type = fee_type;
    fee_code = fee_code;
    valid_time = valid_time;
    at_time = at_time;
    src_id = src_id;
    dest_terminal_ids = dest_terminal_ids;
    msg_content = msg_content;
  })

unfoldable pub decode_submit : List ℕ → Result Submit
decode_submit body = run_body read_submit body

pub record SubmitResp : Type 0 where
  pub msg_id : List ℕ
  pub result : ℕ

unfoldable pub encode_submit_resp : SubmitResp → List ℕ
encode_submit_resp p = p.msg_id ++ (p.result ∷ [])

unfoldable pub read_submit_resp : M SubmitResp
read_submit_resp = do
  msg_id ← take_bytes 8
  result ← read_u8
  pure (record { msg_id = msg_id; result = result })

unfoldable pub decode_submit_resp : List ℕ → Result SubmitResp
decode_submit_resp body = run_body read_submit_resp body
