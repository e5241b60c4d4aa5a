-- ===== src/Pdu/Deliver.antt =====
-- src/pdu.rs: `Deliver`, `DeliverResp` and the status report inside a `Deliver`.
use cmppprotocol.Prelude.{
  ℕ, ◌+◌, ◌-◌, ◌/◌, ◌%◌, List, [], ◌∷◌, ◌++◌, Option, none, some, if◌then◌else◌, ltb, ◌==◌, length,
  replicate, take, drop,
}
use cmppprotocol.Error.{Result, ok, err, config, content_too_long}
use cmppprotocol.Error
use cmppprotocol.Text.{Str}
use cmppprotocol.Pdu.Bytes.{from_be32, put_octet_str, read_octet_str}
use cmppprotocol.Pdu.Reader.{M, ◌>>=◌, pure, take_bytes, read_u8, read_str, run_body}
use cmppprotocol.Pdu.Submit.{saturating_add, u8_expect}

pub record Deliver : Type 0 where
  pub msg_id : List ℕ
  pub dest_id : Str
  pub service_id : Str
  pub tp_pid : ℕ
  pub tp_udhi : ℕ
  pub msg_fmt : ℕ
  pub src_terminal_id : Str
  pub registered_delivery : ℕ
  pub msg_content : List ℕ

unfoldable pub deliver_len_hint : Deliver → ℕ
deliver_len_hint p = saturating_add 73 (length p.msg_content)

unfoldable pub validate_deliver : Deliver → Result (Unit {0})
validate_deliver p = if ltb 255 (length p.msg_content) then err (config content_too_long) else ok tt

-- The body, its content length given.
unfoldable pub deliver_bytes : Deliver → ℕ → List ℕ
deliver_bytes p msg_length =
    p.msg_id
    ++ (put_octet_str p.dest_id 21
        ++ (put_octet_str p.service_id 10
            ++ ((p.tp_pid ∷ [])
                ++ ((p.tp_udhi ∷ [])
                    ++ ((p.msg_fmt ∷ [])
                        ++ (put_octet_str p.src_terminal_id 21
                            ++ ((p.registered_delivery ∷ [])
                                ++ ((msg_length ∷ []) ++ (p.msg_content ++ replicate 8 0)))))))))

unfoldable pub encode_deliver : Deliver → Result (List ℕ)
encode_deliver p =
    Error.◌>>=◌ (u8_expect (length p.msg_content)) λ msg_length. ok (deliver_bytes p msg_length)

unfoldable pub read_deliver : M Deliver
read_deliver = do
  msg_id ← take_bytes 8
  dest_id ← read_str 21
  service_id ← read_str 10
  tp_pid ← read_u8
  tp_udhi ← read_u8
  msg_fmt ← read_u8
  src_terminal_id ← read_str 21
  registered_delivery ← read_u8
  msg_length ← read_u8
  msg_content ← take_bytes msg_length
  reserved ← take_bytes 8
  pure (record {
    msg_id = msg_id;
    dest_id = dest_id;
    service_id = service_id;
    tp_pid = tp_pid;
    tp_udhi = tp_udhi;
    msg_fmt = msg_fmt;
    src_terminal_id = src_terminal_id;
    registered_delivery = registered_delivery;
    msg_content = msg_content;
  })

unfoldable pub decode_deliver : List ℕ → Result Deliver
decode_deliver body = run_body read_deliver body

pub record DeliverResp : Type 0 where
  pub msg_id : List ℕ
  pub result : ℕ

unfoldable pub encode_deliver_resp : DeliverResp → List ℕ
encode_deliver_resp p = p.msg_id ++ (p.result ∷ [])

unfoldable pub read_deliver_resp : M DeliverResp
read_deliver_resp = do
  msg_id ← take_bytes 8
  result ← read_u8
  pure (record { msg_id = msg_id; result = result })

unfoldable pub decode_deliver_resp : List ℕ → Result DeliverResp
decode_deliver_resp body = run_body read_deliver_resp body

pub record DeliverReport : Type 0 where
  pub msg_id : List ℕ
  pub stat : Str
  pub submit_time : Str
  pub done_time : Str
  pub dest_terminal_id : Str
  pub smsc_sequence : ℕ

-- `&content[a..b]`, inside the content.
abbrev pub slice : ℕ → ℕ → List ℕ → List ℕ
slice a n content = take n (drop a content)

-- `u32::from_be_bytes` of a four-byte slice.
abbrev pub word_of : List ℕ → Option ℕ
word_of (a ∷ b ∷ c ∷ d ∷ r) = some (from_be32 a b c d)
word_of _ = none

report_of : List ℕ → Option ℕ → Option DeliverReport
report_of content none = none
report_of content (some sequence) = some (record {
  msg_id = slice 0 8 content;
  stat = read_octet_str (slice 8 7 content);
  submit_time = read_octet_str (slice 15 10 content);
  done_time = read_octet_str (slice 25 10 content);
  dest_terminal_id = read_octet_str (slice 35 21 content);
  smsc_sequence = sequence;
})

unfoldable pub parse_report : List ℕ → Option DeliverReport
unfolding report_of
parse_report content =
    if ltb (length content) 60 then none else report_of content (word_of (slice 56 4 content))

unfoldable pub report : Deliver → Option DeliverReport
report p = if p.registered_delivery == 1 then parse_report p.msg_content else none

abbrev pub hex_digit : ℕ → ℕ
hex_digit d = if ltb d 10 then b'0' + d else b'a' + (d - 10)

-- Two digits for each byte, the high half first.
unfoldable pub msg_id_hex : List ℕ → Str
msg_id_hex [] = []
msg_id_hex (b ∷ bs) = hex_digit (b / 16) ∷ hex_digit (b % 16) ∷ msg_id_hex bs
