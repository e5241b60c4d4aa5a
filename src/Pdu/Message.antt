-- ===== src/Pdu/Message.antt =====
-- src/pdu.rs: `Pdu` and `Frame`, with the framing of `encode_frame_into`. A growing buffer is a list
-- of bytes; capacity hints and `reserve` change no byte.
use cmppprotocol.Prelude.{
  ℕ, ◌+◌, ◌-◌, ◌%◌, ◌^◌, List, [], ◌∷◌, ◌++◌, if◌then◌else◌, ◌==◌, length, take, drop,
}
use cmppprotocol.Error.{
  Result, ok, err, ◌>>=◌, ◌>>◌, expect, decode, bad_body_length, unknown_command,
}
use cmppprotocol.Types.{
  CmppHeader, cmd_connect, cmd_connect_resp, cmd_terminate, cmd_terminate_resp, cmd_submit,
  cmd_submit_resp, cmd_deliver, cmd_deliver_resp, cmd_active_test, cmd_active_test_resp,
}
use cmppprotocol.Pdu.Bytes.{be32}
use cmppprotocol.Pdu.Connect.{
  Connect, ConnectResp, encode_connect, encode_connect_resp, decode_connect, decode_connect_resp,
}
use cmppprotocol.Pdu.Submit.{
  Submit, SubmitResp, validate_submit, encode_submit, encode_submit_resp, decode_submit,
  decode_submit_resp, submit_len_hint,
}
use cmppprotocol.Pdu.Deliver.{
  Deliver, DeliverResp, validate_deliver, encode_deliver, encode_deliver_resp, decode_deliver,
  decode_deliver_resp, deliver_len_hint,
}

pub data Pdu : Type 0 where
  connect : Connect → Pdu
  connect_resp : ConnectResp → Pdu
  submit : Submit → Pdu
  submit_resp : SubmitResp → Pdu
  deliver : Deliver → Pdu
  deliver_resp : DeliverResp → Pdu
  active_test : Pdu
  active_test_resp : Pdu
  terminate : Pdu
  terminate_resp : Pdu

pub record Frame : Type 0 where
  pub sequence_id : ℕ
  pub pdu : Pdu

unfoldable pub command_id : Pdu → ℕ
command_id (connect p) = cmd_connect
command_id (connect_resp p) = cmd_connect_resp
command_id (submit p) = cmd_submit
command_id (submit_resp p) = cmd_submit_resp
command_id (deliver p) = cmd_deliver
command_id (deliver_resp p) = cmd_deliver_resp
command_id active_test = cmd_active_test
command_id active_test_resp = cmd_active_test_resp
command_id terminate = cmd_terminate
command_id terminate_resp = cmd_terminate_resp

unfoldable pub validate_encode : Pdu → Result (Unit {0})
validate_encode (submit p) = validate_submit p
validate_encode (deliver p) = validate_deliver p
validate_encode _ = ok tt

unfoldable pub body_len_hint : Pdu → ℕ
body_len_hint (connect p) = 27
body_len_hint (connect_resp p) = 18
body_len_hint (submit p) = submit_len_hint p
body_len_hint (submit_resp p) = 9
body_len_hint (deliver p) = deliver_len_hint p
body_len_hint (deliver_resp p) = 9
body_len_hint active_test = 0
body_len_hint active_test_resp = 1
body_len_hint terminate = 0
body_len_hint terminate_resp = 0

-- The `match` that `encode_into_unchecked` hands over as `encode_body`.
unfoldable pub encode_body : Pdu → Result (List ℕ)
encode_body (connect p) = ok (encode_connect p)
encode_body (connect_resp p) = ok (encode_connect_resp p)
encode_body (submit p) = encode_submit p
encode_body (submit_resp p) = ok (encode_submit_resp p)
encode_body (deliver p) = encode_deliver p
encode_body (deliver_resp p) = ok (encode_deliver_resp p)
encode_body active_test = ok []
encode_body active_test_resp = ok (0 ∷ [])
encode_body terminate = ok []
encode_body terminate_resp = ok []

-- A length of zero is written first, and patched once the body stands.
unfoldable pub encode_frame_into : List ℕ → ℕ → ℕ → List ℕ → List ℕ
encode_frame_into dst command sequence body =
    let start = length dst in
    let written = dst ++ (be32 0 ++ (be32 command ++ (be32 sequence ++ body))) in
    let total_length = (length written - start) % 2 ^ 32 in
    take start written ++ (be32 total_length ++ drop (start + 4) written)

unfoldable pub encode_into_unchecked : Pdu → ℕ → List ℕ → Result (List ℕ)
encode_into_unchecked p sequence dst = do
  body ← encode_body p
  ok (encode_frame_into dst (command_id p) sequence body)

unfoldable pub try_encode_into : Pdu → ℕ → List ℕ → Result (List ℕ)
try_encode_into p sequence dst = do validate_encode p; encode_into_unchecked p sequence dst

unfoldable pub try_encode : Pdu → ℕ → Result (List ℕ)
try_encode p sequence = do validate_encode p; encode_into_unchecked p sequence []

-- `Pdu::encode` panics where `try_encode` fails.
unfoldable pub encode : Pdu → ℕ → Result (List ℕ)
encode p sequence = expect (try_encode p sequence)

-- `Submit::try_encode`
unfoldable pub try_encode_submit : Submit → ℕ → Result (List ℕ)
try_encode_submit p sequence = do
  validate_submit p
  body ← encode_submit p
  ok (encode_frame_into [] cmd_submit sequence body)

unfoldable pub require_body_len : List ℕ → ℕ → Result (Unit {0})
require_body_len body expected =
    if length body == expected then ok tt else err (decode (bad_body_length expected (length body)))

unfoldable pub decode_pdu : CmppHeader → List ℕ → Result Pdu
decode_pdu header body =
    if header.command_id == cmd_connect
    then (do p ← decode_connect body; ok (connect p))
    else if header.command_id == cmd_connect_resp
    then (do p ← decode_connect_resp body; ok (connect_resp p))
    else if header.command_id == cmd_submit
    then (do p ← decode_submit body; ok (submit p))
    else if header.command_id == cmd_submit_resp
    then (do p ← decode_submit_resp body; ok (submit_resp p))
    else if header.command_id == cmd_deliver
    then (do p ← decode_deliver body; ok (deliver p))
    else if header.command_id == cmd_deliver_resp
    then (do p ← decode_deliver_resp body; ok (deliver_resp p))
    else if header.command_id == cmd_active_test
    then (do require_body_len body 0; ok active_test)
    else if header.command_id == cmd_active_test_resp
    then (do require_body_len body 1; ok active_test_resp)
    else if header.command_id == cmd_terminate
    then (do require_body_len body 0; ok terminate)
    else if header.command_id == cmd_terminate_resp
    then (do require_body_len body 0; ok terminate_resp)
    else err (decode (unknown_command header.command_id))
