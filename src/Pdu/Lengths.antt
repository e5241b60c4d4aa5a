-- ===== src/Pdu/Lengths.antt =====
-- src/pdu.rs: the length of each body on the wire; the capacity hint is that length, and every frame
-- stays below the framing limit of src/types.rs.
use cmppprotocol.Prelude.{ℕ, ◌+◌, ◌*◌, ◌≤◌, ◌≡◌, length, length-append, arith}
use cmppprotocol.Pdu.Fields.{length-put_octet_str}
use cmppprotocol.Pdu.Connect.{encode_connect, encode_connect_resp}
use cmppprotocol.Pdu.Submit.{Submit, submit_bytes, encode_submit_resp, submit_len_hint}
use cmppprotocol.Pdu.Deliver.{Deliver, deliver_bytes, encode_deliver_resp, deliver_len_hint}
use cmppprotocol.Pdu.Bodies.{length-put_destinations}
use cmppprotocol.Pdu.WellFormed.{PduFits}
use cmppprotocol.Pdu.Encode.{IsRepresentable, wire_body, wire_frame, length-be32}
use cmppprotocol.Pdu.Message.{
  Pdu, connect, connect_resp, submit, submit_resp, deliver, deliver_resp, body_len_hint,
}

length-submit_bytes :
    (p : Submit) (n m : ℕ)
    → length p.msg_id ≡ 8
    → length (submit_bytes p n m) ≡ 126 + 21 * length p.dest_terminal_ids + length p.msg_content
unfolding submit_bytes
length-submit_bytes p n m h =
    omega (arith, length-append {0}, length-put_octet_str, length-put_destinations)

length-deliver_bytes :
    (p : Deliver) (m : ℕ)
    → length p.msg_id ≡ 8
    → length (deliver_bytes p m) ≡ 73 + length p.msg_content
unfolding deliver_bytes
length-deliver_bytes p m h = omega (arith, length-append {0}, length-put_octet_str)

pub PduFits-IsRepresentable : (p : Pdu) → PduFits p → IsRepresentable p
PduFits-IsRepresentable (submit p) w = (w.few_destinations, w.short_content)
PduFits-IsRepresentable (deliver p) w = w.short_content
PduFits-IsRepresentable _ w = tt

-- For a message that fits its fields, the capacity hint is the exact length of the body on the
-- wire.
pub body_len_hint-eq : (p : Pdu) → PduFits p → body_len_hint p ≡ length (wire_body p)
unfolding body_len_hint wire_body encode_connect encode_connect_resp encode_submit_resp
    encode_deliver_resp submit_len_hint deliver_len_hint
body_len_hint-eq (connect p) w =
    omega (arith, length-append {0}, length-put_octet_str, length-be32, w.authenticator)
body_len_hint-eq (connect_resp p) w = omega (arith, length-append {0}, w)
body_len_hint-eq (submit p) w = omega (
  arith,
  length-submit_bytes p (length p.dest_terminal_ids) (length p.msg_content) w.msg_id,
  w.few_destinations,
  w.short_content,
)
body_len_hint-eq (submit_resp p) w = omega (arith, length-append {0}, w)
body_len_hint-eq (deliver p) w =
    omega (arith, length-deliver_bytes p (length p.msg_content) w.msg_id, w.short_content)
body_len_hint-eq (deliver_resp p) w = omega (arith, length-append {0}, w)
body_len_hint-eq _ w = omega arith

hint-le : (p : Pdu) → PduFits p → body_len_hint p ≤ 5736
unfolding body_len_hint submit_len_hint deliver_len_hint
hint-le (submit p) w = omega (arith, w.few_destinations, w.short_content)
hint-le (deliver p) w = omega (arith, w.short_content)
hint-le _ w = omega arith

-- The body of a message that fits its fields has at most 5736 bytes.
pub length-wire_body-le : (p : Pdu) → PduFits p → length (wire_body p) ≤ 5736
length-wire_body-le p w = rw (← body_len_hint-eq p w) (hint-le p w)

pub length-wire_frame :
    (p : Pdu) (sequence : ℕ) → length (wire_frame p sequence) ≡ 12 + length (wire_body p)
unfolding wire_frame
length-wire_frame p sequence = omega (arith, length-append {0}, length-be32)
