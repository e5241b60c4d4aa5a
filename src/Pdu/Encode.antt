-- ===== src/Pdu/Encode.antt =====
-- src/pdu.rs, encoding: when it succeeds, what it fails with, and the length and place of what it writes.
use cmppprotocol.Prelude.{
  ℕ, ◌+◌, ◌-◌, ◌%◌, ◌^◌, ◌≤◌, ◌≡◌, ◌⊎◌, inl, inr, refl, sym, ap, ◌∙◌, List, [], ◌∷◌, ◌++◌, length,
  length-append, arith, drop, take-append, drop-append, drop-drop,
}
use cmppprotocol.Error.{ok, err, config, too_many_destinations, content_too_long}
use cmppprotocol.Pdu.Bytes.{be32}
use cmppprotocol.Pdu.Connect.{encode_connect, encode_connect_resp}
use cmppprotocol.Pdu.Submit.{
  Submit, submit_bytes, validate_submit, encode_submit, encode_submit_resp,
}
use cmppprotocol.Pdu.Deliver.{deliver_bytes, validate_deliver, encode_deliver, encode_deliver_resp}
use cmppprotocol.Pdu.Message.{
  Pdu, connect, connect_resp, submit, submit_resp, deliver, deliver_resp, active_test,
  active_test_resp, terminate, terminate_resp, command_id, validate_encode, encode_body,
  encode_frame_into, encode_into_unchecked, try_encode_into, try_encode, try_encode_submit,
}

pub length-be32 : (n : ℕ) → length (be32 n) ≡ 4
unfolding be32
length-be32 n = refl

-- The patched frame: what stood in the buffer, the true length, the header's other words, the body.
pub encode_frame_into-eq :
    (dst : List ℕ) (command sequence : ℕ) (body : List ℕ)
    → encode_frame_into dst command sequence body
      ≡ dst ++ (be32 ((12 + length body) % 2 ^ 32) ++ (be32 command ++ (be32 sequence ++ body)))
unfolding encode_frame_into be32
encode_frame_into-eq dst command sequence body = rw (take-append dst written, tail, total) refl
  where
    written : List ℕ
    written = be32 0 ++ (be32 command ++ (be32 sequence ++ body))

    tail : drop (length dst + 4) (dst ++ written) ≡ be32 command ++ (be32 sequence ++ body)
    tail =
        sym (drop-drop (length dst) 4 (dst ++ written))
        ∙ ap (drop 4) (drop-append dst written)
        ∙ drop-append (be32 0) (be32 command ++ (be32 sequence ++ body))

    total : length (dst ++ written) - length dst ≡ 12 + length body
    total = omega (
      arith,
      length-append dst written,
      length-append (be32 0) (be32 command ++ (be32 sequence ++ body)),
      length-append (be32 command) (be32 sequence ++ body),
      length-append (be32 sequence) body,
      length-be32 0,
      length-be32 command,
      length-be32 sequence,
    )

-- The counted parts of a PDU fit the bytes that count them.
abbrev pub IsRepresentable : Pdu → Type 0
IsRepresentable (submit p) = (length p.dest_terminal_ids ≤ 255) × (length p.msg_content ≤ 255)
IsRepresentable (deliver p) = length p.msg_content ≤ 255
IsRepresentable _ = Unit

-- The body on the wire, its counts taken from the message.
unfoldable pub wire_body : Pdu → List ℕ
wire_body (connect p) = encode_connect p
wire_body (connect_resp p) = encode_connect_resp p
wire_body (submit p) = submit_bytes p (length p.dest_terminal_ids) (length p.msg_content)
wire_body (submit_resp p) = encode_submit_resp p
wire_body (deliver p) = deliver_bytes p (length p.msg_content)
wire_body (deliver_resp p) = encode_deliver_resp p
wire_body active_test = []
wire_body active_test_resp = 0 ∷ []
wire_body terminate = []
wire_body terminate_resp = []

-- The whole frame on the wire.
unfoldable pub wire_frame : Pdu → ℕ → List ℕ
wire_frame p sequence =
    be32 ((12 + length (wire_body p)) % 2 ^ 32)
    ++ (be32 (command_id p) ++ (be32 sequence ++ wire_body p))

encode_body-eq : (p : Pdu) → IsRepresentable p → encode_body p ≡ ok (wire_body p)
unfolding encode_body wire_body encode_submit encode_deliver
encode_body-eq (connect p) h = refl
encode_body-eq (connect_resp p) h = refl
encode_body-eq (submit p) h = ground arith
encode_body-eq (submit_resp p) h = refl
encode_body-eq (deliver p) h = ground arith
encode_body-eq (deliver_resp p) h = refl
encode_body-eq active_test h = refl
encode_body-eq active_test_resp h = refl
encode_body-eq terminate h = refl
encode_body-eq terminate_resp h = refl

validate_encode-ok : (p : Pdu) → IsRepresentable p → validate_encode p ≡ ok tt
unfolding validate_encode validate_submit validate_deliver
validate_encode-ok (submit p) h = ground arith
validate_encode-ok (deliver p) h = ground arith
validate_encode-ok _ h = refl

validate_encode-err :
    (p : Pdu)
    → ¬ IsRepresentable p
    → (validate_encode p ≡ err (config too_many_destinations))
      ⊎ (validate_encode p ≡ err (config content_too_long))
unfolding validate_encode validate_submit validate_deliver
validate_encode-err (submit p) h = ground arith
validate_encode-err (deliver p) h = inr (ground arith)
validate_encode-err _ h = absurd (h tt)

pub encode_into_unchecked-eq :
    (p : Pdu) (sequence : ℕ) (dst : List ℕ)
    → IsRepresentable p
    → encode_into_unchecked p sequence dst ≡ ok (dst ++ wire_frame p sequence)
unfolding encode_into_unchecked wire_frame
encode_into_unchecked-eq p sequence dst h =
    rw (encode_body-eq p h) (ap ok (encode_frame_into-eq dst (command_id p) sequence (wire_body p)))

-- Encoding appends the whole frame to the buffer if the counted parts of the message fit a byte,
-- and otherwise fails with one of the two configuration errors of a SUBMIT or a DELIVER. It never
-- panics.
pub try_encode_into_total :
    (p : Pdu) (sequence : ℕ) (dst : List ℕ)
    → (IsRepresentable p → try_encode_into p sequence dst ≡ ok (dst ++ wire_frame p sequence))
      × (¬ IsRepresentable p
          → (try_encode_into p sequence dst ≡ err (config too_many_destinations))
            ⊎ (try_encode_into p sequence dst ≡ err (config content_too_long)))
unfolding try_encode_into
try_encode_into_total p sequence dst = (
  λ h. rw (validate_encode-ok p h) (encode_into_unchecked-eq p sequence dst h),
  λ h. elim (validate_encode-err p h) [ inl e ↦ inl (rw e) | inr e ↦ inr (rw e) ],
)

-- A SUBMIT encoded by Submit::try_encode, as the submit path does it, is the frame, or the error,
-- that Pdu::try_encode gives for it.
pub try_encode_submit-eq :
    (p : Submit) (sequence : ℕ) → try_encode_submit p sequence ≡ try_encode (submit p) sequence
unfolding try_encode_submit try_encode encode_into_unchecked validate_encode encode_body command_id
try_encode_submit-eq p sequence = refl
