-- ===== src/Pdu/RoundTrip.antt =====
-- src/pdu.rs: `Pdu::decode` undoes the encoding of every message, and refuses a body that goes on.
use cmppprotocol.Prelude.{
  ℕ, suc, ◌<◌, ◌≡◌, List, [], ◌++◌, length, length-append, append-nil, arith, if◌then◌else◌, ◌==◌,
  Bool, true, false,
}
use cmppprotocol.Error.{
  Error, Result, ok, err, decode, trailing_bytes, bad_body_length, DecodeReason, ◌>>=◌,
}
use cmppprotocol.Types.{CmppHeader, usize_mod}
use cmppprotocol.Pdu.Connect.{decode_connect, decode_connect_resp}
use cmppprotocol.Pdu.Submit.{decode_submit, decode_submit_resp}
use cmppprotocol.Pdu.Deliver.{decode_deliver, decode_deliver_resp}
use cmppprotocol.Pdu.Reads.{run_body-read_all}
use cmppprotocol.Pdu.Bodies.{
  read_connect-Reads, read_connect_resp-Reads, read_submit-Reads, read_submit_resp-Reads,
  read_deliver-Reads, read_deliver_resp-Reads,
}
use cmppprotocol.Pdu.WellFormed.{PduFits}
use cmppprotocol.Pdu.Encode.{wire_body}
use cmppprotocol.Pdu.Lengths.{length-wire_body-le}
use cmppprotocol.Pdu.Message.{
  Pdu, connect, connect_resp, submit, submit_resp, deliver, deliver_resp, active_test,
  active_test_resp, terminate, terminate_resp, command_id, decode_pdu, require_body_len,
}

abbrev pub header_of : ℕ → Pdu → ℕ → CmppHeader
header_of total p sequence = record {
  total_length = total;
  command_id = command_id p;
  sequence_id = sequence;
}

-- What a decoder says of `n` bytes too many.
unfoldable pub excess : Pdu → ℕ → DecodeReason
excess active_test n = bad_body_length 0 n
excess active_test_resp n = bad_body_length 1 (suc n)
excess terminate n = bad_body_length 0 n
excess terminate_resp n = bad_body_length 0 n
excess _ n = trailing_bytes n

wrap :
    {A : Type 0} (f : A → Pdu) (m : Result A) (a : A) (b : Bool) (e : Error)
    → m ≡ (if b then ok a else err e)
    → (do x ← m; ok (f x)) ≡ (if b then ok (f a) else err e)
wrap f m a true e h = rw h
wrap f m a false e h = rw h

-- For a message that fits its fields, the body on the wire decodes to the message under its command
-- id; with bytes behind it, in a buffer shorter than 2 to the 64, it is refused with the error that
-- names how many are too many.
pub decode_pdu-append :
    (p : Pdu) (total sequence : ℕ) (rest : List ℕ)
    → PduFits p
    → length (wire_body p ++ rest) < usize_mod
    → decode_pdu (header_of total p sequence) (wire_body p ++ rest)
      ≡ (if length rest == 0 then ok p else err (decode (excess p (length rest))))
unfolding decode_pdu command_id wire_body decode_connect decode_connect_resp decode_submit
    decode_submit_resp decode_deliver decode_deliver_resp require_body_len excess
decode_pdu-append (connect p) total sequence rest w h =
    wrap connect _ p _ _ (run_body-read_all _ _ rest p h (read_connect-Reads p w))
decode_pdu-append (connect_resp p) total sequence rest w h =
    wrap connect_resp _ p _ _ (run_body-read_all _ _ rest p h (read_connect_resp-Reads p w))
decode_pdu-append (submit p) total sequence rest w h =
    wrap submit _ p _ _ (run_body-read_all _ _ rest p h (read_submit-Reads p w))
decode_pdu-append (submit_resp p) total sequence rest w h =
    wrap submit_resp _ p _ _ (run_body-read_all _ _ rest p h (read_submit_resp-Reads p w))
decode_pdu-append (deliver p) total sequence rest w h =
    wrap deliver _ p _ _ (run_body-read_all _ _ rest p h (read_deliver-Reads p w))
decode_pdu-append (deliver_resp p) total sequence rest w h =
    wrap deliver_resp _ p _ _ (run_body-read_all _ _ rest p h (read_deliver_resp-Reads p w))
decode_pdu-append active_test total sequence rest w h = ground arith
decode_pdu-append active_test_resp total sequence rest w h = ground arith
decode_pdu-append terminate total sequence rest w h = ground arith
decode_pdu-append terminate_resp total sequence rest w h = ground arith

pub decode_pdu-wire_body :
    (p : Pdu) (total sequence : ℕ)
    → PduFits p
    → decode_pdu (header_of total p sequence) (wire_body p) ≡ ok p
decode_pdu-wire_body p total sequence w = rw append-nil at (
    decode_pdu-append p total sequence [] w
      (omega (arith, length-append (wire_body p) [], length-wire_body-le p w)))
