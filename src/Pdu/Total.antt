-- ===== src/Pdu/Total.antt =====
-- src/pdu.rs: `Pdu::decode` on any bytes gives a PDU whose fixed arrays have their lengths, or a decode
-- error.
use cmppprotocol.Prelude.{
  ℕ, ◌-◌, ◌≤◌, ◌≡◌, ◌⊎◌, inl, inr, refl, sym, ap, List, length, arith, Bool, true, false,
  Bool-cases, ◌==◌, if◌then◌else◌,
}
use cmppprotocol.Error.{
  Result, ok, err, decode, DecodeReason, trailing_bytes, bad_body_length, unknown_command, ◌>>=◌,
}
use cmppprotocol.Types.{CmppHeader}
use cmppprotocol.Pdu.Reader.{BodyReader, M, pure, finish, run_body, value}
use cmppprotocol.Pdu.Reader
use native.Mathlib.Nat.{add-zero}
use cmppprotocol.Pdu.Reads.{reader}
use cmppprotocol.Pdu.Safety.{
  Safe, Outcome, bind-Safe, pure-Safe, read_connect-Safe, read_connect_resp-Safe, read_submit-Safe,
  read_submit_resp-Safe, read_deliver-Safe, read_deliver_resp-Safe,
}
use cmppprotocol.Pdu.Connect.{decode_connect, decode_connect_resp}
use cmppprotocol.Pdu.Submit.{decode_submit, decode_submit_resp}
use cmppprotocol.Pdu.Deliver.{decode_deliver, decode_deliver_resp}
use cmppprotocol.Pdu.Message.{
  Pdu, connect, connect_resp, submit, submit_resp, deliver, deliver_resp, active_test,
  active_test_resp, terminate, terminate_resp, decode_pdu, require_body_len,
}

-- The `[u8; 16]` and `[u8; 8]` of a message have 16 and 8 bytes.
abbrev pub ArraysFit : Pdu → Type 0
ArraysFit (connect p) = length p.authenticator_source ≡ 16
ArraysFit (connect_resp p) = length p.authenticator_ismg ≡ 16
ArraysFit (submit p) = length p.msg_id ≡ 8
ArraysFit (submit_resp p) = length p.msg_id ≡ 8
ArraysFit (deliver p) = length p.msg_id ≡ 8
ArraysFit (deliver_resp p) = length p.msg_id ≡ 8
ArraysFit _ = Unit

-- A decode error, or a value with `P`.
abbrev pub Answers : {A : Type 0} → (A → Type 0) → Result A → Type 0
Answers {A} P res = ((d : DecodeReason) × (res ≡ err (decode d))) ⊎ ((a : A) × P a × (res ≡ ok a))

finish-Safe : Safe (λ _. Unit) finish
finish-Safe = record { outcome = ends }
  where
    ends : (r : BodyReader) → r.pos ≤ length r.buf → Outcome (λ _. Unit) r (finish r)
    ends r w = elim (Bool-cases (r.pos == length r.buf)) [
      | inl e ↦ inr (
        tt,
        0,
        omega arith,
        tt,
        unfold finish in
            rw e (ap (λ (k : ℕ). ok (tt, record r { pos = k })) (sym (add-zero r.pos))),
      )
      | inr e ↦ inl (trailing_bytes (length r.buf - r.pos), unfold finish in rw e)
    ]

answer :
    {A : Type 0} {P : A → Type 0} (r : BodyReader) (res : Result (A × BodyReader))
    → Outcome P r res
    → Answers P (value res)
unfolding value
answer r res (inl (d, e)) = inl (d, rw e)
answer r res (inr (a, k, w, p, e)) = inr (a, p, rw e)

run_body-Answers :
    {A : Type 0} {P : A → Type 0} (m : M A) (body : List ℕ) → Safe P m → Answers P (run_body m body)
unfolding run_body
run_body-Answers {P = P} m body p = answer (reader body) _ (
    (bind-Safe (λ a. Reader.◌>>◌ finish (pure a)) p
        λ a h. bind-Safe (λ _. pure a) finish-Safe λ t g. pure-Safe P a h).outcome
      (reader body) (omega arith))

-- The test of one command id.
branch :
    {A : Type 0} {P : A → Type 0} (f : A → Pdu) (b : Bool) (m : Result A) (other : Result Pdu)
    → ((a : A) → P a → ArraysFit (f a))
    → Answers P m
    → Answers ArraysFit other
    → Answers ArraysFit (if b then (do a ← m; ok (f a)) else other)
branch f false m other k p q = q
branch f true m other k (inl (d, e)) q = inl (d, rw e)
branch f true m other k (inr (a, h, e)) q = inr (f a, k a h, rw e)

empty_body : (body : List ℕ) (n : ℕ) → Answers (λ _. Unit) (require_body_len body n)
empty_body body n = elim (Bool-cases (length body == n)) [
  | inl e ↦ inr (tt, tt, unfold require_body_len in rw e)
  | inr e ↦ inl (bad_body_length n (length body), unfold require_body_len in rw e)
]

-- On any header and body, decoding gives a message whose fixed arrays have their lengths, or a
-- decode error: it neither panics nor fails in another way.
pub decode_pdu_total :
    (header : CmppHeader) (body : List ℕ) → Answers ArraysFit (decode_pdu header body)
unfolding decode_pdu decode_connect decode_connect_resp decode_submit decode_submit_resp
    decode_deliver decode_deliver_resp
decode_pdu_total header body =
    branch connect _ _ _ (λ a h. h) (run_body-Answers _ body read_connect-Safe)
      (branch connect_resp _ _ _ (λ a h. h) (run_body-Answers _ body read_connect_resp-Safe)
        (branch submit _ _ _ (λ a h. h) (run_body-Answers _ body read_submit-Safe)
          (branch submit_resp _ _ _ (λ a h. h) (run_body-Answers _ body read_submit_resp-Safe)
            (branch deliver _ _ _ (λ a h. h) (run_body-Answers _ body read_deliver-Safe)
              (branch deliver_resp _ _ _ (λ a h. h) (run_body-Answers _ body read_deliver_resp-Safe)
                (branch (λ _. active_test) _ _ _ (λ a h. tt) (empty_body body 0)
                  (branch (λ _. active_test_resp) _ _ _ (λ a h. tt) (empty_body body 1)
                    (branch (λ _. terminate) _ _ _ (λ a h. tt) (empty_body body 0)
                      (branch (λ _. terminate_resp) _ _ _ (λ a h. tt) (empty_body body 0)
                        (inl (unknown_command header.command_id, refl)))))))))))
