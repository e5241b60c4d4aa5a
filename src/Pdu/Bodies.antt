-- ===== src/Pdu/Bodies.antt =====
-- src/pdu.rs: each body decoder reads what the body encoder wrote, whatever follows it.
use cmppprotocol.Prelude.{
  ℕ, ◌+◌, ◌*◌, ◌≤◌, ◌≡◌, refl, ◌∙◌, List, [], ◌∷◌, ◌++◌, All, length, length-append, replicate,
  append-nil, arith,
}
use mathlib.Core.Path.{subst}
use cmppprotocol.Error.{ok}
use cmppprotocol.Text.{Str}
use cmppprotocol.Pdu.Bytes.{put_octet_str}
use cmppprotocol.Pdu.Fields.{Fits, length-put_octet_str}
use cmppprotocol.Pdu.Reader.{M, BodyReader, ◌>>=◌, ◌>>◌, remaining}
use cmppprotocol.Pdu.Reads.{
  At, At-length, Reads, bind_ok, bind-Reads, pure-Reads, take-Reads, read_u8-Reads, read_u32-Reads,
  read_str-Reads,
}
use cmppprotocol.Pdu.Connect.{
  Connect, ConnectResp, encode_connect, read_connect, encode_connect_resp, read_connect_resp,
}
use cmppprotocol.Pdu.Submit.{
  Submit, SubmitResp, put_destinations, read_destinations, check_destinations, submit_bytes,
  read_submit, encode_submit_resp, read_submit_resp,
}
use cmppprotocol.Pdu.Deliver.{
  Deliver, DeliverResp, deliver_bytes, read_deliver, encode_deliver_resp, read_deliver_resp,
}
use cmppprotocol.Pdu.WellFormed.{ConnectFits, SubmitFits, DeliverFits}

-- The last field read, with nothing behind it.
last-Reads :
    {A B : Type 0} {m : M A} (f : A → M B) {xs : List ℕ} {a : A} {b : B}
    → Reads m xs a
    → Reads (f a) [] b
    → Reads (m >>= f) xs b
last-Reads {m = m} f {xs = xs} {b = b} p q =
    subst (λ ys. Reads (m >>= f) ys b) (append-nil xs) (bind-Reads f p q)

pub read_connect-Reads : (p : Connect) → ConnectFits p → Reads read_connect (encode_connect p) p
unfolding read_connect encode_connect
read_connect-Reads p w = bind-Reads _ (read_str-Reads p.source_addr 6 w.source_addr) (
    bind-Reads _ (take-Reads 16 p.authenticator_source w.authenticator) (
      bind-Reads _ (read_u8-Reads p.version)
        (last-Reads _ (read_u32-Reads p.timestamp w.timestamp) (pure-Reads p))))

pub read_connect_resp-Reads :
    (p : ConnectResp)
    → length p.authenticator_ismg ≡ 16
    → Reads read_connect_resp (encode_connect_resp p) p
unfolding read_connect_resp encode_connect_resp
read_connect_resp-Reads p w = bind-Reads _ (read_u8-Reads p.status) (
    bind-Reads _ (take-Reads 16 p.authenticator_ismg w)
      (last-Reads _ (read_u8-Reads p.version) (pure-Reads p)))

pub read_submit_resp-Reads :
    (p : SubmitResp) → length p.msg_id ≡ 8 → Reads read_submit_resp (encode_submit_resp p) p
unfolding read_submit_resp encode_submit_resp
read_submit_resp-Reads p w =
    bind-Reads _ (take-Reads 8 p.msg_id w) (last-Reads _ (read_u8-Reads p.result) (pure-Reads p))

pub read_deliver_resp-Reads :
    (p : DeliverResp) → length p.msg_id ≡ 8 → Reads read_deliver_resp (encode_deliver_resp p) p
unfolding read_deliver_resp encode_deliver_resp
read_deliver_resp-Reads p w =
    bind-Reads _ (take-Reads 8 p.msg_id w) (last-Reads _ (read_u8-Reads p.result) (pure-Reads p))

pub read_deliver-Reads :
    (p : Deliver) → DeliverFits p → Reads read_deliver (deliver_bytes p (length p.msg_content)) p
unfolding read_deliver deliver_bytes
read_deliver-Reads p w = bind-Reads _ (take-Reads 8 p.msg_id w.msg_id) (
    bind-Reads _ (read_str-Reads p.dest_id 21 w.dest_id) (
      bind-Reads _ (read_str-Reads p.service_id 10 w.service_id) (
        bind-Reads _ (read_u8-Reads p.tp_pid) (
          bind-Reads _ (read_u8-Reads p.tp_udhi) (
            bind-Reads _ (read_u8-Reads p.msg_fmt) (
              bind-Reads _ (read_str-Reads p.src_terminal_id 21 w.src_terminal_id) (
                bind-Reads _ (read_u8-Reads p.registered_delivery) (
                  bind-Reads _ (read_u8-Reads (length p.msg_content)) (
                    bind-Reads _ (take-Reads (length p.msg_content) p.msg_content refl)
                      (last-Reads _ (take-Reads 8 (replicate 8 0) refl) (pure-Reads p)))))))))))

pub length-put_destinations : (ds : List Str) → length (put_destinations ds) ≡ 21 * length ds
unfolding put_destinations
length-put_destinations [] = omega arith
length-put_destinations (d ∷ ds) = omega (
  arith,
  length-append (put_octet_str d 21) (put_destinations ds),
  length-put_octet_str d 21,
  length-put_destinations ds,
)

pub read_destinations-Reads :
    (ds : List Str)
    → All (Fits 21) ds
    → Reads (read_destinations (length ds)) (put_destinations ds) ds
unfolding read_destinations put_destinations
read_destinations-Reads [] w = pure-Reads []
read_destinations-Reads (d ∷ ds) w =
    bind-Reads _ (read_str-Reads d 21 w.0)
      (last-Reads _ (read_destinations-Reads ds w.1) (pure-Reads (d ∷ ds)))

-- The check passes where the destinations, a length and the reserved bytes are still to come.
check_destinations-passes :
    (k : ℕ) (r : BodyReader) (rest : List ℕ)
    → At r rest
    → k * 21 + 9 ≤ length rest
    → check_destinations k r ≡ ok (tt, r)
unfolding check_destinations remaining
check_destinations-passes k r rest at h = let sized = at.sized in ground (arith, At-length at)

check-Reads :
    {B : Type 0} (k : ℕ) {m : M B} {ys : List ℕ} {b : B}
    → k * 21 + 9 ≤ length ys
    → Reads m ys b
    → Reads (check_destinations k >> m) ys b
check-Reads k {m = m} {ys = ys} h p = record {
  reads = λ r rest at.
      bind_ok (check_destinations k) (λ _. m) r
        (check_destinations-passes k r (ys ++ rest) at (omega (arith, length-append ys rest)))
      ∙ p.reads r rest at;
}

pub read_submit-Reads :
    (p : Submit)
    → SubmitFits p
    → Reads read_submit (submit_bytes p (length p.dest_terminal_ids) (length p.msg_content)) p
unfolding read_submit submit_bytes
read_submit-Reads p w = bind-Reads _ (take-Reads 8 p.msg_id w.msg_id) (
    bind-Reads _ (read_u8-Reads p.pk_total) (
      bind-Reads _ (read_u8-Reads p.pk_number) (
        bind-Reads _ (read_u8-Reads p.registered_delivery) (
          bind-Reads _ (read_u8-Reads p.msg_level) (
            bind-Reads _ (read_str-Reads p.service_id 10 w.service_id) (
              bind-Reads _ (read_u8-Reads p.fee_user_type) (
                bind-Reads _ (read_str-Reads p.fee_terminal_id 21 w.fee_terminal_id) (
                  bind-Reads _ (read_u8-Reads p.tp_pid) (
                    bind-Reads _ (read_u8-Reads p.tp_udhi) (
                      bind-Reads _ (read_u8-Reads p.msg_fmt) (
                        bind-Reads _ (read_str-Reads p.msg_src 6 w.msg_src) (
                          bind-Reads _ (read_str-Reads p.fee_type 2 w.fee_type) (
                            bind-Reads _ (read_str-Reads p.fee_code 6 w.fee_code) (
                              bind-Reads _ (read_str-Reads p.valid_time 17 w.valid_time) (
                                bind-Reads _ (read_str-Reads p.at_time 17 w.at_time) (
                                  bind-Reads _ (read_str-Reads p.src_id 21 w.src_id) (
                                    bind-Reads _ (read_u8-Reads (length p.dest_terminal_ids)) (
                                      check-Reads (length p.dest_terminal_ids)
                                        (omega (arith, tail_length))
                                        (bind-Reads _
                                          (read_destinations-Reads p.dest_terminal_ids
                                            w.destinations)
                                          (bind-Reads _ (read_u8-Reads (length p.msg_content)) (
                                            bind-Reads _
                                              (take-Reads (length p.msg_content) p.msg_content refl)
                                              (last-Reads _ (take-Reads 8 (replicate 8 0) refl)
                                                (pure-Reads p)))))))))))))))))))))))
  where
    rest : List ℕ
    rest = (length p.msg_content ∷ []) ++ (p.msg_content ++ replicate 8 0)

    tail_length :
        length p.dest_terminal_ids * 21 + 9 ≤ length (put_destinations p.dest_terminal_ids ++ rest)
    tail_length = omega (
      arith,
      length-put_destinations p.dest_terminal_ids,
      length-append (put_destinations p.dest_terminal_ids) rest,
      length-append p.msg_content (replicate 8 0),
    )
