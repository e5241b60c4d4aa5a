-- ===== src/Pdu/Safety.antt =====
-- src/pdu.rs, decoding of arbitrary bytes: no index is out of bounds, the cursor stays in the body, and
-- a refusal is a decode error.
use cmppprotocol.Prelude.{
  ℕ, zero, suc, ◌+◌, ◌-◌, ◌*◌, ◌≤◌, ◌≡◌, ◌⊎◌, inl, inr, refl, sym, ap, ◌∙◌, List, [], ◌∷◌, length,
  take, drop, length-take, length-drop, arith, Bool, true, false, Bool-cases, ltb→le, ltb, leb,
  if◌then◌else◌,
}
use cmppprotocol.Error.{
  Result, ok, err, decode, DecodeReason, offset_overflow, unexpected_end, destination_overflow,
  destination_mismatch,
}
use native.Mathlib.Nat.{add-zero, add_assoc}
use cmppprotocol.Types.{usize_mod}
use cmppprotocol.Pdu.Bytes.{from_be32, read_octet_str}
use cmppprotocol.Pdu.Reader.{
  BodyReader, M, ◌>>=◌, pure, fail, take_bytes, first_byte, be_word, read_u8, read_u32, read_str,
  remaining,
}
use cmppprotocol.Pdu.Reads.{bind_ok, advance}
use cmppprotocol.Pdu.Connect.{read_connect, read_connect_resp}
use cmppprotocol.Pdu.Submit.{read_destinations, check_destinations, read_submit, read_submit_resp}
use cmppprotocol.Pdu.Deliver.{read_deliver, read_deliver_resp}

-- From a cursor inside the body: a decode error, or a value with `P` and a cursor further on, still
-- inside the same body.
abbrev pub Outcome : {A : Type 0} → (A → Type 0) → BodyReader → Result (A × BodyReader) → Type 0
Outcome {A} P r res =
    ((d : DecodeReason) × (res ≡ err (decode d)))
    ⊎ ((a : A) × (k : ℕ) × (r.pos + k ≤ length r.buf) × P a × (res ≡ ok (a, advance r k)))

pub record Safe {A : Type 0} (P : A → Type 0) (m : M A) : Type 0 where
  pub outcome : (r : BodyReader) → r.pos ≤ length r.buf → Outcome P r (m r)

abbrev Any : {A : Type 0} → A → Type 0
Any a = Unit

take_bytes-Outcome :
    (n : ℕ) (r : BodyReader)
    → r.pos ≤ length r.buf
    → Outcome (λ bs. length bs ≡ n) r (take_bytes n r)
unfolding take_bytes
take_bytes-Outcome n r h = elim (Bool-cases (leb usize_mod (r.pos + n))) [
  | inl big ↦ inl (offset_overflow, rw big)
  | inr fits ↦ elim (Bool-cases (ltb (length r.buf) (r.pos + n))) [
    | inl past ↦ inl (unexpected_end n r.pos (length r.buf), rw (fits, past))
    | inr within ↦ inr (
      take n (drop r.pos r.buf),
      n,
      ltb→le _ (r.pos + n) within,
      whole (ltb→le _ (r.pos + n) within),
      rw (fits, within),
    )
  ]
]
  where
    whole : r.pos + n ≤ length r.buf → length (take n (drop r.pos r.buf)) ≡ n
    whole w = omega (arith, length-take n (drop r.pos r.buf), length-drop r.pos r.buf)

take_bytes-Safe : (n : ℕ) → Safe (λ bs. length bs ≡ n) (take_bytes n)
take_bytes-Safe n = record { outcome = take_bytes-Outcome n }

pub pure-Safe : {A : Type 0} (P : A → Type 0) (a : A) → P a → Safe P (pure a)
pure-Safe P a h = record {
  outcome = λ r w.
      inr
        (a, 0, omega arith, h, ap (λ (k : ℕ). ok (a, record r { pos = k })) (sym (add-zero r.pos)));
}

module _ {A B : Type 0} (P : A → Type 0) (Q : B → Type 0) (m : M A) (f : A → M B) where
  bind-Outcome :
      Safe P m
      → ((a : A) → P a → Safe Q (f a))
      → (r : BodyReader) → r.pos ≤ length r.buf
      → Outcome Q r ((m >>= f) r)
  bind-Outcome p q r h = elim (p.outcome r h) [
    | inl (d, e) ↦ inl (d, rw (e, ◌>>=◌))
    | inr (a, k, w, pa, e) ↦ elim ((q a pa).outcome (advance r k) w) [
      | inl (d, e') ↦ inl (d, bind_ok m f r e ∙ e')
      | inr (b, j, w', qb, e') ↦ inr (
        b,
        k + j,
        omega (arith, w'),
        qb,
        bind_ok m f r e ∙ e' ∙ ap (λ (i : ℕ). ok (b, record r { pos = i })) (add_assoc r.pos k j),
      )
    ]
  ]

pub bind-Safe :
    {A B : Type 0} {P : A → Type 0} {Q : B → Type 0} {m : M A} (f : A → M B)
    → Safe P m
    → ((a : A) → P a → Safe Q (f a))
    → Safe Q (m >>= f)
bind-Safe {P = P} {Q = Q} {m = m} f p q = record { outcome = bind-Outcome P Q m f p q }

first_byte-Safe : (bs : List ℕ) → length bs ≡ 1 → Safe Any (first_byte bs)
first_byte-Safe [] h = absurd (omega arith)
first_byte-Safe (b ∷ bs) h = record {
  outcome = λ r w. unfold first_byte in (pure-Safe Any b tt).outcome r w;
}

be_word-Safe : (bs : List ℕ) → length bs ≡ 4 → Safe Any (be_word bs)
be_word-Safe (a ∷ b ∷ c ∷ d ∷ bs) h = record {
  outcome = λ r w. unfold be_word in (pure-Safe Any (from_be32 a b c d) tt).outcome r w;
}
be_word-Safe _ h = absurd (omega arith)

read_u8-Safe : Safe Any read_u8
unfolding read_u8
read_u8-Safe = bind-Safe _ (take_bytes-Safe 1) first_byte-Safe

read_u32-Safe : Safe Any read_u32
unfolding read_u32
read_u32-Safe = bind-Safe _ (take_bytes-Safe 4) be_word-Safe

read_str-Safe : (n : ℕ) → Safe Any (read_str n)
unfolding read_str
read_str-Safe n = bind-Safe _ (take_bytes-Safe n) (λ b h. pure-Safe Any (read_octet_str b) tt)

read_destinations-Safe : (n : ℕ) → Safe Any (read_destinations n)
unfolding read_destinations
read_destinations-Safe zero = pure-Safe Any [] tt
read_destinations-Safe (suc n) =
    bind-Safe _ (read_str-Safe 21)
      λ d h. bind-Safe _ (read_destinations-Safe n) λ ds g. pure-Safe Any (d ∷ ds) tt

remaining-Safe : Safe Any remaining
remaining-Safe = record {
  outcome = λ r w. unfold remaining in (pure-Safe Any (length r.buf - r.pos) tt).outcome r w;
}

guard-Safe :
    {A : Type 0} {P : A → Type 0} (b : Bool) (d : DecodeReason) {m : M A}
    → Safe P m
    → Safe P (if b then fail (decode d) else m)
guard-Safe true d p = record { outcome = λ r w. inl (d, refl) }
guard-Safe false d p = p

check_destinations-Safe : (n : ℕ) → Safe Any (check_destinations n)
unfolding check_destinations
check_destinations-Safe n = bind-Safe _ remaining-Safe λ left h.
    guard-Safe (ltb (usize_mod - 1) (n * 21)) destination_overflow (
      guard-Safe (ltb (usize_mod - 1) (n * 21 + 9)) destination_overflow
        (guard-Safe (ltb left (n * 21 + 9)) (destination_mismatch n) (pure-Safe Any tt tt)))

-- A field read into the next, nothing asked of it.
plain :
    {A B : Type 0} {Q : B → Type 0} {m : M A} (f : A → M B)
    → Safe Any m
    → ((a : A) → Safe Q (f a))
    → Safe Q (m >>= f)
plain f p q = bind-Safe f p (λ a h. q a)

pub read_connect-Safe : Safe (λ p. length p.authenticator_source ≡ 16) read_connect
unfolding read_connect
read_connect-Safe = plain _ (read_str-Safe 6) λ a.
    bind-Safe _ (take_bytes-Safe 16)
      λ b h. plain _ read_u8-Safe λ c. plain _ read_u32-Safe λ d. pure-Safe _ _ h

pub read_connect_resp-Safe : Safe (λ p. length p.authenticator_ismg ≡ 16) read_connect_resp
unfolding read_connect_resp
read_connect_resp-Safe =
    plain _ read_u8-Safe
      λ a. bind-Safe _ (take_bytes-Safe 16) λ b h. plain _ read_u8-Safe λ c. pure-Safe _ _ h

pub read_submit_resp-Safe : Safe (λ p. length p.msg_id ≡ 8) read_submit_resp
unfolding read_submit_resp
read_submit_resp-Safe =
    bind-Safe _ (take_bytes-Safe 8) λ b h. plain _ read_u8-Safe λ c. pure-Safe _ _ h

pub read_deliver_resp-Safe : Safe (λ p. length p.msg_id ≡ 8) read_deliver_resp
unfolding read_deliver_resp
read_deliver_resp-Safe =
    bind-Safe _ (take_bytes-Safe 8) λ b h. plain _ read_u8-Safe λ c. pure-Safe _ _ h

pub read_deliver-Safe : Safe (λ p. length p.msg_id ≡ 8) read_deliver
unfolding read_deliver
read_deliver-Safe = bind-Safe _ (take_bytes-Safe 8) λ msg_id h.
    plain _ (read_str-Safe 21) λ dest_id. plain _ (read_str-Safe 10) λ service_id.
      plain _ read_u8-Safe λ tp_pid. plain _ read_u8-Safe λ tp_udhi. plain _ read_u8-Safe λ msg_fmt.
        plain _ (read_str-Safe 21) λ src_terminal_id. plain _ read_u8-Safe λ registered_delivery.
          plain _ read_u8-Safe λ msg_length.
            bind-Safe _ (take_bytes-Safe msg_length)
              λ msg_content g. bind-Safe _ (take_bytes-Safe 8) λ reserved g'. pure-Safe _ _ h

pub read_submit-Safe : Safe (λ p. length p.msg_id ≡ 8) read_submit
unfolding read_submit
read_submit-Safe = bind-Safe _ (take_bytes-Safe 8) λ msg_id h. plain _ read_u8-Safe λ pk_total.
    plain _ read_u8-Safe λ pk_number. plain _ read_u8-Safe λ registered_delivery.
      plain _ read_u8-Safe λ msg_level. plain _ (read_str-Safe 10) λ service_id.
        plain _ read_u8-Safe λ fee_user_type. plain _ (read_str-Safe 21) λ fee_terminal_id.
          plain _ read_u8-Safe λ tp_pid. plain _ read_u8-Safe λ tp_udhi.
            plain _ read_u8-Safe λ msg_fmt. plain _ (read_str-Safe 6) λ msg_src.
              plain _ (read_str-Safe 2) λ fee_type. plain _ (read_str-Safe 6) λ fee_code.
                plain _ (read_str-Safe 17) λ valid_time. plain _ (read_str-Safe 17) λ at_time.
                  plain _ (read_str-Safe 21) λ src_id. plain _ read_u8-Safe λ dest_count.
                    plain _ (check_destinations-Safe dest_count) λ checked.
                      plain _ (read_destinations-Safe dest_count) λ dest_terminal_ids.
                        plain _ read_u8-Safe λ msg_length.
                          bind-Safe _ (take_bytes-Safe msg_length) λ msg_content g.
                            bind-Safe _ (take_bytes-Safe 8) λ reserved g'. pure-Safe _ _ h
