-- ===== src/Pdu/Reports.antt =====
-- src/pdu.rs: the layout that `DeliverReport::parse` reads, and the hexadecimal message id.
use cmppprotocol.Prelude.{
  ℕ, ◌+◌, ◌/◌, ◌%◌, ◌<◌, ◌≡◌, refl, sym, ap, ap₂, append_assoc, ◌∙◌, List, [], ◌∷◌, ◌++◌, All, some,
  length, length-append, take, drop, take-append, drop-append, drop-drop, arith, le→ltb,
}
use cmppprotocol.Types.{IsU32}
use cmppprotocol.Text.{IsByte}
use cmppprotocol.Pdu.Bytes.{be32, put_octet_str}
use cmppprotocol.Pdu.Fields.{Fits, be32_digits, length-put_octet_str, read-put_octet_str}
use cmppprotocol.Pdu.Encode.{length-be32}
use cmppprotocol.Pdu.Deliver.{DeliverReport, slice, word_of, parse_report, msg_id_hex, hex_digit}

-- The 60 bytes of a status report: id, status, two times, terminal, sequence number.
unfoldable pub report_bytes : DeliverReport → List ℕ
report_bytes r =
    r.msg_id
    ++ (put_octet_str r.stat 7
        ++ (put_octet_str r.submit_time 10
            ++ (put_octet_str r.done_time 10
                ++ (put_octet_str r.dest_terminal_id 21 ++ be32 r.smsc_sequence))))

pub record ReportFits (r : DeliverReport) : Type 0 where
  pub msg_id : length r.msg_id ≡ 8
  pub stat : Fits 7 r.stat
  pub submit_time : Fits 10 r.submit_time
  pub done_time : Fits 10 r.done_time
  pub dest_terminal_id : Fits 21 r.dest_terminal_id
  pub smsc_sequence : IsU32 r.smsc_sequence

slice-skip : (k a n : ℕ) (x ys : List ℕ) → length x ≡ k → slice (k + a) n (x ++ ys) ≡ slice a n ys
slice-skip k a n x ys h =
    ap (take n) (sym (drop-drop k a (x ++ ys)) ∙ ap (drop a) (rw (← h) (drop-append x ys)))

slice-here : (n : ℕ) (x ys : List ℕ) → length x ≡ n → slice 0 n (x ++ ys) ≡ x
slice-here n x ys h = rw (← h) (take-append x ys)

module _ (a b c d e w rest : List ℕ) (ha : length a ≡ 8) (hb : length b ≡ 7) (hc : length c ≡ 10)
    (hd : length d ≡ 10) (he : length e ≡ 21) (hw : length w ≡ 4) where
  -- Five fields and a word, with bytes behind them.
  abbrev fields : List ℕ
  fields = a ++ (b ++ (c ++ (d ++ (e ++ (w ++ rest)))))

  slice_b : slice 8 7 fields ≡ b
  slice_b = slice-skip 8 0 7 a _ ha ∙ slice-here 7 b _ hb

  slice_c : slice 15 10 fields ≡ c
  slice_c = slice-skip 8 7 10 a _ ha ∙ slice-skip 7 0 10 b _ hb ∙ slice-here 10 c _ hc

  slice_d : slice 25 10 fields ≡ d
  slice_d =
      slice-skip 8 17 10 a _ ha
      ∙ slice-skip 7 10 10 b _ hb
      ∙ slice-skip 10 0 10 c _ hc
      ∙ slice-here 10 d _ hd

  slice_e : slice 35 21 fields ≡ e
  slice_e =
      slice-skip 8 27 21 a _ ha
      ∙ slice-skip 7 20 21 b _ hb
      ∙ slice-skip 10 10 21 c _ hc
      ∙ slice-skip 10 0 21 d _ hd
      ∙ slice-here 21 e _ he

  slice_w : slice 56 4 fields ≡ w
  slice_w =
      slice-skip 8 48 4 a _ ha
      ∙ slice-skip 7 41 4 b _ hb
      ∙ slice-skip 10 31 4 c _ hc
      ∙ slice-skip 10 21 4 d _ hd
      ∙ slice-skip 21 0 4 e _ he
      ∙ slice-here 4 w _ hw

  length-fields : length fields ≡ 60 + length rest
  length-fields = omega (arith, length-append {0})

word_of-be32 : (n : ℕ) → IsU32 n → word_of (be32 n) ≡ some n
unfolding be32
word_of-be32 n h = ap some (be32_digits n h)

-- For a report that fits its fields, the 60 bytes of its layout, with any bytes behind them, parse
-- to the report.
pub parse_report-report_bytes :
    (r : DeliverReport) (rest : List ℕ)
    → ReportFits r
    → parse_report (report_bytes r ++ rest) ≡ some r
unfolding parse_report report_bytes
parse_report-report_bytes r rest w =
    let a = r.msg_id in
    let b = put_octet_str r.stat 7 in
    let c = put_octet_str r.submit_time 10 in
    let d = put_octet_str r.done_time 10 in
    let e = put_octet_str r.dest_terminal_id 21 in
    let n = be32 r.smsc_sequence in
    let lb = length-put_octet_str r.stat 7 in
    let lc = length-put_octet_str r.submit_time 10 in
    let ld = length-put_octet_str r.done_time 10 in
    let le = length-put_octet_str r.dest_terminal_id 21 in
    let ln = length-be32 r.smsc_sequence in
    rw (
      append_assoc a,
      append_assoc b,
      append_assoc c,
      append_assoc d,
      append_assoc e,
      le→ltb (length (a ++ (b ++ (c ++ (d ++ (e ++ (n ++ rest))))))) 60
          (omega (arith, length-fields a b c d e n rest w.msg_id lb lc ld le ln)),
      slice_w a b c d e n rest w.msg_id lb lc ld le ln,
      word_of-be32 r.smsc_sequence w.smsc_sequence,
      slice-here 8 a (b ++ (c ++ (d ++ (e ++ (n ++ rest))))) w.msg_id,
      slice_b a b c d e n rest w.msg_id lb lc ld le ln,
      slice_c a b c d e n rest w.msg_id lb lc ld le ln,
      slice_d a b c d e n rest w.msg_id lb lc ld le ln,
      slice_e a b c d e n rest w.msg_id lb lc ld le ln,
      read-put_octet_str r.stat 7 w.stat,
      read-put_octet_str r.submit_time 10 w.submit_time,
      read-put_octet_str r.done_time 10 w.done_time,
      read-put_octet_str r.dest_terminal_id 21 w.dest_terminal_id,
    )

hex_value-inj : (a b : ℕ) → a < 16 → b < 16 → hex_digit a ≡ hex_digit b → a ≡ b
hex_value-inj a b ha hb h = ground arith

head_of : List ℕ → ℕ
head_of [] = 0
head_of (x ∷ xs) = x

tail_of : List ℕ → List ℕ
tail_of [] = []
tail_of (x ∷ xs) = xs

-- Two message ids, as lists of bytes, with the same hexadecimal text are the same.
msg_id_hex-injective :
    (a b : List ℕ) → All IsByte a → All IsByte b → msg_id_hex a ≡ msg_id_hex b → a ≡ b
unfolding msg_id_hex
msg_id_hex-injective [] [] ha hb h = refl
msg_id_hex-injective [] (y ∷ ys) ha hb h = cc
msg_id_hex-injective (x ∷ xs) [] ha hb h = cc
msg_id_hex-injective (x ∷ xs) (y ∷ ys) ha hb h =
    let high : x / 16 ≡ y / 16 =
      hex_value-inj (x / 16) (y / 16) (omega (arith, ha.0)) (omega (arith, hb.0))
        (unfold head_of in ap head_of h) in
    let low : x % 16 ≡ y % 16 =
      hex_value-inj (x % 16) (y % 16) (omega arith) (omega arith)
        (unfold head_of tail_of in ap (λ (l : List ℕ). head_of (tail_of l)) h) in
    let same : x ≡ y = omega arith in
    let rest : xs ≡ ys =
      msg_id_hex-injective xs ys ha.1 hb.1
        (unfold tail_of in ap (λ (l : List ℕ). tail_of (tail_of l)) h) in
    ap₂ (◌∷◌) same rest
