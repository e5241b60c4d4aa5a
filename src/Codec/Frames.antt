-- ===== src/Codec/Frames.antt =====
-- src/codec.rs: decoding an encoded frame, whole, cut short, or followed by more bytes.
use cmppprotocol.Prelude.{
  ℕ, suc, ◌+◌, ◌%◌, ◌^◌, ◌≤◌, ◌<◌, ◌≡◌, refl, sym, ap, ◌∙◌, List, [], ◌∷◌, ◌++◌, append_assoc,
  length, length-append, append-nil, arith, ltb, le→ltb, take, drop, take-append, drop-append,
  take-append-drop, Bool-cases, ltb→le, zero, inl, inr, none, some,
}
use cmppprotocol.Error.{ok}
use cmppprotocol.Types.{IsU32}
use cmppprotocol.Pdu.Bytes.{be32}
use cmppprotocol.Pdu.Fields.{be32_digits}
use cmppprotocol.Pdu.WellFormed.{PduFits}
use cmppprotocol.Pdu.Encode.{wire_body, wire_frame, length-be32}
use cmppprotocol.Pdu.Lengths.{length-wire_body-le, length-wire_frame}
use cmppprotocol.Pdu.RoundTrip.{decode_pdu-wire_body}
use cmppprotocol.Pdu.Message.{Pdu, Frame, command_id}
use cmppprotocol.Codec.{decode_split, decode_framed, decode_frame, word_of, word_at}

word_of-be32 : (n : ℕ) (rest : List ℕ) → IsU32 n → word_of (be32 n ++ rest) ≡ ok n
unfolding be32
word_of-be32 n rest h = ap ok (be32_digits n h)

-- A buffer that begins with a header is decoded by it.
decode_frame-header :
    (total command sequence : ℕ) (body : List ℕ)
    → IsU32 total
    → IsU32 command
    → IsU32 sequence
    → let src = be32 total ++ (be32 command ++ (be32 sequence ++ body)) in
      decode_frame src ≡ decode_framed total command sequence src
unfolding decode_frame
decode_frame-header total command sequence body ht hc hs =
    rw (le→ltb (length src) 12 enough, first, second, third)
  where
    src : List ℕ
    src = be32 total ++ (be32 command ++ (be32 sequence ++ body))

    enough : 12 ≤ length src
    enough = omega (arith, length-append {0}, length-be32)

    first : word_at 0 src ≡ ok total
    first = word_of-be32 total (be32 command ++ (be32 sequence ++ body)) ht

    second : word_at 4 src ≡ ok command
    second = unfold be32 in word_of-be32 command (be32 sequence ++ body) hc

    third : word_at 8 src ≡ ok sequence
    third = unfold be32 in word_of-be32 sequence body hs

abbrev header_bytes : ℕ → ℕ → ℕ → List ℕ
header_bytes total command sequence = be32 total ++ (be32 command ++ be32 sequence)

decode_frame-take :
    (total command sequence : ℕ) (src : List ℕ)
    → IsU32 total
    → IsU32 command
    → IsU32 sequence
    → take 12 src ≡ header_bytes total command sequence
    → decode_frame src ≡ decode_framed total command sequence src
decode_frame-take total command sequence src ht hc hs e =
    rw whole (decode_frame-header total command sequence (drop 12 src) ht hc hs)
  where
    whole : src ≡ be32 total ++ (be32 command ++ (be32 sequence ++ drop 12 src))
    whole =
        sym (take-append-drop 12 src)
        ∙ ap (λ (h : List ℕ). h ++ drop 12 src) e
        ∙ append_assoc (be32 total) (be32 command ++ be32 sequence) (drop 12 src)
        ∙ ap (◌++◌ (be32 total)) (append_assoc (be32 command) (be32 sequence) (drop 12 src))

-- Messages that the codec can carry: a PDU that fits its fields, and a 32-bit sequence id.
pub record FrameFits (f : Frame) : Type 0 where
  pub pdu : PduFits f.pdu
  pub sequence : IsU32 f.sequence_id

command_id-IsU32 : (p : Pdu) → IsU32 (command_id p)
unfolding command_id
command_id-IsU32 p = ground arith

wire_frame-total :
    (p : Pdu) → PduFits p → (12 + length (wire_body p)) % 2 ^ 32 ≡ 12 + length (wire_body p)
wire_frame-total p w = omega (arith, length-wire_body-le p w)

take-wire_frame :
    (p : Pdu) (sequence : ℕ) (rest : List ℕ)
    → PduFits p
    → take 12 (wire_frame p sequence ++ rest)
      ≡ header_bytes (length (wire_frame p sequence)) (command_id p) sequence
unfolding wire_frame be32
take-wire_frame p sequence rest w =
    ap (λ (n : ℕ). header_bytes n (command_id p) sequence)
      (wire_frame-total p w ∙ sym (length-wire_frame p sequence))

-- A buffer that begins like a frame is decoded by that frame's header.
decode_frame-wire :
    (f : Frame) (src rest : List ℕ)
    → FrameFits f
    → take 12 src ≡ take 12 (wire_frame f.pdu f.sequence_id ++ rest)
    → decode_frame src
      ≡ decode_framed (length (wire_frame f.pdu f.sequence_id)) (command_id f.pdu) f.sequence_id src
decode_frame-wire f src rest w e =
    decode_frame-take _ (command_id f.pdu) f.sequence_id src
      (omega (arith, length-wire_frame f.pdu f.sequence_id, length-wire_body-le f.pdu w.pdu))
      (command_id-IsU32 f.pdu) w.sequence (e ∙ take-wire_frame f.pdu f.sequence_id rest w.pdu)

body-wire_frame : (p : Pdu) (sequence : ℕ) → drop 12 (wire_frame p sequence) ≡ wire_body p
unfolding wire_frame be32
body-wire_frame p sequence = refl

framed_split :
    (total command sequence : ℕ) (src : List ℕ)
    → 12 ≤ total
    → total ≤ 65536
    → total ≤ length src
    → decode_framed total command sequence src ≡ decode_split total command sequence src
unfolding decode_framed
framed_split total command sequence src lo hi h = ground arith

framed_wait :
    (total command sequence : ℕ) (src : List ℕ)
    → 12 ≤ total
    → total ≤ 65536
    → length src < total
    → decode_framed total command sequence src ≡ record { result = ok none; left = src }
unfolding decode_framed
framed_wait total command sequence src lo hi h = ground arith

split-wire_frame :
    (f : Frame) (rest : List ℕ)
    → FrameFits f
    → decode_split
        (length (wire_frame f.pdu f.sequence_id))
        (command_id f.pdu)
        f.sequence_id
        (wire_frame f.pdu f.sequence_id ++ rest)
      ≡ record { result = ok (some f); left = rest }
unfolding decode_split
split-wire_frame f rest w =
    let frame = wire_frame f.pdu f.sequence_id in
    rw (
      take-append frame rest,
      drop-append frame rest,
      body-wire_frame f.pdu f.sequence_id,
      decode_pdu-wire_body f.pdu (length frame) f.sequence_id w.pdu,
    )

length-bounds :
    (f : Frame)
    → FrameFits f
    → (12 ≤ length (wire_frame f.pdu f.sequence_id))
      × (length (wire_frame f.pdu f.sequence_id) ≤ 65536)
length-bounds f w =
    omega (arith, length-wire_frame f.pdu f.sequence_id, length-wire_body-le f.pdu w.pdu)

-- A whole frame at the front of the buffer is decoded and removed; the rest stays.
pub decode_frame-wire_frame :
    (f : Frame) (rest : List ℕ)
    → FrameFits f
    → decode_frame (wire_frame f.pdu f.sequence_id ++ rest)
      ≡ record { result = ok (some f); left = rest }
decode_frame-wire_frame f rest w =
    let (lo, hi) = length-bounds f w in
    decode_frame-wire f _ rest w refl
    ∙ framed_split _ (command_id f.pdu) f.sequence_id _ lo hi
        (omega (arith, length-append (wire_frame f.pdu f.sequence_id) rest))
    ∙ split-wire_frame f rest w

take-prefix : (n : ℕ) (xs ys : List ℕ) → n ≤ length xs → take n xs ≡ take n (xs ++ ys)
take-prefix zero xs ys h = refl
take-prefix (suc n) [] ys h = absurd (omega arith)
take-prefix (suc n) (x ∷ xs) ys h = ap (◌∷◌ x) (take-prefix n xs ys (omega arith))

-- For a frame that fits its fields, a buffer that holds a proper front of its bytes makes decode
-- ask for more, and is kept.
pub decode_frame-partial :
    (f : Frame) (front back : List ℕ) (x : ℕ)
    → FrameFits f
    → wire_frame f.pdu f.sequence_id ≡ front ++ (x ∷ back)
    → decode_frame front ≡ record { result = ok none; left = front }
decode_frame-partial f front back x w e = elim (Bool-cases (ltb (length front) 12)) [
  | inl short ↦ unfold decode_frame in rw short
  | inr long ↦
      let (lo, hi) = length-bounds f w in
      decode_frame-wire f front [] w (
        take-prefix 12 front (x ∷ back) (ltb→le _ 12 long)
        ∙ ap (take 12) (sym e ∙ sym (append-nil (wire_frame f.pdu f.sequence_id))))
      ∙ framed_wait _ (command_id f.pdu) f.sequence_id front lo hi
          (omega (arith, ap length e, length-append front (x ∷ back)))
]
