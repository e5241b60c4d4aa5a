-- ===== src/Codec.antt =====
-- src/codec.rs: `CmppFrameCodec`, the framing of the TCP byte stream.
pub mod Frames
pub mod Stable
pub mod Buffer
pub mod Stream
use cmppprotocol.Prelude.{
  ℕ, ◌+◌, ◌-◌, ◌%◌, ◌^◌, List, [], ◌∷◌, ◌++◌, Option, none, some, if◌then◌else◌, ltb, in_range, not,
  length, take, drop,
}
use cmppprotocol.Error.{Result, ok, err, panic, ◌>>=◌, decode, bad_length}
use cmppprotocol.Types.{CmppHeader, header_length, max_message_length}
use cmppprotocol.Pdu.Bytes.{from_be32}
use cmppprotocol.Pdu.Message.{Pdu, Frame, decode_pdu, try_encode_into}

-- What a call of `decode` returns, and the buffer that it leaves.
pub record Decoded : Type 0 where
  pub result : Result (Option Frame)
  pub left : List ℕ

abbrev pub as_frame : ℕ → Result Pdu → Result (Option Frame)
as_frame sequence r = do p ← r; ok (some (record { sequence_id = sequence; pdu = p }))

-- The split frame and the rest; the frame leaves the buffer also where its body is refused.
unfoldable pub decode_split : ℕ → ℕ → ℕ → List ℕ → Decoded
decode_split total command sequence src =
    let header : CmppHeader = record {
      total_length = total;
      command_id = command;
      sequence_id = sequence;
    } in
    record {
      result = as_frame sequence (decode_pdu header (drop header_length (take total src)));
      left = drop total src;
    }

-- The checks in their order, on the fields of the header.
unfoldable pub decode_framed : ℕ → ℕ → ℕ → List ℕ → Decoded
unfolding decode_split
decode_framed total command sequence src =
    if not (in_range header_length max_message_length total)
    then record { result = err (decode (bad_length total)); left = src }
    else if ltb (length src) total
    then record { result = ok none; left = src }
    else decode_split total command sequence src

-- `u32::from_be_bytes` of four bytes of the buffer; indexing out of bounds would panic.
abbrev pub word_of : List ℕ → Result ℕ
word_of (a ∷ b ∷ c ∷ d ∷ rest) = ok (from_be32 a b c d)
word_of _ = panic

abbrev pub word_at : ℕ → List ℕ → Result ℕ
word_at i src = word_of (drop i src)

-- The three words of the header, read one after the other.
unfoldable pub decode_header : Result ℕ → Result ℕ → Result ℕ → List ℕ → Decoded
unfolding decode_framed
decode_header (ok total) (ok command) (ok sequence) src = decode_framed total command sequence src
decode_header _ _ _ src = record { result = panic; left = src }

-- A buffer shorter than a header waits for more.
unfoldable pub decode_frame : List ℕ → Decoded
unfolding decode_header
decode_frame src =
    if ltb (length src) header_length
    then record { result = ok none; left = src }
    else decode_header (word_at 0 src) (word_at 4 src) (word_at 8 src) src

unfoldable pub encode_frame : Frame → List ℕ → Result (List ℕ)
encode_frame item dst = try_encode_into item.pdu item.sequence_id dst
