-- ===== src/Codec/Stream.antt =====
-- src/codec.rs: a batch of frames written into one buffer, and the calls of `decode` that take it apart.
use cmppprotocol.Prelude.{
  ℕ, ◌≡◌, refl, sym, ap, ◌∙◌, List, [], ◌∷◌, ◌++◌, append_assoc, append-nil, All, some,
}
use cmppprotocol.Error.{Result, ok, ◌>>=◌}
use cmppprotocol.Pdu.Message.{Frame}
use cmppprotocol.Pdu.Encode.{wire_frame, try_encode_into_total}
use cmppprotocol.Pdu.Lengths.{PduFits-IsRepresentable}
use cmppprotocol.Codec.{decode_frame, encode_frame}
use cmppprotocol.Codec.Frames.{FrameFits, decode_frame-wire_frame}

-- `encode` for each frame, on the same buffer.
unfoldable pub encode_all : List Frame → List ℕ → Result (List ℕ)
encode_all [] dst = ok dst
encode_all (f ∷ fs) dst = do dst' ← encode_frame f dst; encode_all fs dst'

-- Calls of `decode` on a buffer give the frames one after the other, and leave the rest.
unfoldable pub Decodes : List ℕ → List Frame → List ℕ → Type 0
Decodes src [] left = src ≡ left
Decodes src (f ∷ fs) left =
    (mid : List ℕ) × (decode_frame src ≡ record { result = ok (some f); left = mid })
    × Decodes mid fs left

wire_frames : List Frame → List ℕ
wire_frames [] = []
wire_frames (f ∷ fs) = wire_frame f.pdu f.sequence_id ++ wire_frames fs

encode_all-eq :
    (fs : List Frame) (dst : List ℕ)
    → All FrameFits fs
    → encode_all fs dst ≡ ok (dst ++ wire_frames fs)
unfolding encode_all encode_frame wire_frames
encode_all-eq [] dst w = ap ok (sym (append-nil dst))
encode_all-eq (f ∷ fs) dst w =
    let first = w.0 in
    let fits = PduFits-IsRepresentable f.pdu first.pdu in
    rw ((try_encode_into_total f.pdu f.sequence_id dst).0 fits) (
      encode_all-eq fs (dst ++ wire_frame f.pdu f.sequence_id) w.1
      ∙ ap ok (append_assoc dst (wire_frame f.pdu f.sequence_id) (wire_frames fs)))

wire_frames-Decodes :
    (fs : List Frame) (rest : List ℕ) → All FrameFits fs → Decodes (wire_frames fs ++ rest) fs rest
unfolding Decodes wire_frames
wire_frames-Decodes [] rest w = refl
wire_frames-Decodes (f ∷ fs) rest w = (
  wire_frames fs ++ rest,
  ap decode_frame (append_assoc (wire_frame f.pdu f.sequence_id) (wire_frames fs) rest)
      ∙ decode_frame-wire_frame f (wire_frames fs ++ rest) w.0,
  wire_frames-Decodes fs rest w.1,
)

-- For frames that fit their fields: encoding them one behind the other into a buffer that holds
-- some bytes already succeeds and appends to it, and repeated decoding of what was appended, with
-- any bytes behind it, gives the frames in their order and leaves those bytes.
pub encode_all-Decodes :
    (fs : List Frame) (dst rest : List ℕ)
    → All FrameFits fs
    → (bytes : List ℕ) × (encode_all fs dst ≡ ok (dst ++ bytes)) × Decodes (bytes ++ rest) fs rest
encode_all-Decodes fs dst rest w =
    (wire_frames fs, encode_all-eq fs dst w, wire_frames-Decodes fs rest w)
