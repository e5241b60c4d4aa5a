-- ===== src/Encoding.antt =====
-- src/encoding.rs: character sets, and the plan that splits a long message into segments. The GBK tables
-- are the crate encoding_rs's, so a parameter; the rolling reference counter is passed in and returned.
pub mod Plan
pub mod Cuts
pub mod Ascii
pub mod Pieces
pub mod Split
pub mod Filled
pub mod Prepare
pub mod Segments
pub mod Decode
pub mod Series
use cmppprotocol.Prelude.{
  ℕ, zero, suc, ◌+◌, ◌-◌, ◌*◌, ◌/◌, ◌%◌, ◌^◌, ◌≤◌, ◌<◌, ◌≡◌, List, [], ◌∷◌, ◌++◌, map, Option, none,
  some, Bool, true, false, ◌&&◌, not, if◌then◌else◌, ltb, leb, ◌==◌, length, drop, get_elem?,
}
use cmppprotocol.Error.{
  Result, ok, err, panic, ◌>>=◌, ◌>>◌, expect, config, too_many_segments,
  segment_index_out_of_range, segment_number_too_large, missing_reference,
}
use cmppprotocol.Text.{
  Str, utf8, as_bytes, from_utf8_lossy, len_utf16, encode_utf16, from_utf16_lossy,
}

abbrev pub fmt_ascii : ℕ
fmt_ascii = 0

abbrev pub fmt_ucs2 : ℕ
fmt_ucs2 = 8

abbrev pub fmt_gbk : ℕ
fmt_gbk = 15

abbrev pub single_max_bytes : ℕ
single_max_bytes = 140

abbrev pub multipart_max_bytes : ℕ
multipart_max_bytes = 134

pub data SmsEncoding : Type 0 where
  ascii ucs2 gbk : SmsEncoding

unfoldable pub msg_fmt : SmsEncoding → ℕ
msg_fmt ascii = fmt_ascii
msg_fmt ucs2 = fmt_ucs2
msg_fmt gbk = fmt_gbk

pub record SmsSegment : Type 0 where
  pub msg_fmt : ℕ
  pub tp_udhi : ℕ
  pub pk_total : ℕ
  pub pk_number : ℕ
  pub content : List ℕ

-- `start..end`, in bytes of the content.
pub record Range : Type 0 where
  pub start : ℕ
  pub end : ℕ

pub record SubmitContentPlan : Type 0 where
  pub content : Str
  pub encoding : SmsEncoding
  pub ranges : List Range
  pub preferred_ref : Option ℕ

-- `GBK.encode` and `GBK.decode`
pub record Gbk : Type 0 where
  pub encode : Str → List ℕ
  pub decode : List ℕ → Str

-- `str::len`, in bytes.
abbrev pub len : Str → ℕ
len s = length (as_bytes s)

unfoldable pub is_ascii : Str → Bool
is_ascii [] = true
is_ascii (c ∷ s) = ltb c 0x80 && is_ascii s

unfoldable pub choose_encoding : Str → SmsEncoding
choose_encoding content = if is_ascii content then ascii else ucs2

-- `u16::to_be_bytes` of each unit.
unfoldable pub be_units : List ℕ → List ℕ
be_units [] = []
be_units (u ∷ us) = (u / 256 % 256) ∷ (u % 256) ∷ be_units us

module _ (g : Gbk) where
  unfoldable pub encode_content : Str → SmsEncoding → List ℕ
  encode_content content ascii = map (λ (c : ℕ). c % 256) content
  encode_content content ucs2 = be_units (encode_utf16 content)
  encode_content content gbk = g.encode content

-- `chunks_exact(2)`, each as a big-endian `u16`.
unfoldable pub units_of : List ℕ → List ℕ
units_of [] = []
units_of (a ∷ []) = []
units_of (a ∷ b ∷ bs) = (a * 256 + b) ∷ units_of bs

module _ (g : Gbk) where
  decode_payload : ℕ → List ℕ → Str
  decode_payload fmt payload =
      if fmt == fmt_ascii
      then from_utf8_lossy payload
      else if fmt == fmt_ucs2
      then (if not (length payload % 2 == 0)
          then from_utf8_lossy payload
          else from_utf16_lossy (units_of payload))
      else if fmt == fmt_gbk
      then g.decode payload
      else from_utf8_lossy payload

  unfoldable pub decode_msg_content : ℕ → ℕ → List ℕ → Str
  unfolding decode_payload
  decode_msg_content fmt udhi content =
      decode_payload fmt (if udhi == 1 && ltb 6 (length content) then drop 6 content else content)
