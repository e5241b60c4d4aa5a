-- ===== src/Encoding/Plan.antt =====
-- src/encoding.rs: `SubmitContentPlan`, `prepare_submit_content` and `try_split_content`.
use cmppprotocol.Prelude.{
  ℕ, zero, suc, ◌+◌, ◌-◌, ◌*◌, ◌/◌, ◌%◌, ◌^◌, List, [], ◌∷◌, ◌++◌, Option, none, some, Bool, ◌&&◌,
  not, if◌then◌else◌, ltb, leb, ◌==◌, length, get_elem?,
}
use cmppprotocol.Error.{
  Result, ok, err, panic, ◌>>=◌, expect, config, too_many_segments, segment_index_out_of_range,
  segment_number_too_large, missing_reference,
}
use cmppprotocol.Text.{Str, utf8, len_utf16}
use cmppprotocol.Encoding.{
  single_max_bytes, multipart_max_bytes, SmsEncoding, ascii, ucs2, gbk, msg_fmt, SmsSegment, Range,
  SubmitContentPlan, Gbk, len, choose_encoding, encode_content,
}

-- `&s[..n]` and `&s[n..]`: a cut inside a character, or past the end, panics.
unfoldable pub split_at : ℕ → Str → Result (Str × Str)
split_at n [] = if n == 0 then ok ([], []) else panic
split_at n (c ∷ s) =
    let rest = split_at (n - length (utf8 c)) s in
    if n == 0
    then ok ([], c ∷ s)
    else if ltb n (length (utf8 c))
    then panic
    else (do (a, b) ← rest; ok (c ∷ a, b))

-- `&s[range]`
unfoldable pub str_slice : Str → Range → Result Str
str_slice s r = if ltb r.end r.start then panic else (do
  (before, from_start) ← split_at r.start s
  (inside, after) ← split_at (r.end - r.start) from_start
  ok inside)

unfoldable pub segment_count : SubmitContentPlan → ℕ
segment_count plan = length plan.ranges

abbrev pub ok_or {ℓ} : {A : Type ℓ} → Option A → Result A → Result A
ok_or none r = r
ok_or (some a) r = ok a

abbrev pub or_else {ℓ} : {A : Type ℓ} → Option A → Option A → Option A
or_else none b = b
or_else (some a) b = some a

-- The user data header of one part of a long message.
abbrev pub udh : ℕ → ℕ → ℕ → List ℕ
udh reference total seq = 0x05 ∷ 0x00 ∷ 0x03 ∷ reference ∷ total ∷ seq ∷ []

unfoldable pub part : SubmitContentPlan → ℕ → Option ℕ → List ℕ → Result SmsSegment
part plan index reference encoded = do
  total ←
      if ltb 255 (length plan.ranges)
      then err (config too_many_segments)
      else ok (length plan.ranges)
  seq ← if ltb 255 (index + 1) then err (config segment_number_too_large) else ok (index + 1)
  chosen ← ok_or (or_else reference plan.preferred_ref) (err (config missing_reference))
  ok (record {
    msg_fmt = msg_fmt plan.encoding;
    tp_udhi = 1;
    pk_total = total;
    pk_number = seq;
    content = udh chosen total seq ++ encoded;
  })

module _ (g : Gbk) where
  unfoldable pub segment : SubmitContentPlan → ℕ → Option ℕ → Result SmsSegment
  unfolding part
  segment plan index reference = do
    range ← ok_or (get_elem? plan.ranges index) (err (config segment_index_out_of_range))
    piece ← str_slice plan.content range
    let encoded = encode_content g piece plan.encoding
    if length plan.ranges == 1
        then ok (record {
          msg_fmt = msg_fmt plan.encoding;
          tp_udhi = 0;
          pk_total = 1;
          pk_number = 1;
          content = encoded;
        })
        else part plan index reference encoded

-- `character.len_utf16() * 2`
abbrev pub ucs2_size : ℕ → ℕ
ucs2_size c = len_utf16 c * 2

unfoldable pub ucs2_bytes : Str → ℕ
ucs2_bytes [] = 0
ucs2_bytes (c ∷ s) = ucs2_size c + ucs2_bytes s

unfoldable pub total_bytes : SmsEncoding → Str → Result ℕ
total_bytes ascii content = ok (len content)
total_bytes ucs2 content = ok (ucs2_bytes content)
total_bytes gbk content = panic

-- A character that does not fit the current part begins the next.
abbrev pub breaks : ℕ → ℕ → Bool
breaks current c = not (current == 0) && ltb multipart_max_bytes (current + ucs2_size c)

unfoldable pub count_ucs2 : ℕ → ℕ → Str → ℕ
count_ucs2 count current [] = count
count_ucs2 count current (c ∷ s) =
    count_ucs2 (if breaks current c then count + 1 else count)
      (if breaks current c then ucs2_size c else current + ucs2_size c) s

-- `total_bytes.div_ceil(134)`
abbrev pub div_ceil : ℕ → ℕ → ℕ
div_ceil a b = (a + (b - 1)) / b

unfoldable pub count_segments : SmsEncoding → Str → ℕ → Result ℕ
count_segments enc content total = if leb total single_max_bytes then ok 1 else elim enc [
  | ascii ↦ ok (div_ceil total multipart_max_bytes)
  | ucs2 ↦ ok (count_ucs2 1 0 content)
  | gbk ↦ panic
]

-- The lengths of `chunks(134)` of `n` bytes; a chunk takes a byte at least, so `n` rounds are enough.
unfoldable pub chunk_lengths : ℕ → ℕ → List ℕ
chunk_lengths zero n = []
chunk_lengths (suc fuel) n =
    let rest = chunk_lengths fuel (n - multipart_max_bytes) in
    if n == 0 then [] else if leb n multipart_max_bytes then n ∷ [] else multipart_max_bytes ∷ rest

unfoldable pub push_ranges : ℕ → List ℕ → List Range
push_ranges start [] = []
push_ranges start (l ∷ ls) = record { start = start; end = start + l } ∷ push_ranges (start + l) ls

unfoldable pub ucs2_ranges : ℕ → ℕ → ℕ → ℕ → Str → List Range
ucs2_ranges end start current offset [] = record { start = start; end = end } ∷ []
ucs2_ranges end start current offset (c ∷ s) =
    let rest =
      ucs2_ranges end (if breaks current c then offset else start)
        (if breaks current c then ucs2_size c else current + ucs2_size c) (offset + length (utf8 c))
        s in
    if breaks current c then record { start = start; end = offset } ∷ rest else rest

unfoldable pub make_ranges : SmsEncoding → Str → ℕ → Result (List Range)
make_ranges enc content total =
    if leb total single_max_bytes
    then ok (record { start = 0; end = len content } ∷ [])
    else elim enc [
      | ascii ↦ ok (push_ranges 0 (chunk_lengths (len content) (len content)))
      | ucs2 ↦ ok (ucs2_ranges (len content) 0 0 0 content)
      | gbk ↦ panic
    ]

-- The plan, and the counter of references after it: `fetch_add(1) & 0xFF`, for a plan of several parts.
unfoldable pub plan_of : Str → List Range → ℕ → SubmitContentPlan × ℕ
plan_of content ranges counter =
    if ltb 1 (length ranges)
    then (
      record {
        content = content;
        encoding = choose_encoding content;
        ranges = ranges;
        preferred_ref = some (counter % 256);
      },
      (counter + 1) % 2 ^ 32,
    )
    else (
      record {
        content = content;
        encoding = choose_encoding content;
        ranges = ranges;
        preferred_ref = none;
      },
      counter,
    )

unfoldable pub prepare_submit_content : Str → ℕ → Result (SubmitContentPlan × ℕ)
unfolding plan_of
prepare_submit_content content counter = do
  total ← total_bytes (choose_encoding content) content
  count ← count_segments (choose_encoding content) content total
  if ltb 255 count then err (config too_many_segments) else (do
    ranges ← make_ranges (choose_encoding content) content total
    ok (plan_of content ranges counter))

module _ (g : Gbk) where
  -- Segments `index`, `index + 1`, …, as many as `n`; the first error ends the collection.
  unfoldable pub collect_segments : SubmitContentPlan → Option ℕ → ℕ → ℕ → Result (List SmsSegment)
  collect_segments plan reference index zero = ok []
  collect_segments plan reference index (suc n) = do
    seg ← segment g plan index reference
    rest ← collect_segments plan reference (index + 1) n
    ok (seg ∷ rest)

  unfoldable pub try_split_content : Str → ℕ → Result (List SmsSegment × ℕ)
  try_split_content content counter = do
    (plan, counter') ← prepare_submit_content content counter
    segments ← collect_segments plan plan.preferred_ref 0 (segment_count plan)
    ok (segments, counter')

  -- `split_content` panics where `try_split_content` fails.
  unfoldable pub split_content : Str → ℕ → Result (List SmsSegment × ℕ)
  split_content content counter = expect (try_split_content content counter)
