-- ===== src/Pdu/Reader.antt =====
-- src/pdu.rs, `BodyReader`: the bounds-checked cursor over a body, and its monad.
use cmppprotocol.Prelude.{
  ℕ, ◌+◌, ◌-◌, List, [], ◌∷◌, ltb, leb, ◌==◌, if◌then◌else◌, length, take, drop,
}
use cmppprotocol.Error.{
  Result, ok, err, panic, Error, decode, offset_overflow, unexpected_end, trailing_bytes,
}
use cmppprotocol.Types.{usize_mod}
use cmppprotocol.Text.{Str}
use cmppprotocol.Pdu.Bytes.{from_be32, read_octet_str}

pub record BodyReader : Type 0 where
  pub buf : List ℕ
  pub pos : ℕ

-- A method that moves the cursor; an error drops the reader.
abbrev pub M {ℓ} : Type ℓ → Type ℓ
M A = BodyReader → Result (A × BodyReader)

infixl 5 ◌>>=◌ ◌>>◌
abbrev pub ◌>>=◌ {ℓ κ} : {A : Type ℓ} {B : Type κ} → M A → (A → M B) → M B
◌>>=◌ m f r = elim (m r) [ ok (a, r') ↦ f a r' | err e ↦ err e | panic ↦ panic ]

abbrev pub ◌>>◌ {ℓ} : {B : Type ℓ} → M (Unit {0}) → M B → M B
m >> k = m >>= λ _. k

abbrev pub pure {ℓ} : {A : Type ℓ} → A → M A
pure a r = ok (a, r)

abbrev pub fail {ℓ} : {A : Type ℓ} → Error → M A
fail e r = err e

unfoldable pub take_bytes : ℕ → M (List ℕ)
take_bytes n r =
    if leb usize_mod (r.pos + n)
    then err (decode offset_overflow)
    else if ltb (length r.buf) (r.pos + n)
    then err (decode (unexpected_end n r.pos (length r.buf)))
    else ok (take n (drop r.pos r.buf), record r { pos = r.pos + n })

-- Indexing out of bounds panics; `take_bytes` hands over as many bytes as were asked for.
unfoldable pub first_byte : List ℕ → M ℕ
first_byte [] r = panic
first_byte (b ∷ bs) r = ok (b, r)

unfoldable pub be_word : List ℕ → M ℕ
be_word (a ∷ b ∷ c ∷ d ∷ bs) r = ok (from_be32 a b c d, r)
be_word _ r = panic

unfoldable pub read_u8 : M ℕ
unfolding first_byte
read_u8 = do b ← take_bytes 1; first_byte b

unfoldable pub read_u32 : M ℕ
unfolding be_word
read_u32 = do b ← take_bytes 4; be_word b

-- `read_octet_str(r.take(n)?)`
unfoldable pub read_str : ℕ → M Str
read_str n = do b ← take_bytes n; pure (read_octet_str b)

unfoldable pub remaining : M ℕ
remaining r = ok (length r.buf - r.pos, r)

unfoldable pub finish : M (Unit {0})
finish r =
    if r.pos == length r.buf
    then ok (tt, r)
    else err (decode (trailing_bytes (length r.buf - r.pos)))

-- The value of a run, its reader dropped.
unfoldable pub value {ℓ} : {A : Type ℓ} → Result (A × BodyReader) → Result A
value (ok (a, r)) = ok a
value (err e) = err e
value panic = panic

-- A decoder run on a whole body: `BodyReader::new`, the fields, `finish`.
unfoldable pub run_body {ℓ} : {A : Type ℓ} → M A → List ℕ → Result A
unfolding value
run_body fields body = value ((do a ← fields; finish; pure a) (record { buf = body; pos = 0 }))
