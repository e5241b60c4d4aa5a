-- ===== src/Error.antt =====
-- src/error.rs: the error type, the result type of the crate, and which errors are retryable.
use cmppprotocol.Prelude.{ℕ, Bool, true, false, List}

-- What the text of an `Error::Decode` says, with the numbers that it prints.
pub data DecodeReason : Type 0 where
  bad_length : ℕ → DecodeReason
  unknown_command : ℕ → DecodeReason
  offset_overflow : DecodeReason
  -- needed, offset, present
  unexpected_end : ℕ → ℕ → ℕ → DecodeReason
  trailing_bytes : ℕ → DecodeReason
  -- expected, present
  bad_body_length : ℕ → ℕ → DecodeReason
  destination_overflow : DecodeReason
  destination_mismatch : ℕ → DecodeReason

-- What the text of an `Error::Config` says.
pub data ConfigReason : Type 0 where
  too_many_destinations : ConfigReason
  content_too_long : ConfigReason
  segment_index_out_of_range : ConfigReason
  too_many_segments : ConfigReason
  segment_number_too_large : ConfigReason
  missing_reference : ConfigReason
  bad_sequence_range : ConfigReason

-- An I/O error and the text of a failed connect are the operating system's; they are not looked into.
pub data Error : Type 0 where
  io : Error
  decode : DecodeReason → Error
  connect : Error
  auth : ℕ → Error
  authenticator_mismatch : Error
  timeout : Error
  closed : Error
  channel_closed : Error
  terminated : Error
  partial_submit : List ℕ → Error → Error
  resource_exhausted : Error
  config : ConfigReason → Error

-- `panic` stands for a Rust panic: an `expect`, an `unwrap`, a slice out of bounds.
pub data Result {ℓ} (A : Type ℓ) : Type ℓ where
  ok : A → Result A
  err : Error → Result A
  panic : Result A

infixl 5 ◌>>=◌ ◌>>◌
abbrev pub ◌>>=◌ {ℓ κ} : {A : Type ℓ} {B : Type κ} → Result A → (A → Result B) → Result B
ok a >>= f = f a
err e >>= f = err e
panic >>= f = panic

abbrev pub ◌>>◌ {ℓ} : {B : Type ℓ} → Result (Unit {0}) → Result B → Result B
m >> k = m >>= λ _. k

-- `expect`: an error becomes a panic.
abbrev pub expect {ℓ} : {A : Type ℓ} → Result A → Result A
expect (ok a) = ok a
expect (err e) = panic
expect panic = panic

unfoldable pub is_retryable : Error → Bool
is_retryable io = true
is_retryable (decode r) = false
is_retryable connect = true
is_retryable (auth s) = false
is_retryable authenticator_mismatch = false
is_retryable timeout = true
is_retryable closed = true
is_retryable channel_closed = true
is_retryable terminated = true
is_retryable (partial_submit ids source) = is_retryable source
is_retryable resource_exhausted = true
is_retryable (config r) = false
