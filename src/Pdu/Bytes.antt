-- ===== src/Pdu/Bytes.antt =====
-- src/pdu.rs, the small binary helpers: big-endian words and fixed-width octet strings.
use cmppprotocol.Prelude.{
  ℕ, ◌+◌, ◌-◌, ◌*◌, ◌/◌, ◌%◌, ◌^◌, min, List, [], ◌∷◌, ◌++◌, Bool, ◌||◌, ◌==◌, if◌then◌else◌,
  length, take, replicate,
}
use cmppprotocol.Text.{Str, as_bytes, from_utf8_lossy}

-- `u32::to_be_bytes`
unfoldable pub be32 : ℕ → List ℕ
be32 n = (n / 2 ^ 24 % 256) ∷ (n / 2 ^ 16 % 256) ∷ (n / 2 ^ 8 % 256) ∷ (n % 256) ∷ []

-- `u32::from_be_bytes([a, b, c, d])`
unfoldable pub from_be32 : ℕ → ℕ → ℕ → ℕ → ℕ
from_be32 a b c d = a * 2 ^ 24 + b * 2 ^ 16 + c * 2 ^ 8 + d

-- `bytes[..n]`, then zeros up to the width of the field.
unfoldable pub put_octet_str : Str → ℕ → List ℕ
put_octet_str s len =
    let n = min (length (as_bytes s)) len in take n (as_bytes s) ++ replicate (len - n) 0

abbrev pub is_padding : ℕ → Bool
is_padding b = b == 0 || b == 0x20

-- `rposition(|&b| b != 0 && b != b' ')`, as the bytes up to it: what is left once the trailing NULs
-- and spaces are gone.
unfoldable pub trim_end : List ℕ → List ℕ
trim_end [] = []
trim_end (b ∷ bs) =
    let rest = trim_end bs in
    elim rest [ [] ↦ if is_padding b then [] else b ∷ [] | c ∷ cs ↦ b ∷ c ∷ cs ]

unfoldable pub read_octet_str : List ℕ → Str
read_octet_str bytes = from_utf8_lossy (trim_end bytes)
