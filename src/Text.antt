-- ===== src/Text.antt =====
-- Strings of the language's standard library, as src/pdu.rs and src/encoding.rs use them: a string is
-- the list of its Unicode scalar values, with its UTF-8 bytes, its UTF-16 units, and the lossy decoders.
pub mod Utf8
pub mod Scalars
pub mod Utf16
use cmppprotocol.Prelude.{
  ℕ, zero, suc, ◌+◌, ◌-◌, ◌*◌, ◌/◌, ◌%◌, ◌≤◌, ◌<◌, ◌⊎◌, Bool, true, false, ◌&&◌, ◌||◌, List, [],
  ◌∷◌, ◌++◌, Option, none, some, ltb, leb, ◌==◌, if◌then◌else◌, in_range, All, length,
}

abbrev pub Str : Type 0
Str = List ℕ

abbrev pub IsByte : ℕ → Type 0
IsByte b = b < 256

-- A Unicode scalar value: no surrogate, at most 0x10ffff.
abbrev pub IsScalar : ℕ → Type 0
IsScalar c = (c < 0xd800) ⊎ ((0xe000 ≤ c) × (c < 0x110000))

abbrev pub IsStr : Str → Type 0
IsStr s = All IsScalar s

-- `char::encode_utf8`
unfoldable pub utf8 : ℕ → List ℕ
utf8 c =
    if ltb c 0x80
    then c ∷ []
    else if ltb c 0x800
    then (0xc0 + c / 64) ∷ (0x80 + c % 64) ∷ []
    else if ltb c 0x10000
    then (0xe0 + c / 4096) ∷ (0x80 + c / 64 % 64) ∷ (0x80 + c % 64) ∷ []
    else (0xf0 + c / 262144) ∷ (0x80 + c / 4096 % 64) ∷ (0x80 + c / 64 % 64) ∷ (0x80 + c % 64) ∷ []

-- `str::as_bytes`
unfoldable pub as_bytes : Str → List ℕ
as_bytes [] = []
as_bytes (c ∷ s) = utf8 c ++ as_bytes s

abbrev pub replacement : ℕ
replacement = 0xfffd

-- A UTF-8 sequence under way: continuation bytes still due, the range of the next one, and the
-- value so far. `need` is 0 between characters.
pub record Utf8State : Type 0 where
  pub need : ℕ
  pub lo : ℕ
  pub hi : ℕ
  pub acc : ℕ

abbrev pub utf8_start : Utf8State
utf8_start = record { need = 0; lo = 0; hi = 0; acc = 0 }

-- The first byte of a sequence: what it emits, and the state behind it.
unfoldable pub utf8_first : ℕ → Str × Utf8State
utf8_first b =
    if ltb b 0x80
    then (b ∷ [], utf8_start)
    else if in_range 0xc2 0xdf b
    then ([], record { need = 1; lo = 0x80; hi = 0xbf; acc = b - 0xc0 })
    else if b == 0xe0
    then ([], record { need = 2; lo = 0xa0; hi = 0xbf; acc = 0 })
    else if b == 0xed
    then ([], record { need = 2; lo = 0x80; hi = 0x9f; acc = 0xd })
    else if in_range 0xe1 0xef b
    then ([], record { need = 2; lo = 0x80; hi = 0xbf; acc = b - 0xe0 })
    else if b == 0xf0
    then ([], record { need = 3; lo = 0x90; hi = 0xbf; acc = 0 })
    else if in_range 0xf1 0xf3 b
    then ([], record { need = 3; lo = 0x80; hi = 0xbf; acc = b - 0xf0 })
    else if b == 0xf4
    then ([], record { need = 3; lo = 0x80; hi = 0x8f; acc = 4 })
    else (replacement ∷ [], utf8_start)

-- A continuation byte in range, with the value that it completes.
unfoldable pub utf8_next : Utf8State → ℕ → Str × Utf8State
utf8_next s v =
    if s.need == 1
    then (v ∷ [], utf8_start)
    else ([], record { need = s.need - 1; lo = 0x80; hi = 0xbf; acc = v })

-- A byte that does not continue the sequence ends it with one replacement, and starts the next.
unfoldable pub utf8_step : Utf8State → ℕ → Str × Utf8State
unfolding utf8_first utf8_next
utf8_step s b =
    if s.need == 0
    then utf8_first b
    else if in_range s.lo s.hi b
    then utf8_next s (s.acc * 64 + (b - 0x80))
    else (replacement ∷ (utf8_first b).0, (utf8_first b).1)

unfoldable pub utf8_lossy_from : Utf8State → List ℕ → Str
utf8_lossy_from s [] = if s.need == 0 then [] else replacement ∷ []
utf8_lossy_from s (b ∷ bs) = (utf8_step s b).0 ++ utf8_lossy_from (utf8_step s b).1 bs

-- `String::from_utf8_lossy`
unfoldable pub from_utf8_lossy : List ℕ → Str
from_utf8_lossy bs = utf8_lossy_from utf8_start bs

-- `char::len_utf16`
unfoldable pub len_utf16 : ℕ → ℕ
len_utf16 c = if ltb c 0x10000 then 1 else 2

-- `char::encode_utf16`
unfoldable pub utf16 : ℕ → List ℕ
utf16 c =
    if ltb c 0x10000
    then c ∷ []
    else (0xd800 + (c - 0x10000) / 1024) ∷ (0xdc00 + (c - 0x10000) % 1024) ∷ []

-- `str::encode_utf16`
unfoldable pub encode_utf16 : Str → List ℕ
encode_utf16 [] = []
encode_utf16 (c ∷ s) = utf16 c ++ encode_utf16 s

abbrev pub is_high : ℕ → Bool
is_high u = in_range 0xd800 0xdbff u

abbrev pub is_low : ℕ → Bool
is_low u = in_range 0xdc00 0xdfff u

-- A unit with no high surrogate before it.
unfoldable pub utf16_first : ℕ → Str × Option ℕ
utf16_first u =
    if is_high u
    then ([], some u)
    else if is_low u
    then (replacement ∷ [], none)
    else (u ∷ [], none)

unfoldable pub utf16_step : Option ℕ → ℕ → Str × Option ℕ
unfolding utf16_first
utf16_step none u = utf16_first u
utf16_step (some h) u =
    if is_low u
    then ((0x10000 + (h - 0xd800) * 1024 + (u - 0xdc00)) ∷ [], none)
    else (replacement ∷ (utf16_first u).0, (utf16_first u).1)

unfoldable pub utf16_lossy_from : Option ℕ → List ℕ → Str
utf16_lossy_from none [] = []
utf16_lossy_from (some h) [] = replacement ∷ []
utf16_lossy_from none (u ∷ us) = (utf16_step none u).0 ++ utf16_lossy_from (utf16_step none u).1 us
utf16_lossy_from (some h) (u ∷ us) =
    (utf16_step (some h) u).0 ++ utf16_lossy_from (utf16_step (some h) u).1 us

-- `String::from_utf16_lossy`
unfoldable pub from_utf16_lossy : List ℕ → Str
from_utf16_lossy us = utf16_lossy_from none us
