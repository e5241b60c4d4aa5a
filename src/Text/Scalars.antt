-- ===== src/Text/Scalars.antt =====
-- Whatever bytes the lossy UTF-8 decoder is given, the string that it gives holds scalar values.
use cmppprotocol.Prelude.{ℕ, ◌+◌, ◌-◌, ◌*◌, ◌≤◌, ◌<◌, ◌≡◌, ◌⊎◌, List, [], ◌∷◌, All-append, arith}
use cmppprotocol.Text.{
  IsScalar, IsStr, Utf8State, utf8_start, utf8_first, utf8_step, utf8_lossy_from, from_utf8_lossy,
}

-- The value that a sequence under way can still reach is a scalar value.
abbrev InReach : ℕ → ℕ → ℕ → Type 0
InReach n low high =
    (n ≡ 0)
    ⊎ ((n ≡ 1) × ((high < 0xd800) ⊎ ((0xe000 ≤ low) × (high < 0x110000))))
    ⊎ ((n ≡ 2) × ((high < 0x360) ⊎ ((0x380 ≤ low) × (high < 0x4400))))
    ⊎ ((n ≡ 3) × (0x10 ≤ low) × (high < 0x110))

abbrev Sound : Utf8State → Type 0
Sound s =
    (0x80 ≤ s.lo)
      × (s.hi ≤ 0xbf)
      × InReach s.need (s.acc * 64 + (s.lo - 0x80)) (s.acc * 64 + (s.hi - 0x80))
    ⊎ (s.need ≡ 0)

first-Sound : (b : ℕ) → IsStr (utf8_first b).0 × Sound (utf8_first b).1
unfolding utf8_first
first-Sound b = ground arith

step-Sound : (s : Utf8State) (b : ℕ) → Sound s → IsStr (utf8_step s b).0 × Sound (utf8_step s b).1
unfolding utf8_step
step-Sound s b h = ground (arith, first-Sound b)

utf8_lossy_from-IsStr : (s : Utf8State) (bs : List ℕ) → Sound s → IsStr (utf8_lossy_from s bs)
unfolding utf8_lossy_from
utf8_lossy_from-IsStr s [] h = ground arith
utf8_lossy_from-IsStr s (b ∷ bs) h =
    let step = step-Sound s b h in
    All-append IsScalar (utf8_step s b).0 _ step.0
      (utf8_lossy_from-IsStr (utf8_step s b).1 bs step.1)

pub from_utf8_lossy-IsStr : (bs : List ℕ) → IsStr (from_utf8_lossy bs)
unfolding from_utf8_lossy
from_utf8_lossy-IsStr bs = utf8_lossy_from-IsStr utf8_start bs (omega arith)
