-- ===== src/References/Words.antt =====
-- The bits of a word: `|`, `&` and `!` on the words of the bitmaps in src/connection.rs, bit by bit.
use Prim.Native.Nat.{digits, bit_and, bit_or, bit_and-bitwise, bit_or-bitwise}
use cmppprotocol.Prelude.{
  ℕ, zero, suc, ◌-◌, ◌/◌, ◌%◌, ◌^◌, ◌≤◌, ◌<◌, min, max, ◌≡◌, refl, sym, ap, ◌∙◌, Bool, true, false,
  ◌&&◌, ◌||◌, not, ◌==◌, arith,
}

-- Bit `k` of a number.
unfoldable pub bit_at : ℕ → ℕ → Bool
bit_at a zero = a % 2 == 1
bit_at a (suc k) = bit_at (a / 2) k

pub bit_at-zero : (k : ℕ) → bit_at 0 k ≡ false
unfolding bit_at
bit_at-zero zero = refl
bit_at-zero (suc k) = bit_at-zero k

false-or : (b c : Bool) → b ≡ false → c ≡ (b || c)
false-or b c h = rw h refl

false-and : (b c : Bool) → b ≡ false → false ≡ (b && c)
false-and b c h = rw h refl

or_digits :
    (rounds a b k : ℕ)
    → a ≤ rounds
    → bit_at (digits (λ c. c) max rounds a b) k ≡ (bit_at a k || bit_at b k)
unfolding bit_at
or_digits zero (suc a) b k h = absurd (omega arith)
or_digits zero zero b k h = false-or (bit_at 0 k) (bit_at b k) (bit_at-zero k)
or_digits (suc rounds) zero b k h = false-or (bit_at 0 k) (bit_at b k) (bit_at-zero k)
or_digits (suc rounds) (suc a) b zero h = ground arith
or_digits (suc rounds) (suc a) b (suc k) h =
    let higher = or_digits rounds (suc a / 2) (b / 2) k (omega arith) in
    ap (λ (word : ℕ). bit_at word k) (omega arith) ∙ higher

-- `|` takes each bit from either side.
pub bit_at-bit_or : (a b k : ℕ) → bit_at (bit_or a b) k ≡ (bit_at a k || bit_at b k)
bit_at-bit_or a b k =
    ap (λ (word : ℕ). bit_at word k) (bit_or-bitwise a b) ∙ or_digits a a b k (omega arith)

abbrev and_digits : ℕ → ℕ → ℕ → ℕ
and_digits = digits (λ c. 0) min

and_digits-bits :
    (rounds a b k : ℕ) → a ≤ rounds → bit_at (and_digits rounds a b) k ≡ (bit_at a k && bit_at b k)
unfolding bit_at
and_digits-bits zero (suc a) b k h = absurd (omega arith)
and_digits-bits zero zero b k h =
    bit_at-zero k ∙ false-and (bit_at 0 k) (bit_at b k) (bit_at-zero k)
and_digits-bits (suc rounds) zero b k h =
    bit_at-zero k ∙ false-and (bit_at 0 k) (bit_at b k) (bit_at-zero k)
and_digits-bits (suc rounds) (suc a) b zero h = ground arith
and_digits-bits (suc rounds) (suc a) b (suc k) h =
    let higher = and_digits-bits rounds (suc a / 2) (b / 2) k (omega arith) in
    ap (λ (word : ℕ). bit_at word k) (omega arith) ∙ higher

-- `&` takes each bit from both sides.
pub bit_at-bit_and : (a b k : ℕ) → bit_at (bit_and a b) k ≡ (bit_at a k && bit_at b k)
bit_at-bit_and a b k =
    ap (λ (word : ℕ). bit_at word k) (bit_and-bitwise a b) ∙ and_digits-bits a a b k (omega arith)

-- A mask has one bit.
pub bit_at-mask : (j k : ℕ) → bit_at (2 ^ j) k ≡ (j == k)
unfolding bit_at
bit_at-mask zero zero = refl
bit_at-mask zero (suc k) = bit_at-zero k ∙ ground arith
bit_at-mask (suc j) zero = ground arith
bit_at-mask (suc j) (suc k) =
    ap (λ (n : ℕ). bit_at n k) (omega arith) ∙ bit_at-mask j k ∙ ground arith

and_digits-none : (rounds a : ℕ) → and_digits rounds a 0 ≡ 0
and_digits-none zero a = refl
and_digits-none (suc rounds) zero = refl
and_digits-none (suc rounds) (suc a) = omega (arith, and_digits-none rounds (suc a / 2))

and_digits-mask :
    (rounds a k : ℕ) → a ≤ rounds → (and_digits rounds a (2 ^ k) == 0) ≡ not (bit_at a k)
unfolding bit_at
and_digits-mask zero (suc a) k h = absurd (omega arith)
and_digits-mask zero zero k h = ap not (sym (bit_at-zero k))
and_digits-mask (suc rounds) zero k h = ap not (sym (bit_at-zero k))
and_digits-mask (suc rounds) (suc a) zero h =
    let lower =
      ap (λ (word : ℕ). and_digits rounds (suc a / 2) word) half
      ∙ and_digits-none rounds (suc a / 2) in
    ground (arith, lower)
  where
    half : 2 ^ 0 / 2 ≡ 0
    half = omega arith
and_digits-mask (suc rounds) (suc a) (suc k) h =
    let shifted = ap (λ (word : ℕ). and_digits rounds (suc a / 2) word) half in
    (ground (arith, shifted)) ∙ and_digits-mask rounds (suc a / 2) k (omega arith)
  where
    half : 2 ^ suc k / 2 ≡ 2 ^ k
    half = omega arith

not-not : (b : Bool) → not (not b) ≡ b
not-not true = refl
not-not false = refl

-- The test of a bit by a mask.
pub bit_and-mask : (a k : ℕ) → not (bit_and a (2 ^ k) == 0) ≡ bit_at a k
bit_and-mask a k =
    ap (λ (word : ℕ). not (word == 0)) (bit_and-bitwise a (2 ^ k))
    ∙ ap not (and_digits-mask a a k (omega arith))
    ∙ not-not (bit_at a k)

pow_pos : (width : ℕ) → 0 < 2 ^ width
pow_pos zero = omega arith
pow_pos (suc width) = omega (arith, pow_pos width)

pow_lt : (j width : ℕ) → j < width → 2 ^ j < 2 ^ width
pow_lt j zero h = absurd (omega arith)
pow_lt zero (suc width) h = omega (arith, pow_pos width)
pow_lt (suc j) (suc width) h = let below = pow_lt j width (omega arith) in omega (arith, below)

ones : (width k : ℕ) → k < width → bit_at (2 ^ width - 1) k ≡ true
unfolding bit_at
ones zero k h = absurd (omega arith)
ones (suc width) zero h = ground (arith, pow_pos width)
ones (suc width) (suc k) h =
    ap (λ (word : ℕ). bit_at word k) (omega arith) ∙ ones width k (omega arith)

hole : (width j k : ℕ) → j < width → k < width → bit_at (2 ^ width - 1 - 2 ^ j) k ≡ not (j == k)
unfolding bit_at
hole zero j k hj hk = absurd (omega arith)
hole (suc width) zero zero hj hk = ground arith
hole (suc width) zero (suc k) hj hk =
    ap (λ (word : ℕ). bit_at word k) (omega (arith, pow_pos width))
    ∙ ones width k (omega arith)
    ∙ ground arith
hole (suc width) (suc j) zero hj hk =
    let below = pow_lt j width (omega arith) in ground (arith, below)
hole (suc width) (suc j) (suc k) hj hk =
    let below = pow_lt j width (omega arith) in
    ap (λ (word : ℕ). bit_at word k) (omega (arith, below))
    ∙ hole width j k (omega arith) (omega arith)
    ∙ ground arith

-- The complement of a mask has every bit but one.
pub bit_at-hole : (j k : ℕ) → j < 64 → k < 64 → bit_at (2 ^ 64 - 1 - 2 ^ j) k ≡ not (j == k)
bit_at-hole = hole 64
