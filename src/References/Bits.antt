-- ===== src/References/Bits.antt =====
-- src/connection.rs: the bitmaps of a bucket as sets of references, of which `set_udh_reference` and
-- `clear_udh_reference` change one member, and what `purge_udh_cooldowns` takes out.
use Prim.Native.Nat.{bit_or}
use cmppprotocol.Prelude.{
  ℕ, ◌-◌, ◌/◌, ◌%◌, ◌^◌, ◌≡◌, inl, inr, refl, sym, ap, ◌∙◌, Bool, true, false, ◌&&◌, ◌||◌, not,
  ◌==◌, arith, Bool-cases,
}
use cmppprotocol.References.{
  Bitmap, UdhReferenceBucket, udh_reference_position, udh_reference_is_set, set_udh_reference,
  clear_udh_reference,
}
use cmppprotocol.References.Words.{
  bit_at, bit_at-bit_or, bit_at-bit_and, bit_at-mask, bit_at-zero, bit_and-mask, bit_at-hole,
}

-- A reference is in a bitmap.
unfoldable pub has : Bitmap → ℕ → Bool
has bitmap reference = bit_at (bitmap (reference / 64)) (reference % 64)

same_place : (r x : ℕ) → (x / 64) == (r / 64) ≡ true → ((r % 64) == (x % 64)) ≡ (r == x)
same_place r x h = ground arith

other_place : (r x : ℕ) → (x / 64) == (r / 64) ≡ false → (r == x) ≡ false
other_place r x h = ground arith

pub has-set_udh_reference :
    (m : Bitmap) (r x : ℕ) → has (set_udh_reference m r) x ≡ (has m x || r == x)
unfolding has set_udh_reference udh_reference_position
has-set_udh_reference m r x = elim (Bool-cases ((x / 64) == (r / 64))) [
  | inl e ↦ rw e (
      bit_at-bit_or (m (x / 64)) (2 ^ (r % 64)) (x % 64)
      ∙ ap (λ (b : Bool). bit_at (m (x / 64)) (x % 64) || b)
          (bit_at-mask (r % 64) (x % 64) ∙ same_place r x e))
  | inr e ↦ rw (e, other_place r x e) (sym (false_or _))
]
  where
    false_or : (b : Bool) → (b || false) ≡ b
    false_or true = refl
    false_or false = refl

pub has-clear_udh_reference :
    (m : Bitmap) (r x : ℕ) → has (clear_udh_reference m r) x ≡ (has m x && not (r == x))
unfolding has clear_udh_reference udh_reference_position
has-clear_udh_reference m r x = elim (Bool-cases ((x / 64) == (r / 64))) [
  | inl e ↦ rw e (
      bit_at-bit_and (m (x / 64)) (2 ^ 64 - 1 - 2 ^ (r % 64)) (x % 64)
      ∙ ap (λ (b : Bool). bit_at (m (x / 64)) (x % 64) && b)
          (bit_at-hole (r % 64) (x % 64) (omega arith) (omega arith) ∙ ap not (same_place r x e)))
  | inr e ↦ rw (e, other_place r x e) (sym (and_true _))
]
  where
    and_true : (b : Bool) → (b && true) ≡ b
    and_true true = refl
    and_true false = refl

pub udh_reference_is_set_iff :
    (b : UdhReferenceBucket) (r : ℕ)
    → udh_reference_is_set b r ≡ (has b.active r || has b.cooling r)
unfolding has udh_reference_is_set udh_reference_position
udh_reference_is_set_iff b r =
    bit_and-mask (bit_or (b.active (r / 64)) (b.cooling (r / 64))) (r % 64)
    ∙ bit_at-bit_or (b.active (r / 64)) (b.cooling (r / 64)) (r % 64)

-- A bitmap of zeros has no reference.
pub has_none : (r : ℕ) → has (λ w. 0) r ≡ false
unfolding has
has_none r = bit_at-zero (r % 64)
