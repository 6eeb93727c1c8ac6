-- ===== src/Base/Bits.antt =====
-- Shifts and the laws of `|` and `&` that the wire formats, the replay window and the hash
-- tables use, from one equation for the lowest binary digit.
use Prim.Native.Nat.{
  ℕ, zero, suc, ◌+◌, ◌-◌, ◌*◌, ◌/◌, ◌%◌, ◌^◌, ◌≤◌, ◌<◌, min, max, bit_and, bit_or, digits,
  bit_and-bitwise, bit_or-bitwise,
}
use mathlib.Core.Path.{◌≡◌, refl, ap, ◌∙◌}
use mathlib.Core.Logic.{◌≢◌}
use native.Mathlib.Nat.{pow-suc, pow-succ', one-le-pow, div-div-eq-div-mul, div-add-mod}
use native.Mathlib.Omega.{arith}

infixl 75 ◌<<◌ ◌>>>◌
abbrev pub ◌<<◌ : ℕ → ℕ → ℕ
x << k = x * 2 ^ k

abbrev pub ◌>>>◌ : ℕ → ℕ → ℕ
x >>> k = x / 2 ^ k

abbrev pub u8 : ℕ → ℕ
u8 n = n % 2 ^ 8

abbrev pub u16 : ℕ → ℕ
u16 n = n % 2 ^ 16

abbrev pub u32 : ℕ → ℕ
u32 n = n % 2 ^ 32

abbrev pub u64 : ℕ → ℕ
u64 n = n % 2 ^ 64

module _ (base : ℕ → ℕ) (op : ℕ → ℕ → ℕ) where
  -- Any fuel that covers the first argument gives the same digits.
  more_fuel : (f g a b : ℕ) → a ≤ f → a ≤ g → digits base op f a b ≡ digits base op g a b
  more_fuel zero zero a b p q = refl
  more_fuel zero (suc g) zero b p q = refl
  more_fuel zero (suc g) (suc a) b p q = absurd (omega arith)
  more_fuel (suc f) zero zero b p q = refl
  more_fuel (suc f) zero (suc a) b p q = absurd (omega arith)
  more_fuel (suc f) (suc g) zero b p q = refl
  more_fuel (suc f) (suc g) (suc a) b p q =
      omega (arith, more_fuel f g (suc a / 2) (b / 2) (omega arith) (omega arith))

pub bit_or_digit : (a b : ℕ) → bit_or a b ≡ bit_or (a / 2) (b / 2) * 2 + max (a % 2) (b % 2)
bit_or_digit zero b = omega (arith, bit_or-bitwise 0 b, bit_or-bitwise 0 (b / 2))
bit_or_digit (suc a) b = omega (
  arith,
  bit_or-bitwise (suc a) b,
  bit_or-bitwise (suc a / 2) (b / 2),
  more_fuel (λ y. y) max a (suc a / 2) (suc a / 2) (b / 2) (omega arith) (omega arith),
)

pub bit_and_digit : (a b : ℕ) → bit_and a b ≡ bit_and (a / 2) (b / 2) * 2 + min (a % 2) (b % 2)
bit_and_digit zero b = omega (arith, bit_and-bitwise 0 b, bit_and-bitwise 0 (b / 2))
bit_and_digit (suc a) b = omega (
  arith,
  bit_and-bitwise (suc a) b,
  bit_and-bitwise (suc a / 2) (b / 2),
  more_fuel (λ y. 0) min a (suc a / 2) (suc a / 2) (b / 2) (omega arith) (omega arith),
)

-- Binary digit `i` of a word.
abbrev pub test_bit : ℕ → ℕ → ℕ
test_bit w zero = w % 2
test_bit w (suc i) = test_bit (w / 2) i

half-two_pow : (k : ℕ) → (2 ^ suc k / 2 ≡ 2 ^ k) × (2 ^ suc k % 2 ≡ 0)
half-two_pow k = (omega (arith, pow-suc 2 k), omega (arith, pow-suc 2 k))

-- `(w >> i) & 1`
pub shift-test_bit : (w i : ℕ) → (w >>> i) % 2 ≡ test_bit w i
shift-test_bit w zero = omega arith
shift-test_bit w (suc i) = omega (
  arith,
  shift-test_bit (w / 2) i,
  div-div-eq-div-mul w 2 (2 ^ i),
  ap (λ (t : ℕ). w / t) (pow-succ' 2 i),
)

pub test_bit-zero : (i : ℕ) → test_bit 0 i ≡ 0
test_bit-zero zero = refl
test_bit-zero (suc i) = test_bit-zero i

or-zero-half : (a : ℕ) → bit_or a 0 / 2 ≡ bit_or (a / 2) 0
or-zero-half a = omega (arith, bit_or_digit a 0)

pub test_bit-or_zero : (w j : ℕ) → test_bit (bit_or w 0) j ≡ test_bit w j
test_bit-or_zero w zero = omega (arith, bit_or_digit w 0)
test_bit-or_zero w (suc j) = ap (λ x. test_bit x j) (or-zero-half w) ∙ test_bit-or_zero (w / 2) j

or_half : (w v : ℕ) → bit_or w v / 2 ≡ bit_or (w / 2) (v / 2)
or_half w v = omega (arith, bit_or_digit w v)

-- `w |= 1 << k` sets digit `k`.
pub test_bit-or_self : (w k : ℕ) → test_bit (bit_or w (2 ^ k)) k ≡ 1
test_bit-or_self w zero = omega (arith, bit_or_digit w 1)
test_bit-or_self w (suc k) =
    ap (λ x. test_bit x k) (or_half w (2 ^ suc k) ∙ ap (bit_or (w / 2)) (half-two_pow k).0)
    ∙ test_bit-or_self (w / 2) k

-- It leaves every other digit alone.
pub test_bit-or_ne : (w k j : ℕ) → k ≢ j → test_bit (bit_or w (2 ^ k)) j ≡ test_bit w j
test_bit-or_ne w zero zero h = absurd (h refl)
test_bit-or_ne w zero (suc j) h = ap (λ x. test_bit x j) (or_half w 1) ∙ test_bit-or_zero (w / 2) j
test_bit-or_ne w (suc k) zero h = omega (arith, bit_or_digit w (2 ^ suc k), half-two_pow k)
test_bit-or_ne w (suc k) (suc j) h =
    ap (λ x. test_bit x j) (or_half w (2 ^ suc k) ∙ ap (bit_or (w / 2)) (half-two_pow k).0)
    ∙ test_bit-or_ne (w / 2) k j (λ e. h (ap suc e))

or_zero_below : (n a : ℕ) → a ≤ n → bit_or a 0 ≡ a
or_zero_below n zero h = bit_or-bitwise 0 0
or_zero_below zero (suc a) h = absurd (omega arith)
or_zero_below (suc n) (suc a) h =
    omega (arith, bit_or_digit (suc a) 0, or_zero_below n (suc a / 2) (omega arith))

and_zero_below : (n a : ℕ) → a ≤ n → bit_and a 0 ≡ 0
and_zero_below n zero h = bit_and-bitwise 0 0
and_zero_below zero (suc a) h = absurd (omega arith)
and_zero_below (suc n) (suc a) h =
    omega (arith, bit_and_digit (suc a) 0, and_zero_below n (suc a / 2) (omega arith))

-- Disjoint fields: `(q << k) | r` is a sum when `r` fits in `k` digits.
pub bit_or-fields : (k q r : ℕ) → r < 2 ^ k → bit_or (q << k) r ≡ q * 2 ^ k + r
bit_or-fields zero q r h =
    let e : r ≡ 0 = omega arith in
    let q' : q * 1 ≡ q = omega arith in rw (e, q') (or_zero_below q q (omega arith) ∙ omega arith)
bit_or-fields (suc k) q r h =
    let twice : q * 2 ^ suc k ≡ 2 * (q * 2 ^ k) =
      omega (arith, ap (λ (t : ℕ). q * t) (pow-suc 2 k)) in
    let half : q * 2 ^ suc k / 2 ≡ q * 2 ^ k = omega arith in
    let ih : bit_or (q * 2 ^ k) (r / 2) ≡ q * 2 ^ k + r / 2 =
      bit_or-fields k q (r / 2) (omega (arith, pow-suc 2 k)) in
    omega (arith, bit_or_digit (q * 2 ^ suc k) r, ap (λ x. bit_or x (r / 2)) half, ih)

mod_double : (a m : ℕ) → a % (2 * m) ≡ a / 2 % m * 2 + a % 2
mod_double a m = omega (
  arith,
  div-add-mod a (2 * m),
  div-add-mod (a / 2) m,
  ap (λ (t : ℕ). m * t) (div-div-eq-div-mul a 2 m),
)

-- A mask of `k` ones is the remainder by `2 ^ k`.
pub bit_and-mask : (k a : ℕ) → bit_and a (2 ^ k - 1) ≡ a % 2 ^ k
bit_and-mask zero a = and_zero_below a a (omega arith) ∙ omega arith
bit_and-mask (suc k) a =
    let full : 2 ^ suc k ≡ 2 * 2 ^ k = omega (arith, pow-suc 2 k) in
    let some_ones : 1 ≤ 2 ^ k = one-le-pow k 2 (omega arith) in
    let half : (2 ^ suc k - 1) / 2 ≡ 2 ^ k - 1 = omega arith in
    let ih : bit_and (a / 2) (2 ^ k - 1) ≡ a / 2 % 2 ^ k = bit_and-mask k (a / 2) in
    omega (
      arith,
      bit_and_digit a (2 ^ suc k - 1),
      ap (λ x. bit_and (a / 2) x) half,
      ih,
      ap (λ (t : ℕ). a % t) (pow-succ' 2 k),
      mod_double a (2 ^ k),
    )
