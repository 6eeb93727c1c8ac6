-- ===== src/Keys/Digits.antt =====
-- The digits of base64: characters and their values, and the bits of a group.
use camex.Base.{
  ℕ, zero, suc, ◌+◌, ◌*◌, ◌%◌, ◌^◌, ◌<◌, ◌≡◌, refl, ap, ◌∙◌, Bool, true, false, ◌&&◌, Option, none,
  some, get_or, ◌==◌, bit_or, ◌<<◌, ◌>>>◌, arith, bit_and-mask, bit_or-fields, ℕ_discrete, yes, no,
}
use camex.Keys.Text.{
  b64_char, b64_chars, b64_value, padded_value, Digit, digit, pad, bad, group_value,
}

-- A test of the numbers below `n`.
abbrev pub all_below : ℕ → (ℕ → Bool) → Bool
all_below zero f = true
all_below (suc n) f = f n && all_below n f

pub all_below-at : (n : ℕ) (f : ℕ → Bool) (k : ℕ) → all_below n f ≡ true → k < n → f k ≡ true
all_below-at zero f k h l = absurd (omega arith)
all_below-at (suc n) f k h l =
    let both : (f n ≡ true) × (all_below n f ≡ true) = ground arith in
    elim (ℕ_discrete k n) [
      | yes e ↦ ap f e ∙ both.0
      | no d ↦ all_below-at n f k both.1 (omega (arith, d))
    ]

abbrev pub is_digit : Digit → ℕ → Bool
is_digit (digit v) n = v == n
is_digit pad n = false
is_digit bad n = false

pub is_digit→eq : (d : Digit) (n : ℕ) → is_digit d n ≡ true → d ≡ digit n
is_digit→eq (digit v) n h = ap digit (ground arith)
is_digit→eq pad n h = absurd (cc h)
is_digit→eq bad n h = absurd (cc h)

abbrev pub same_value : Option ℕ → ℕ → Bool
same_value none n = false
same_value (some v) n = v == n

pub same_value→eq : (o : Option ℕ) (n : ℕ) → same_value o n ≡ true → o ≡ some n
same_value→eq none n h = absurd (cc h)
same_value→eq (some v) n h = ap some (ground arith)

abbrev b64_at : ℕ → ℕ
b64_at n = get_or b64_chars n 0

value_table : all_below 64 (λ n. is_digit (b64_value (b64_at n)) n) ≡ true
unfolding b64_value
value_table = refl

padded_table : all_below 64 (λ n. is_digit (padded_value (b64_at n)) n) ≡ true
unfolding b64_value
padded_table = refl

-- A digit's character has the digit's value.
pub value-char : (v : ℕ) → b64_value (b64_char v) ≡ digit (v % 64)
value-char v =
    ap (λ n. b64_value (b64_at n)) (bit_and-mask 6 v)
    ∙ is_digit→eq (b64_value (b64_at (v % 64))) (v % 64) (
        all_below-at 64 (λ n. is_digit (b64_value (b64_at n)) n) (v % 64) value_table (omega arith))

-- It is not taken for padding.
pub padded_value-char : (v : ℕ) → padded_value (b64_char v) ≡ digit (v % 64)
padded_value-char v =
    ap (λ n. padded_value (b64_at n)) (bit_and-mask 6 v)
    ∙ is_digit→eq (padded_value (b64_at (v % 64))) (v % 64) (
        all_below-at 64 (λ n. is_digit (padded_value (b64_at n)) n) (v % 64) padded_table
          (omega arith))

group_value-sum :
    (a b c d : ℕ)
    → b < 64
    → c < 64
    → d < 64
    → group_value a b c d ≡ a * 2 ^ 18 + b * 2 ^ 12 + c * 2 ^ 6 + d
group_value-sum a b c d hb hc hd =
    let one : bit_or (a << 18) (b << 12) ≡ (a * 2 ^ 6 + b) << 12 =
      bit_or-fields 18 a (b << 12) (omega arith) ∙ omega arith in
    let two : bit_or ((a * 2 ^ 6 + b) << 12) (c << 6) ≡ (a * 2 ^ 12 + b * 2 ^ 6 + c) << 6 =
      bit_or-fields 12 (a * 2 ^ 6 + b) (c << 6) (omega arith) ∙ omega arith in
    rw (one, two) (bit_or-fields 6 (a * 2 ^ 12 + b * 2 ^ 6 + c) d (omega arith) ∙ omega arith)

-- The 24 bits of three bytes.
pub bits-sum :
    (x y z : ℕ)
    → y < 256
    → z < 256
    → bit_or (bit_or (x << 16) (y << 8)) z ≡ x * 2 ^ 16 + y * 2 ^ 8 + z
bits-sum x y z hy hz =
    let one : bit_or (x << 16) (y << 8) ≡ (x * 2 ^ 8 + y) << 8 =
      bit_or-fields 16 x (y << 8) (omega arith) ∙ omega arith in
    rw one (bit_or-fields 8 (x * 2 ^ 8 + y) z (omega arith) ∙ omega arith)

-- The four digits of 24 bits are those bits.
pub group_value-digits :
    (v : ℕ)
    → v < 2 ^ 24
    → group_value ((v >>> 18) % 64) ((v >>> 12) % 64) ((v >>> 6) % 64) (v % 64) ≡ v
group_value-digits v h =
    group_value-sum ((v >>> 18) % 64) ((v >>> 12) % 64) ((v >>> 6) % 64) (v % 64) (omega arith)
      (omega arith) (omega arith)
    ∙ omega arith
