-- ===== src/Session/Replay/Digits.antt =====
-- What the window's loops do to one digit of the ring.
use camex.Base.{
  ℕ, zero, suc, ◌+◌, ◌/◌, ◌%◌, ◌^◌, ◌≤◌, ◌<◌, ◌≡◌, ◌≢◌, refl, sym, ap, ◌∙◌, List, length, get_or,
  set, arith, bit_and, bit_or, bit_and-mask, u64, ◌<<◌, ◌>>>◌, test_bit, shift-test_bit, length-set,
  get_or-set_self, get_or-set_ne, get_or-set_default, test_bit-or_self, test_bit-or_ne, ℕ_discrete,
}
use native.Mathlib.Nat.{pow-le-pow_right}
use camex.Session.Replay.{Window, words, word_bits, clear, mark}

-- The digit of counter `n` in the ring.
abbrev pub digit : List ℕ → ℕ → ℕ
digit bits n = test_bit (get_or bits (n / word_bits % words) 0) (n % word_bits)

pub length-clear : (k w : ℕ) (bits : List ℕ) → length (clear k w bits) ≡ length bits
unfolding clear
length-clear zero w bits = refl
length-clear (suc k) w bits =
    length-clear k (w + 1) (set bits (w % words) 0) ∙ length-set bits (w % words) 0

clear-zero :
    (k w : ℕ) (bits : List ℕ) (j : ℕ) → get_or bits j 0 ≡ 0 → get_or (clear k w bits) j 0 ≡ 0
unfolding clear
clear-zero zero w bits j h = h
clear-zero (suc k) w bits j h =
    clear-zero k (w + 1) (set bits (w % words) 0) j (get_or-set_default bits (w % words) j 0 h)

-- Every word that the window moves over is cleared.
pub clear-hit :
    (k w : ℕ) (bits : List ℕ) (j : ℕ)
    → length bits ≡ words
    → w ≤ j
    → j < w + k
    → get_or (clear k w bits) (j % words) 0 ≡ 0
unfolding clear
clear-hit zero w bits j l h g = absurd (omega arith)
clear-hit (suc k) w bits j l h g = elim (ℕ_discrete w j) [
  | yes e ↦
      clear-zero k (w + 1) (set bits (w % words) 0) (j % words)
        (rw (sym e) (get_or-set_self bits (w % words) 0 0 (omega arith)))
  | no e ↦
      clear-hit k (w + 1) (set bits (w % words) 0) j (length-set bits (w % words) 0 ∙ l)
        (omega arith) (omega arith)
]

-- A word that no cleared one shares its place with is kept.
pub clear-miss :
    (k w : ℕ) (bits : List ℕ) (j : ℕ)
    → j < w
    → w + k ≤ j + words
    → get_or (clear k w bits) (j % words) 0 ≡ get_or bits (j % words) 0
unfolding clear
clear-miss zero w bits j h g = refl
clear-miss (suc k) w bits j h g =
    clear-miss k (w + 1) (set bits (w % words) 0) j (omega arith) (omega arith)
    ∙ get_or-set_ne bits (w % words) (j % words) 0 0 (omega arith)

-- The test of `replay_check` reads the digit.
pub check-digit :
    (bits : List ℕ) (n : ℕ)
    → bit_and (get_or bits (n / word_bits % words) 0 >>> (n % word_bits)) 1 ≡ digit bits n
check-digit bits n =
    bit_and-mask 1 (get_or bits (n / word_bits % words) 0 >>> (n % word_bits))
    ∙ shift-test_bit (get_or bits (n / word_bits % words) 0) (n % word_bits)

one_bit : (k : ℕ) → k < word_bits → u64 (1 << k) ≡ 2 ^ k
one_bit k h =
    let small : 2 ^ k ≤ 2 ^ 63 =
      pow-le-pow_right {n = 2} (omega arith) {i = k} {j = 63} (omega arith) in
    omega arith

-- `mark` sets the digit of `n`.
pub digit-mark_self : (r : Window) (n : ℕ) → length r.bits ≡ words → digit (mark r n).bits n ≡ 1
unfolding mark
digit-mark_self r n l =
    let i = n / word_bits % words in
    rw
      (
        get_or-set_self r.bits i (bit_or (get_or r.bits i 0) (u64 (1 << (n % word_bits)))) 0
            (omega arith),
        one_bit (n % word_bits) (omega arith),
      )
      (test_bit-or_self (get_or r.bits i 0) (n % word_bits))

-- It keeps the digit of every other counter of the same window.
pub digit-mark_ne :
    (r : Window) (n m : ℕ)
    → length r.bits ≡ words
    → n ≢ m
    → m / word_bits < n / word_bits + words
    → n / word_bits < m / word_bits + words
    → digit (mark r n).bits m ≡ digit r.bits m
unfolding mark
digit-mark_ne r n m l ne up down =
    let i = n / word_bits % words in
    let v = bit_or (get_or r.bits i 0) (u64 (1 << (n % word_bits))) in
    elim (ℕ_discrete (n / word_bits) (m / word_bits)) [
      | yes e ↦
          let same : m / word_bits % words ≡ i = ap (λ k. k % words) (sym e) in
          rw
            (
              same,
              get_or-set_self r.bits i v 0 (omega arith),
              one_bit (n % word_bits) (omega arith),
            )
            (test_bit-or_ne (get_or r.bits i 0) (n % word_bits) (m % word_bits) (omega arith))
      | no e ↦ rw (get_or-set_ne r.bits i (m / word_bits % words) v 0 (omega arith))
    ]
