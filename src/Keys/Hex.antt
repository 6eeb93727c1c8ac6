-- ===== src/Keys/Hex.antt =====
-- What is written in hexadecimal is read back.
use camex.Base.{
  ℕ, ◌+◌, ◌*◌, ◌%◌, ◌≤◌, ◌<◌, ◌≡◌, refl, ap, ◌∙◌, true, false, ◌||◌, some, List, [], ◌∷◌, length,
  get_or, ltb, ◌==◌, bit_and, bit_or, u8, ◌<<◌, ◌>>>◌, arith, IsBytes, bit_and-mask, bit_or-fields,
}
use camex.Keys.Text.{key_len, hex_value, hex_pairs, parse_hex_key, hex_digits, hex_encode, hex}
use camex.Keys.Digits.{all_below, all_below-at, same_value, same_value→eq}

hex_table : all_below 16 (λ n. same_value (hex_value (get_or hex n 0)) n) ≡ true
unfolding hex_value
hex_table = refl

hex_value-hex : (n : ℕ) → n < 16 → hex_value (get_or hex n 0) ≡ some n
hex_value-hex n h =
    same_value→eq (hex_value (get_or hex n 0)) n
      (all_below-at 16 (λ n. same_value (hex_value (get_or hex n 0)) n) n hex_table h)

hex_pairs-digits : (xs : List ℕ) → IsBytes xs → hex_pairs (hex_digits xs) ≡ some xs
unfolding hex_pairs hex_digits
hex_pairs-digits [] b = refl
hex_pairs-digits (x ∷ xs) (h, b) =
    let low : hex_value (get_or hex (bit_and x 15) 0) ≡ some (x % 16) =
      ap (λ n. hex_value (get_or hex n 0)) (bit_and-mask 4 x)
      ∙ hex_value-hex (x % 16) (omega arith) in
    let byte : u8 (bit_or ((x >>> 4) << 4) (x % 16)) ≡ x =
      ap u8 (bit_or-fields 4 (x >>> 4) (x % 16) (omega arith)) ∙ omega arith in
    rw (hex_value-hex (x >>> 4) (omega arith), low, hex_pairs-digits xs b)
      (ap (λ n. some (n ∷ xs)) byte)

length-hex_digits : (xs : List ℕ) → length (hex_digits xs) ≡ length xs * 2
unfolding hex_digits
length-hex_digits [] = omega arith
length-hex_digits (x ∷ xs) = omega (arith, length-hex_digits xs)

-- The hexadecimal text of a key, written into a large enough buffer, is parsed to the key.
pub parse_hex_key-hex_encode :
    (key : List ℕ) (out_size : ℕ)
    → IsBytes key
    → length key ≡ key_len
    → 65 ≤ out_size
    → parse_hex_key (hex_encode key out_size) ≡ some key
unfolding parse_hex_key hex_encode
parse_hex_key-hex_encode key out_size b len room =
    let fits : (out_size == 0 || ltb out_size (length key * 2 + 1)) ≡ false = ground arith in
    let whole : (length (hex_digits key) == 64) ≡ true = rw (length-hex_digits key, len) refl in
    rw (fits, whole) (hex_pairs-digits key b)
