-- ===== src/Keys/RoundTrip.antt =====
-- What is written as base64 is read back.
use camex.Base.{
  ℕ, ◌+◌, ◌*◌, ◌/◌, ◌%◌, ◌^◌, ◌≤◌, ◌<◌, ◌≡◌, refl, ap, ap₂, ◌∙◌, Bool, true, false, not, ◌||◌, none,
  some, List, [], ◌∷◌, ◌++◌, length, ltb, leb, ◌==◌, if◌then◌else◌, bit_or, u8, ◌<<◌, ◌>>>◌, arith,
  IsBytes, bit_or-fields, if_true,
}
use camex.Keys.Text.{
  key_len, of_key_len, encode_groups, key_base64_encode, Digit, digit, pad, store, group_value,
  decode_group, decode_groups, key_base64_decode, key_parse_b64, is_nil,
}
use camex.Keys.Digits.{value-char, padded_value-char, bits-sum, group_value-digits}

store-fits :
    (bs : List ℕ) (o size : ℕ) (xs : List ℕ)
    → o + length bs ≤ size
    → store bs o size (some xs) ≡ some (bs ++ xs)
store-fits [] o size xs h = refl
store-fits (b ∷ bs) o size xs h =
    let room : leb size o ≡ false = ground arith in
    rw (room, store-fits bs (o + 1) size xs (omega arith)) refl

abbrev digit_at : ℕ → ℕ → Digit
digit_at v k = digit ((v >>> k) % 64)

-- The bytes of 24 bits.
top-byte :
    (x y z v : ℕ) → v ≡ x * 2 ^ 16 + y * 2 ^ 8 + z → x < 256 → y < 256 → z < 256 → u8 (v >>> 16) ≡ x
top-byte x y z v e hx hy hz = omega arith

middle-byte : (x y z v : ℕ) → v ≡ x * 2 ^ 16 + y * 2 ^ 8 + z → y < 256 → z < 256 → u8 (v >>> 8) ≡ y
middle-byte x y z v e hy hz = omega arith

low-byte : (x y z v : ℕ) → v ≡ x * 2 ^ 16 + y * 2 ^ 8 + z → z < 256 → u8 v ≡ z
low-byte x y z v e hz = omega arith

-- A decoded group, when there is room for its bytes.
full_group :
    (x y z v o size : ℕ) (last : Bool) (xs : List ℕ)
    → v ≡ x * 2 ^ 16 + y * 2 ^ 8 + z
    → x < 256
    → y < 256
    → z < 256
    → o + 3 ≤ size
    → decode_group
        (digit_at v 18)
        (digit_at v 12)
        (digit_at v 6)
        (digit (v % 64))
        last
        o
        size
        (some xs)
      ≡ some (x ∷ y ∷ z ∷ xs)
full_group x y z v o size last xs e hx hy hz room =
    let bytes : (u8 (v >>> 16) ∷ u8 (v >>> 8) ∷ u8 v ∷ []) ≡ x ∷ y ∷ z ∷ [] =
      ap₂ ◌∷◌ (top-byte x y z v e hx hy hz)
        (ap₂ ◌∷◌ (middle-byte x y z v e hy hz) (ap (λ n. n ∷ []) (low-byte x y z v e hz))) in
    ap (λ g. store (u8 (g >>> 16) ∷ u8 (g >>> 8) ∷ u8 g ∷ []) o size (some xs))
      (group_value-digits v (omega arith))
    ∙ ap (λ (bs : List ℕ). store bs o size (some xs)) bytes
    ∙ (store-fits (x ∷ y ∷ z ∷ []) o size xs room)

two_byte_group :
    (x y v o size : ℕ)
    → v ≡ x * 2 ^ 16 + y * 2 ^ 8 + 0
    → x < 256
    → y < 256
    → o + 2 ≤ size
    → decode_group (digit_at v 18) (digit_at v 12) (digit_at v 6) pad true o size (some [])
      ≡ some (x ∷ y ∷ [])
two_byte_group x y v o size e hx hy room =
    let low : 0 ≡ v % 64 = omega arith in
    let bytes : (u8 (v >>> 16) ∷ u8 (v >>> 8) ∷ []) ≡ x ∷ y ∷ [] =
      ap₂ ◌∷◌ (top-byte x y 0 v e hx hy (omega arith))
        (ap (λ n. n ∷ []) (middle-byte x y 0 v e hy (omega arith))) in
    ap (λ g. store (u8 (g >>> 16) ∷ u8 (g >>> 8) ∷ []) o size (some []))
      (ap (λ n. group_value ((v >>> 18) % 64) ((v >>> 12) % 64) ((v >>> 6) % 64) n) low
        ∙ group_value-digits v (omega arith))
    ∙ ap (λ (bs : List ℕ). store bs o size (some [])) bytes
    ∙ (store-fits (x ∷ y ∷ []) o size [] room)

one_byte_group :
    (x v o size : ℕ)
    → v ≡ x * 2 ^ 16 + 0 * 2 ^ 8 + 0
    → x < 256
    → o + 1 ≤ size
    → decode_group (digit_at v 18) (digit_at v 12) pad pad true o size (some []) ≡ some (x ∷ [])
one_byte_group x v o size e hx room =
    let low : 0 ≡ v % 64 = omega arith in
    let next : 0 ≡ (v >>> 6) % 64 = omega arith in
    ap (λ g. store (u8 (g >>> 16) ∷ []) o size (some []))
      (ap₂ (λ m n. group_value ((v >>> 18) % 64) ((v >>> 12) % 64) m n) next low
        ∙ group_value-digits v (omega arith))
    ∙ rw (top-byte x 0 0 v e hx (omega arith) (omega arith)) (store-fits (x ∷ []) o size [] room)

-- Every group that was encoded is decoded.
decode-encode_groups :
    (xs : List ℕ) (o size : ℕ)
    → IsBytes xs
    → o + length xs ≤ size
    → decode_groups (encode_groups xs) o size ≡ some xs
unfolding encode_groups decode_groups
decode-encode_groups [] o size b room = refl
decode-encode_groups (x ∷ []) o size (hx, b) room =
    let v : ℕ = x << 16 in
    rw (value-char (v >>> 18), value-char (v >>> 12))
      (one_byte_group x v o size (omega arith) hx room)
decode-encode_groups (x ∷ y ∷ []) o size (hx, (hy, b)) room =
    let v : ℕ = bit_or (x << 16) (y << 8) in
    let e : v ≡ x * 2 ^ 16 + y * 2 ^ 8 + 0 =
      bit_or-fields 16 x (y << 8) (omega arith) ∙ omega arith in
    rw (value-char (v >>> 18), value-char (v >>> 12), padded_value-char (v >>> 6))
      (two_byte_group x y v o size e hx hy room)
decode-encode_groups (x ∷ y ∷ z ∷ more) o size (hx, (hy, (hz, b))) room =
    let v : ℕ = bit_or (bit_or (x << 16) (y << 8)) z in
    let ih = decode-encode_groups more (o + 3) size b (omega (arith, room)) in
    rw
      (
        value-char (v >>> 18),
        value-char (v >>> 12),
        padded_value-char (v >>> 6),
        padded_value-char v,
        ih,
      )
      (full_group x y z v o size (is_nil (encode_groups more)) more (bits-sum x y z hy hz) hx hy hz
        (omega (arith, room)))

length-encode_groups : (xs : List ℕ) → length (encode_groups xs) ≡ (length xs + 2) / 3 * 4
unfolding encode_groups
length-encode_groups [] = omega arith
length-encode_groups (x ∷ []) = omega arith
length-encode_groups (x ∷ y ∷ []) = omega arith
length-encode_groups (x ∷ y ∷ z ∷ more) = omega (arith, length-encode_groups more)

encoded-cases :
    (small : Bool) (xs text : List ℕ)
    → (if small then none else some xs) ≡ some text
    → (small ≡ false) × (text ≡ xs)
encoded-cases true xs text e = absurd (cc e)
encoded-cases false xs text e = (refl, cc e)

-- A key, or any other bytes, written as base64 into a large enough buffer and read back.
pub decode-encode :
    (xs text : List ℕ) (out_size size : ℕ)
    → IsBytes xs
    → 0 < length xs
    → length xs ≤ size
    → key_base64_encode xs out_size ≡ some text
    → key_base64_decode text size ≡ some xs
unfolding key_base64_encode key_base64_decode
decode-encode xs text out_size size b some_bytes room e =
    let full : (ltb out_size ((length xs + 2) / 3 * 4 + 1) ≡ false) × (text ≡ encode_groups xs) =
      encoded-cases (ltb out_size ((length xs + 2) / 3 * 4 + 1)) (encode_groups xs) text e in
    let good : (length (encode_groups xs) == 0 || not (length (encode_groups xs) % 4 == 0))
        ≡ false =
      rw (length-encode_groups xs) (ground arith) in
    rw (full.1, good) (decode-encode_groups xs 0 size b (omega (arith, room)))

-- The base64 text of a key is parsed to the key.
pub parse-encode :
    (key text : List ℕ) (out_size : ℕ)
    → IsBytes key
    → length key ≡ key_len
    → key_base64_encode key out_size ≡ some text
    → key_parse_b64 text ≡ some key
unfolding key_parse_b64
parse-encode key text out_size b len e =
    let whole : (length key == key_len) ≡ true = ground arith in
    ap of_key_len (decode-encode key text out_size 35 b (omega (arith, len)) (omega (arith, len)) e)
    ∙ if_true (length key == key_len) (some key) none whole
