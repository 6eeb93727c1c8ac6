-- ===== src/Keys/Text.antt =====
-- `key_base64_encode`, `key_base64_decode`, `key_parse_b64` and `parse_hex_key` of src/keys.c, and
-- `hex_encode` of src/util.c. What a failing call leaves in its output buffer is not modelled: the
-- callers do not read it.
use camex.Base.{
  ℕ, ◌+◌, ◌-◌, ◌*◌, ◌/◌, ◌%◌, Bool, true, false, not, ◌&&◌, ◌||◌, Option, none, some, List, [], ◌∷◌,
  length, get_or, ltb, leb, ◌==◌, if◌then◌else◌, bit_and, bit_or, u8, ◌<<◌, ◌>>>◌, codes,
}

abbrev pub key_len : ℕ
key_len = 32

abbrev pub b64_chars : List ℕ
b64_chars = codes "ABCDEFGHIJKLMNOPQRSTUVWXYZabcdefghijklmnopqrstuvwxyz0123456789+/"

-- '='
abbrev pub pad_char : ℕ
pad_char = 61

abbrev pub b64_char : ℕ → ℕ
b64_char v = get_or b64_chars (bit_and v 63) 0

-- The loop's groups of three bytes, the last one short.
unfoldable pub encode_groups : List ℕ → List ℕ
encode_groups [] = []
encode_groups (x ∷ []) =
    let v = x << 16 in b64_char (v >>> 18) ∷ b64_char (v >>> 12) ∷ pad_char ∷ pad_char ∷ []
encode_groups (x ∷ y ∷ []) =
    let v = bit_or (x << 16) (y << 8) in
    b64_char (v >>> 18) ∷ b64_char (v >>> 12) ∷ b64_char (v >>> 6) ∷ pad_char ∷ []
encode_groups (x ∷ y ∷ z ∷ more) =
    let v = bit_or (bit_or (x << 16) (y << 8)) z in
    b64_char (v >>> 18) ∷ b64_char (v >>> 12) ∷ b64_char (v >>> 6) ∷ b64_char v ∷ encode_groups more

-- The text, or `none` for the return value 0 of a buffer that is too small.
unfoldable pub key_base64_encode : List ℕ → ℕ → Option (List ℕ)
key_base64_encode xs out_size =
    if ltb out_size ((length xs + 2) / 3 * 4 + 1) then none else some (encode_groups xs)

-- `strchr(b64_chars, c) - b64_chars`
abbrev pub index_from : ℕ → List ℕ → ℕ → Option ℕ
index_from i [] c = none
index_from i (x ∷ xs) c = if x == c then some i else index_from (i + 1) xs c

-- The value of a character: -1 is `bad`, -2 is `pad`.
pub data Digit : Type 0 where
  digit : ℕ → Digit
  pad bad : Digit

unfoldable pub b64_value : ℕ → Digit
b64_value c =
    if c == 0 then bad else elim (index_from 0 b64_chars c) [ none ↦ bad | some v ↦ digit v ]

-- `(in[i] == '=') ? -2 : b64_value(in[i])`
abbrev pub padded_value : ℕ → Digit
padded_value c = if c == pad_char then pad else b64_value c

-- The stores of a group, each under `o >= out_size`; then the later groups.
abbrev pub store : List ℕ → ℕ → ℕ → Option (List ℕ) → Option (List ℕ)
store [] o out_size later = later
store (b ∷ bs) o out_size later =
    if leb out_size o
    then none
    else elim (store bs (o + 1) out_size later) [ none ↦ none | some xs ↦ some (b ∷ xs) ]

abbrev pub group_value : ℕ → ℕ → ℕ → ℕ → ℕ
group_value a b c d = bit_or (bit_or (bit_or (a << 18) (b << 12)) (c << 6)) d

-- One group of four characters; `last` is `i + 4U == len`.
abbrev pub decode_group :
    Digit → Digit → Digit → Digit → Bool → ℕ → ℕ → Option (List ℕ) → Option (List ℕ)
decode_group (digit a) (digit b) (digit c) (digit d) last o size later =
    let v = group_value a b c d in store (u8 (v >>> 16) ∷ u8 (v >>> 8) ∷ u8 v ∷ []) o size later
decode_group (digit a) (digit b) (digit c) pad true o size later =
    let v = group_value a b c 0 in store (u8 (v >>> 16) ∷ u8 (v >>> 8) ∷ []) o size later
decode_group (digit a) (digit b) pad pad true o size later =
    let v = group_value a b 0 0 in store (u8 (v >>> 16) ∷ []) o size later
decode_group x y z w last o size later = none

-- How many bytes a group stores.
abbrev pub group_size : Digit → Digit → ℕ
group_size (digit c) (digit d) = 3
group_size (digit c) pad = 2
group_size (digit c) bad = 2
group_size pad d = 1
group_size bad d = 1

abbrev pub is_nil : List ℕ → Bool
is_nil [] = true
is_nil (x ∷ xs) = false

unfoldable pub decode_groups : List ℕ → ℕ → ℕ → Option (List ℕ)
decode_groups [] o size = some []
decode_groups (x ∷ []) o size = none
decode_groups (x ∷ y ∷ []) o size = none
decode_groups (x ∷ y ∷ z ∷ []) o size = none
decode_groups (x ∷ y ∷ z ∷ w ∷ more) o size =
    let c = padded_value z in
    let d = padded_value w in
    decode_group (b64_value x) (b64_value y) c d (is_nil more) o size
      (decode_groups more (o + group_size c d) size)

-- The bytes, or `none` for -1.
unfoldable pub key_base64_decode : List ℕ → ℕ → Option (List ℕ)
key_base64_decode text out_size =
    if length text == 0 || not (length text % 4 == 0) then none else decode_groups text 0 out_size

abbrev pub of_key_len : Option (List ℕ) → Option (List ℕ)
of_key_len none = none
of_key_len (some key) = if length key == key_len then some key else none

unfoldable pub key_parse_b64 : List ℕ → Option (List ℕ)
key_parse_b64 text = of_key_len (key_base64_decode text (key_len + 3))

abbrev pub between : ℕ → ℕ → ℕ → Bool
between lo c hi = leb lo c && leb c hi

-- '0' is 48, 'a' is 97 and 'A' is 65.
unfoldable pub hex_value : ℕ → Option ℕ
hex_value c =
    if between 48 c 57
    then some (c - 48)
    else if between 97 c 102
    then some (c - 97 + 10)
    else if between 65 c 70
    then some (c - 65 + 10)
    else none

abbrev pub hex_byte : Option ℕ → Option ℕ → Option (List ℕ) → Option (List ℕ)
hex_byte (some hi) (some lo) (some key) = some (u8 (bit_or (hi << 4) lo) ∷ key)
hex_byte (some hi) (some lo) none = none
hex_byte (some hi) none later = none
hex_byte none lo later = none

unfoldable pub hex_pairs : List ℕ → Option (List ℕ)
hex_pairs [] = some []
hex_pairs (x ∷ []) = none
hex_pairs (x ∷ y ∷ more) = hex_byte (hex_value x) (hex_value y) (hex_pairs more)

unfoldable pub parse_hex_key : List ℕ → Option (List ℕ)
parse_hex_key text = if length text == key_len * 2 then hex_pairs text else none

abbrev pub hex : List ℕ
hex = codes "0123456789abcdef"

unfoldable pub hex_digits : List ℕ → List ℕ
hex_digits [] = []
hex_digits (x ∷ xs) = get_or hex (x >>> 4) 0 ∷ get_or hex (bit_and x 15) 0 ∷ hex_digits xs

-- The text in the buffer; a text that does not fit leaves an empty one.
unfoldable pub hex_encode : List ℕ → ℕ → List ℕ
hex_encode xs out_size =
    if out_size == 0 || ltb out_size (length xs * 2 + 1) then [] else hex_digits xs
