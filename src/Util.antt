-- ===== src/Util.antt =====
-- Helpers of src/util.c: big-endian integers, fields of the control texts, IPv4 headers.
pub mod Fields
use camex.Base.{
  ℕ, zero, suc, ◌+◌, ◌-◌, ◌*◌, ◌/◌, ◌%◌, Bool, true, false, not, ◌&&◌, ◌||◌, Option, none, some,
  List, [], ◌∷◌, ◌++◌, length, take, drop, get_or, ltb, leb, ◌==◌, if◌then◌else◌, bit_and, bit_or,
  u8, ◌<<◌, ◌>>>◌, bytes_eq,
}

unfoldable pub write_be64 : ℕ → List ℕ
write_be64 v =
    u8 (v >>> 56)
    ∷ u8 (v >>> 48)
    ∷ u8 (v >>> 40)
    ∷ u8 (v >>> 32)
    ∷ u8 (v >>> 24)
    ∷ u8 (v >>> 16)
    ∷ u8 (v >>> 8)
    ∷ u8 v
    ∷ []

abbrev pub be_or : ℕ → ℕ → ℕ → ℕ → ℕ → ℕ → ℕ → ℕ → ℕ
be_or a b c d e f g h =
    bit_or
      (bit_or
        (bit_or
          (bit_or (bit_or (bit_or (bit_or (a << 56) (b << 48)) (c << 40)) (d << 32)) (e << 24))
          (f << 16))
        (g << 8))
      h

unfoldable pub read_be64 : List ℕ → ℕ
read_be64 p =
    be_or (get_or p 0 0) (get_or p 1 0) (get_or p 2 0) (get_or p 3 0) (get_or p 4 0) (get_or p 5 0)
      (get_or p 6 0) (get_or p 7 0)

abbrev pub is_empty : List ℕ → Bool
is_empty [] = true
is_empty (x ∷ xs) = false

-- The text in `dest`, or `none` for the -1.
unfoldable pub copy_option : ℕ → List ℕ → Option (List ℕ)
copy_option dest_size value =
    if dest_size == 0 || is_empty value
    then none
    else if leb dest_size (length value)
    then none
    else some value

-- '=' is 61; the character after the end of a text is NUL.
unfoldable pub token_value : List ℕ → List ℕ → ℕ → Option (List ℕ)
token_value token key value_size =
    let key_len = length key in
    if value_size == 0
    then none
    else if not (bytes_eq (take key_len token) key) || not (get_or token key_len 0 == 61)
    then none
    else copy_option value_size (drop (key_len + 1) token)

-- `buffer` is the text up to `*offset`, `text` what `vsnprintf` makes of the format; the text up to
-- the new offset, or `none` for the -1.
unfoldable pub append_control_field : List ℕ → ℕ → List ℕ → Option (List ℕ)
append_control_field buffer size text =
    if leb size (length buffer)
    then none
    else if leb (size - length buffer) (length text)
    then none
    else some (buffer ++ text)

unfoldable pub is_zero_key : ℕ → List ℕ → Bool
is_zero_key zero key = true
is_zero_key (suc rounds) key =
    let rest = is_zero_key rounds (drop 1 key) in if get_or key 0 0 == 0 then rest else false

-- The source and the destination, as their four bytes.
unfoldable pub ipv4_parse_endpoints : List ℕ → Option (List ℕ × List ℕ)
ipv4_parse_endpoints packet =
    let version = get_or packet 0 0 >>> 4 in
    let ihl = bit_and (get_or packet 0 0) 15 in
    if ltb (length packet) 20
    then none
    else if not (version == 4) || ltb ihl 5 || ltb (length packet) (ihl * 4)
    then none
    else some (take 4 (drop 12 packet), take 4 (drop 16 packet))
