-- ===== src/Util/Fields.antt =====
-- What is written is read back: integers and fields.
use camex.Base.{
  ℕ, suc, ◌+◌, ◌-◌, ◌^◌, ◌<◌, ◌≡◌, refl, sym, ap, ◌∙◌, Bool, true, false, ◌||◌, none, some, List,
  [], ◌∷◌, ◌++◌, length, drop, get_or, leb, ◌==◌, bit_or, bit_or-fields, u8, ◌<<◌, ◌>>>◌, arith,
  bytes_eq_refl, take-append_length, drop-append_length, length-append, if◌then◌else◌,
}
use camex.Util.{write_be64, read_be64, copy_option, token_value, append_control_field}

-- A 64-bit integer in network order is read back.
pub read-write_be64 : (v : ℕ) → v < 2 ^ 64 → read_be64 (write_be64 v) ≡ v
unfolding read_be64 write_be64
read-write_be64 v h =
    let s1 : bit_or (u8 (v >>> 56) << 56) (u8 (v >>> 48) << 48) ≡ (v >>> 48) << 48 =
      bit_or-fields 56 (u8 (v >>> 56)) (u8 (v >>> 48) << 48) (omega arith) ∙ omega arith in
    let s2 : bit_or ((v >>> 48) << 48) (u8 (v >>> 40) << 40) ≡ (v >>> 40) << 40 =
      bit_or-fields 48 (v >>> 48) (u8 (v >>> 40) << 40) (omega arith) ∙ omega arith in
    let s3 : bit_or ((v >>> 40) << 40) (u8 (v >>> 32) << 32) ≡ (v >>> 32) << 32 =
      bit_or-fields 40 (v >>> 40) (u8 (v >>> 32) << 32) (omega arith) ∙ omega arith in
    let s4 : bit_or ((v >>> 32) << 32) (u8 (v >>> 24) << 24) ≡ (v >>> 24) << 24 =
      bit_or-fields 32 (v >>> 32) (u8 (v >>> 24) << 24) (omega arith) ∙ omega arith in
    let s5 : bit_or ((v >>> 24) << 24) (u8 (v >>> 16) << 16) ≡ (v >>> 16) << 16 =
      bit_or-fields 24 (v >>> 24) (u8 (v >>> 16) << 16) (omega arith) ∙ omega arith in
    let s6 : bit_or ((v >>> 16) << 16) (u8 (v >>> 8) << 8) ≡ (v >>> 8) << 8 =
      bit_or-fields 16 (v >>> 16) (u8 (v >>> 8) << 8) (omega arith) ∙ omega arith in
    let s7 : bit_or ((v >>> 8) << 8) (u8 v) ≡ v =
      bit_or-fields 8 (v >>> 8) (u8 v) (omega arith) ∙ omega arith in
    rw (s1, s2, s3, s4, s5, s6, s7) refl

get_or-key : (key value : List ℕ) → get_or (key ++ (61 ∷ value)) (length key) 0 ≡ 61
get_or-key [] value = refl
get_or-key (k ∷ key) value = get_or-key key value

drop-key : (key value : List ℕ) → drop (length key + 1) (key ++ (61 ∷ value)) ≡ value
drop-key [] value = refl
drop-key (k ∷ key) value =
    let next : suc (length key + 1) ≡ suc (length key) + 1 = omega arith in
    sym (ap (λ n. drop n (k ∷ key ++ (61 ∷ value))) next) ∙ drop-key key value

copies :
    (value : List ℕ) (size : ℕ)
    → 0 < length value
    → length value < size
    → copy_option size value ≡ some value
unfolding copy_option
copies [] size h g = absurd (omega arith)
copies (x ∷ xs) size h g =
    let room : (size == 0 || false) ≡ false = ground arith in
    let fits : leb size (suc (length xs)) ≡ false = ground arith in rw (room, fits) refl

token_value-field :
    (key value : List ℕ) (size : ℕ)
    → 0 < length value
    → length value < size
    → token_value (key ++ (61 ∷ value)) key size ≡ some value
unfolding token_value
token_value-field key value size h g =
    let room : (size == 0) ≡ false = ground arith in
    rw
      (
        room,
        take-append_length (length key) key (61 ∷ value) refl,
        bytes_eq_refl key,
        get_or-key key value,
        drop-key key value,
      )
      (copies value size h g)

appended-cases :
    (full small : Bool) (xs ys : List ℕ)
    → (if full then none else if small then none else some xs) ≡ some ys
    → (full ≡ false) × (small ≡ false) × (ys ≡ xs)
appended-cases true small xs ys e = absurd (cc e)
appended-cases false true xs ys e = absurd (cc e)
appended-cases false false xs ys e = (refl, refl, cc e)

-- A field `key=value` that fits is read back from its token, whatever the buffer held before; the
-- buffer then holds the earlier text, the field and room for the NUL.
pub token_value-append :
    (buffer key value buffer' : List ℕ) (size value_size : ℕ)
    → 0 < length value
    → length value < value_size
    → append_control_field buffer size (key ++ (61 ∷ value)) ≡ some buffer'
    → (length buffer' < size)
      × (token_value (drop (length buffer) buffer') key value_size ≡ some value)
unfolding append_control_field
token_value-append buffer key value buffer' size value_size some_text room e =
    let text : List ℕ = key ++ (61 ∷ value) in
    let fit =
      appended-cases (leb size (length buffer)) (leb (size - length buffer) (length text))
        (buffer ++ text) buffer' e in
    rw (fit.2, drop-append_length (length buffer) buffer text refl)
      (
        ground (arith, fit.0, fit.1, length-append buffer text),
        token_value-field key value value_size some_text room,
      )
