-- ===== src/Session/Wire/Laws.antt =====
-- What is written is read back, and timestamps are ordered as the clock readings they hold.
use camex.Base.{
  ℕ, ◌+◌, ◌*◌, ◌/◌, ◌^◌, ◌<◌, ◌≡◌, refl, ap₂, ◌∙◌, List, [], ◌∷◌, ◌++◌, take, drop, ltb,
  if◌then◌else◌, bit_or, bit_or-fields, u8, u32, u64, ◌<<◌, ◌>>>◌, le_bytes, arith,
}
use camex.Session.Wire.{
  read_u32, write_u32, read_le64, read_le64_loop, write_le64, timestamp, timestamp_seconds,
  tai_label, memcmp, timestamp_cmp, Sign, less, same, more,
}

read_u32-sum :
    (a b c d : ℕ) (rest : List ℕ)
    → b < 256
    → c < 256
    → d < 256
    → read_u32 (a ∷ b ∷ c ∷ d ∷ rest) ≡ a * 2 ^ 24 + b * 2 ^ 16 + c * 2 ^ 8 + d
unfolding read_u32
read_u32-sum a b c d rest hb hc hd =
    let one : bit_or (a << 24) (b << 16) ≡ (a * 2 ^ 8 + b) << 16 =
      bit_or-fields 24 a (b << 16) (omega arith) ∙ omega arith in
    let two : bit_or ((a * 2 ^ 8 + b) << 16) (c << 8) ≡ (a * 2 ^ 16 + b * 2 ^ 8 + c) << 8 =
      bit_or-fields 16 (a * 2 ^ 8 + b) (c << 8) (omega arith) ∙ omega arith in
    rw (one, two) (bit_or-fields 8 (a * 2 ^ 16 + b * 2 ^ 8 + c) d (omega arith) ∙ omega arith)

-- A 32-bit number that is written in front of anything is read back.
pub read-write_u32 : (v : ℕ) (rest : List ℕ) → v < 2 ^ 32 → read_u32 (write_u32 v ++ rest) ≡ v
unfolding write_u32
read-write_u32 v rest h = omega (
  arith,
  read_u32-sum (u8 (v >>> 24)) (u8 (v >>> 16)) (u8 (v >>> 8)) (u8 v) rest (omega arith)
      (omega arith) (omega arith),
)

-- One round of the reader, on the digits above those of `x`.
le_round : (q x : ℕ) → x < 2 ^ 64 → q ≡ x / 256 → bit_or (u64 (q << 8)) (u8 x) ≡ x
le_round q x h e =
    let fits : u64 (q << 8) ≡ q << 8 = omega arith in
    rw fits (bit_or-fields 8 q (u8 x) (omega arith) ∙ omega arith)

-- A 64-bit counter that is written in front of anything is read back.
pub read-write_le64 : (v : ℕ) (rest : List ℕ) → v < 2 ^ 64 → read_le64 (write_le64 v ++ rest) ≡ v
unfolding read_le64 read_le64_loop write_le64 le_bytes
read-write_le64 v rest h =
    let low : bit_or (u64 ((v >>> 8) << 8)) (u8 (v >>> 0)) ≡ v >>> 0 =
      le_round (v >>> 8) (v >>> 0) (omega arith) (omega arith) in
    rw
      (
        le_round 0 (v >>> 56) (omega arith) (omega arith),
        le_round (v >>> 56) (v >>> 48) (omega arith) (omega arith),
        le_round (v >>> 48) (v >>> 40) (omega arith) (omega arith),
        le_round (v >>> 40) (v >>> 32) (omega arith) (omega arith),
        le_round (v >>> 32) (v >>> 24) (omega arith) (omega arith),
        le_round (v >>> 24) (v >>> 16) (omega arith) (omega arith),
        le_round (v >>> 16) (v >>> 8) (omega arith) (omega arith),
        low,
      )
      (omega arith)

drop-write_u32 : (v : ℕ) (rest : List ℕ) → drop 4 (write_u32 v ++ rest) ≡ rest
unfolding write_u32
drop-write_u32 v rest = refl

two_words :
    (hi lo : ℕ) (rest : List ℕ)
    → hi < 2 ^ 32
    → lo < 2 ^ 32
    → let ts = write_u32 hi ++ (write_u32 lo ++ rest) in
      bit_or (read_u32 ts << 32) (read_u32 (drop 4 ts)) ≡ hi * 2 ^ 32 + lo
two_words hi lo rest h l =
    rw
      (
        drop-write_u32 hi (write_u32 lo ++ rest),
        read-write_u32 hi (write_u32 lo ++ rest) h,
        read-write_u32 lo rest l,
      )
      (bit_or-fields 32 hi lo l)

-- A timestamp gives back the Unix seconds that it was made from.
pub timestamp_seconds-timestamp :
    (now nsec : ℕ) → now + tai_label < 2 ^ 64 → timestamp_seconds (timestamp now nsec) ≡ now
unfolding timestamp_seconds timestamp
timestamp_seconds-timestamp now nsec h =
    let sec = u64 (now + tai_label) in
    rw (two_words (u32 (sec >>> 32)) (u32 sec) (write_u32 nsec) (omega arith) (omega arith))
      (ground arith)

-- The sign of a comparison that looks at a second one only where the first finds no difference.
abbrev pub then_by : ℕ → ℕ → Sign → Sign
then_by a b rest = if ltb a b then less else if ltb b a then more else rest

-- Comparing the high part and then the low part compares the number.
by_bytes :
    (a b a' b' al bl : ℕ) (rest : Sign)
    → al < 256
    → bl < 256
    → a ≡ 256 * a' + al
    → b ≡ 256 * b' + bl
    → then_by a' b' (then_by al bl rest) ≡ then_by a b rest
by_bytes a b a' b' al bl rest hl hm ea eb = ground arith

by_words :
    (a b a' b' al bl : ℕ) (rest : Sign)
    → al < 2 ^ 32
    → bl < 2 ^ 32
    → a ≡ 2 ^ 32 * a' + al
    → b ≡ 2 ^ 32 * b' + bl
    → then_by a' b' (then_by al bl rest) ≡ then_by a b rest
by_words a b a' b' al bl rest hl hm ea eb = ground arith

then_by_offset : (a b k : ℕ) (rest : Sign) → then_by (a + k) (b + k) rest ≡ then_by a b rest
then_by_offset a b k rest = ground arith

memcmp-write_u32 :
    (a b : ℕ) (xs ys : List ℕ)
    → a < 2 ^ 32
    → b < 2 ^ 32
    → memcmp (write_u32 a ++ xs) (write_u32 b ++ ys) ≡ then_by a b (memcmp xs ys)
unfolding memcmp write_u32
memcmp-write_u32 a b xs ys ha hb =
    let rest = memcmp xs ys in
    let low = then_by (u8 a) (u8 b) rest in
    let mid = then_by (u8 (a >>> 8)) (u8 (b >>> 8)) low in
    by_bytes (a >>> 16) (b >>> 16) (u8 (a >>> 24)) (u8 (b >>> 24)) (u8 (a >>> 16)) (u8 (b >>> 16))
      mid (omega arith) (omega arith) (omega arith) (omega arith)
    ∙ (by_bytes (a >>> 8) (b >>> 8) (a >>> 16) (b >>> 16) (u8 (a >>> 8)) (u8 (b >>> 8)) low
          (omega arith) (omega arith) (omega arith) (omega arith)
        ∙ by_bytes a b (a >>> 8) (b >>> 8) (u8 a) (u8 b) rest (omega arith) (omega arith)
            (omega arith) (omega arith))

take_stamp :
    (a b c : ℕ)
    → take 12 (write_u32 a ++ (write_u32 b ++ write_u32 c))
      ≡ write_u32 a ++ (write_u32 b ++ (write_u32 c ++ []))
unfolding write_u32
take_stamp a b c = refl

-- `memcmp` of two timestamps orders them as the clock readings that they hold: by the seconds
-- first, then by the nanoseconds.
pub timestamp_cmp-timestamp :
    (s n s' n' : ℕ)
    → s + tai_label < 2 ^ 64
    → s' + tai_label < 2 ^ 64
    → n < 2 ^ 32
    → n' < 2 ^ 32
    → timestamp_cmp (timestamp s n) (timestamp s' n') ≡ then_by s s' (then_by n n' same)
unfolding timestamp_cmp timestamp memcmp
timestamp_cmp-timestamp s n s' n' hs hs' hn hn' =
    let x = u64 (s + tai_label) in
    let y = u64 (s' + tai_label) in
    rw
      (
        take_stamp (u32 (x >>> 32)) (u32 x) n,
        take_stamp (u32 (y >>> 32)) (u32 y) n',
        memcmp-write_u32 (u32 (x >>> 32)) (u32 (y >>> 32)) _ _ (omega arith) (omega arith),
        memcmp-write_u32 (u32 x) (u32 y) _ _ (omega arith) (omega arith),
        memcmp-write_u32 n n' [] [] hn hn',
      )
      (by_words x y (u32 (x >>> 32)) (u32 (y >>> 32)) (u32 x) (u32 y) (then_by n n' same)
          (omega arith) (omega arith) (omega arith) (omega arith)
        ∙ (ap₂ (λ i j. then_by i j (then_by n n' same)) (no_wrap s hs) (no_wrap s' hs')
            ∙ then_by_offset s s' tai_label (then_by n n' same)))
  where
    no_wrap : (k : ℕ) → k + tai_label < 2 ^ 64 → u64 (k + tai_label) ≡ k + tai_label
    no_wrap k h = omega arith
