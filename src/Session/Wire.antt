-- ===== src/Session/Wire.antt =====
-- Integers on the wire, packet types and timestamps of src/session.c.
pub mod Laws
use camex.Base.{
  ℕ, zero, suc, ◌+◌, ◌-◌, ◌*◌, ◌/◌, ◌%◌, ◌^◌, ◌≡◌, Bool, true, false, ◌&&◌, ◌||◌, not, Option, none,
  some, List, [], ◌∷◌, ◌++◌, length, take, drop, get_or, ltb, leb, ◌==◌, if◌then◌else◌, bit_or, u8,
  u32, u64, ◌<<◌, ◌>>>◌, bytes_eq, le_bytes, codes,
}
use camex.Noise.Handshake.{msg1_overhead, msg2_overhead}
use camex.Noise.Cipher.{tag_len}

-- `CAMEX_MAGIC`
abbrev pub magic : List ℕ
magic = codes "CXv2"

abbrev pub type_init : ℕ
type_init = 1

abbrev pub type_resp : ℕ
type_resp = 2

abbrev pub type_data : ℕ
type_data = 3

abbrev pub init_hdr : ℕ
init_hdr = 9

abbrev pub mac_len : ℕ
mac_len = 16

abbrev pub resp_hdr : ℕ
resp_hdr = 13

abbrev pub data_hdr : ℕ
data_hdr = 17

-- `V2_OVERHEAD`
abbrev pub overhead : ℕ
overhead = data_hdr + tag_len

abbrev pub timestamp_len : ℕ
timestamp_len = 12

-- `p[i]` of a buffer that is long enough
abbrev pub byte_at : List ℕ → ℕ → ℕ
byte_at p i = get_or p i 0

unfoldable pub read_u32 : List ℕ → ℕ
read_u32 p =
    bit_or (bit_or (bit_or (byte_at p 0 << 24) (byte_at p 1 << 16)) (byte_at p 2 << 8))
      (byte_at p 3)

unfoldable pub write_u32 : ℕ → List ℕ
write_u32 v = u8 (v >>> 24) ∷ u8 (v >>> 16) ∷ u8 (v >>> 8) ∷ u8 v ∷ []

-- `for (i = 7; i >= 0; --i) v = (v << 8) | p[i]`, with `rounds` = i + 1 left.
unfoldable pub read_le64_loop : ℕ → List ℕ → ℕ → ℕ
read_le64_loop zero p v = v
read_le64_loop (suc i) p v = read_le64_loop i p (bit_or (u64 (v << 8)) (byte_at p i))

unfoldable pub read_le64 : List ℕ → ℕ
read_le64 p = read_le64_loop 8 p 0

unfoldable pub write_le64 : ℕ → List ℕ
write_le64 v = le_bytes 8 0 v

-- The type of a packet, or 0 if it is not one. `pkt` is the buffer of `len` bytes.
unfoldable pub packet_type : List ℕ → ℕ
packet_type pkt =
    let len = length pkt in
    let t = byte_at pkt 4 in
    if ltb len 5 || not (bytes_eq (take 4 pkt) magic)
    then 0
    else if t == type_init
    then (if leb (init_hdr + msg1_overhead + timestamp_len + mac_len) len then type_init else 0)
    else if t == type_resp
    then (if leb (resp_hdr + msg2_overhead) len then type_resp else 0)
    else if t == type_data
    then (if leb overhead len then type_data else 0)
    else 0

unfoldable pub data_receiver : List ℕ → ℕ
data_receiver pkt = read_u32 (drop 5 pkt)

-- The label of TAI64, with the offset of 10 seconds.
abbrev pub tai_label : ℕ
tai_label = 0x4000_0000_0000_000a

-- The end of `v2_timestamp`; what it reads from the clock, in seconds and nanoseconds, is an argument.
unfoldable pub timestamp : ℕ → ℕ → List ℕ
timestamp now nsec =
    let sec = u64 (now + tai_label) in
    write_u32 (u32 (sec >>> 32)) ++ (write_u32 (u32 sec) ++ write_u32 nsec)

unfoldable pub timestamp_seconds : List ℕ → ℕ
timestamp_seconds ts =
    let sec = bit_or (read_u32 ts << 32) (read_u32 (drop 4 ts)) in
    if leb tai_label sec then sec - tai_label else 0

-- The sign of `memcmp`: less, equal or greater.
pub data Sign : Type 0 where
  less same more : Sign

unfoldable pub memcmp : List ℕ → List ℕ → Sign
memcmp [] ys = same
memcmp (x ∷ xs) [] = same
memcmp (x ∷ xs) (y ∷ ys) = if ltb x y then less else if ltb y x then more else memcmp xs ys

unfoldable pub timestamp_cmp : List ℕ → List ℕ → Sign
timestamp_cmp a b = memcmp (take timestamp_len a) (take timestamp_len b)
