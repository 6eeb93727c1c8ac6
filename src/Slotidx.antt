-- ===== src/Slotidx.antt =====
-- The hash index of src/slotidx.c: open addressing with linear probing. Whether `calloc` finds
-- memory is an argument.
pub mod Chain
pub mod Stored
pub mod Room
pub mod Entries
pub mod Growth
pub mod Insert
pub mod Find
pub mod Reset
pub mod Cover
pub mod Scan
use camex.Base.{
  ℕ, zero, suc, ◌+◌, ◌-◌, ◌*◌, ◌/◌, ◌%◌, Bool, true, false, not, ◌&&◌, ◌||◌, Option, none, some,
  List, [], ◌∷◌, map, get_or, set, replicate, ltb, leb, ◌==◌, if◌then◌else◌, bit_and, bit_xor, u32,
  ◌<<◌, ◌>>>◌,
}

abbrev pub min_buckets : ℕ
min_buckets = 16

-- `slotidx_t`
pub record Index : Type 0 where
  pub hash : List ℕ
  pub slot : List ℕ
  pub mask : ℕ
  pub used : ℕ

-- What `slotidx_free` leaves.
abbrev pub no_table : Index
no_table = record { hash = []; slot = []; mask = 0; used = 0 }

-- `while (n < entries * 2 && n < 0x40000000) n <<= 1`
unfoldable pub grow : ℕ → ℕ → ℕ → ℕ
grow zero n entries = n
grow (suc rounds) n entries =
    let next = grow rounds (u32 (n << 1)) entries in
    if ltb n (entries * 2) && ltb n 1073741824 then next else n

-- Doubling 16 thirty times passes the bound of the loop.
unfoldable pub buckets_for : ℕ → ℕ
buckets_for entries = grow 30 min_buckets entries

unfoldable pub alloc_table : Bool → ℕ → Option Index
alloc_table memory n =
    if memory
    then some (record { hash = replicate n 0; slot = replicate n 0; mask = n - 1; used = 0 })
    else none

-- The index after the call, and `none` for the index of a failed call, which is `no_table`.
unfoldable pub reset : Bool → Index → ℕ → Option Index
reset memory x entries =
    let n = buckets_for entries in
    if not (x.mask == 0) && x.mask + 1 == n
    then some (record x { hash = replicate n 0; slot = replicate n 0; used = 0 })
    else alloc_table memory n

-- Where the loop of `put` ends: at a bucket that is free, or at the entry itself.
pub data Place : Type 0 where
  empty : ℕ → Place
  there full : Place

abbrev pub next_bucket : Index → ℕ → ℕ
next_bucket x i = bit_and (u32 (i + 1)) x.mask

unfoldable pub place : ℕ → Index → ℕ → ℕ → ℕ → Place
place zero x h slot1 i = full
place (suc rounds) x h slot1 i =
    let later = place rounds x h slot1 (next_bucket x i) in
    if get_or x.slot i 0 == 0
    then empty i
    else if get_or x.slot i 0 == slot1 && get_or x.hash i 0 == h
    then there
    else later

abbrev pub store_at : Index → ℕ → ℕ → Place → Index
store_at x h slot1 there = x
store_at x h slot1 full = x
store_at x h slot1 (empty i) = record x {
  hash = set x.hash i h;
  slot = set x.slot i slot1;
  used = u32 (x.used + 1);
}

unfoldable pub put : Index → ℕ → ℕ → Index
put x h slot1 = store_at x h slot1 (place (x.mask + 1) x h slot1 (bit_and h x.mask))

-- `for (i = 0; i <= x->mask; ++i) if (x->slot[i] != 0) put(&bigger, ...)`, from bucket `i` on.
unfoldable pub rehash : ℕ → ℕ → Index → Index → Index
rehash zero i x bigger = bigger
rehash (suc rounds) i x bigger =
    rehash rounds (i + 1) x (
      if get_or x.slot i 0 == 0 then bigger else put bigger (get_or x.hash i 0) (get_or x.slot i 0))

abbrev pub rehashed : Index → Option Index → Option Index
rehashed x none = none
rehashed x (some bigger) =
    if x.mask == 0 then some bigger else some (rehash (x.mask + 1) 0 x bigger)

-- The index with room for one more entry, or `none` for the -1.
unfoldable pub with_room : Bool → Index → Option Index
with_room memory x =
    if x.mask == 0 || ltb (x.mask + 1) ((x.used + 1) * 2)
    then rehashed x (alloc_table memory (if x.mask == 0 then min_buckets else (x.mask + 1) * 2))
    else some x

abbrev pub put_into : ℕ → ℕ → Option Index → Option Index
put_into h slot none = none
put_into h slot (some x) = some (put x h (u32 (slot + 1)))

-- `none` for the -1, which leaves the index as it was.
unfoldable pub insert : Bool → Index → ℕ → ℕ → Option Index
insert memory x h slot = put_into h slot (with_room memory x)

unfoldable pub crowded : Index → ℕ → Bool
crowded x live = ltb (live * 2 + min_buckets) x.used

-- `best < 0 || slot < best`
abbrev pub improves : Option ℕ → ℕ → Bool
improves none slot = true
improves (some best) slot = ltb slot best

-- The loop of `slotidx_find`; `match` is the caller's function on its key.
unfoldable pub scan : (ℕ → Bool) → ℕ → Index → ℕ → ℕ → Option ℕ → Option ℕ
scan match zero x h i best = best
scan match (suc rounds) x h i best =
    let slot = get_or x.slot i 0 - 1 in
    let hit = get_or x.hash i 0 == h && improves best slot && match slot in
    let later = scan match rounds x h (next_bucket x i) (if hit then some slot else best) in
    if get_or x.slot i 0 == 0 then best else later

-- `none` for the -1.
unfoldable pub find : (ℕ → Bool) → Index → ℕ → Option ℕ
find match x h = if x.mask == 0 then none else scan match (x.mask + 1) x h (bit_and h x.mask) none

unfoldable pub hash_u32 : ℕ → ℕ
hash_u32 v =
    let v1 = bit_xor v (v >>> 16) in
    let v2 = u32 (v1 * 2246822507) in
    let v3 = bit_xor v2 (v2 >>> 13) in let v4 = u32 (v3 * 3266489909) in bit_xor v4 (v4 >>> 16)

-- FNV-1a, with the hash so far.
unfoldable pub fnv : List ℕ → ℕ → ℕ
fnv [] h = h
fnv (b ∷ bytes) h = fnv bytes (u32 (bit_xor h b * 16777619))

unfoldable pub hash_bytes : List ℕ → ℕ
hash_bytes bytes = hash_u32 (fnv bytes 2166136261)

-- `tolower` in the C locale.
abbrev pub to_lower : ℕ → ℕ
to_lower c = if leb 65 c && leb c 90 then c + 32 else c

-- Of the bytes of the text before its NUL; NULL counts as the empty text.
unfoldable pub hash_nocase : List ℕ → ℕ
hash_nocase text = hash_u32 (fnv (map to_lower text) 2166136261)
