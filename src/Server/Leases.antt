-- ===== src/Server/Leases.antt =====
-- The leases of src/server.c: addresses kept for clients that are gone. The clock, what `calloc` and
-- `realloc` find and the configured pool are arguments.
pub mod Indexed
pub mod Rebuild
pub mod Lookup
pub mod Added
pub mod Room
pub mod Ledger
pub mod Clear
pub mod Written
pub mod Keep
pub mod Start
pub mod Add
use camex.Base.{
  ℕ, zero, suc, ◌+◌, ◌-◌, ◌*◌, ◌^◌, ◌%◌, Bool, true, false, not, ◌&&◌, ◌||◌, Option, none, some,
  List, [], ◌∷◌, ◌++◌, map, length, take, get_or, set, replicate, ltb, leb, ◌==◌, if◌then◌else◌,
  u64, bytes_eq,
}
use camex.Slotidx.{Index, no_table, reset, insert, crowded, find, hash_u32, hash_nocase, to_lower}
use camex.Slotidx.Scan.{first_match}
use camex.Server.Pool.{Pool, pool_size}

-- The longest client ID, `CAMEX_CLIENT_ID_LEN - 1`.
abbrev pub id_max : ℕ
id_max = 31

abbrev pub lease_max : ℕ
lease_max = 1048576

-- `strcasecmp(a, b) == 0`
unfoldable pub same_name : List ℕ → List ℕ → Bool
same_name a b = bytes_eq (map to_lower a) (map to_lower b)

-- `server_lease_t`
pub record Lease : Type 0 where
  pub id : List ℕ
  pub ip : ℕ
  pub since : ℕ
  pub prev : Bool

abbrev pub no_lease : Lease
no_lease = record { id = []; ip = 0; since = 0; prev = false }

-- The static variables of the leases; `server_lease_cap` is the length of the table.
pub record Leases : Type 0 where
  pub table : List Lease
  pub used : ℕ
  pub cursor : ℕ
  pub by_ip : Index
  pub by_id : Index
  pub idx_ok : Bool

abbrev pub lease_at : Leases → ℕ → Lease
lease_at s i = get_or s.table i no_lease

abbrev pub cap : Leases → ℕ
cap s = length s.table

-- `g_now`, what `time` returns, and `server_client_timeout()`, in seconds.
pub record Clock : Type 0 where
  pub now : ℕ
  pub time : ℕ
  pub timeout : ℕ

abbrev pub lease_min : Clock → ℕ
lease_min c = 600 + c.timeout

-- `difftime(g_now, since) < (double)SERVER_LEASE_MIN`
abbrev pub young : Clock → ℕ → Bool
young c since = ltb c.now (since + lease_min c)

-- What the allocations of one call find, each by its number in the order of the code.
abbrev pub Memory : Type 0
Memory = ℕ → Bool

unfoldable pub match_lease_ip : Leases → ℕ → ℕ → Bool
match_lease_ip s ip slot = not (ip == 0) && ltb slot (cap s) && (lease_at s slot).ip == ip

unfoldable pub match_lease_id : Leases → List ℕ → ℕ → Bool
match_lease_id s id slot =
    let l = lease_at s slot in
    ltb slot (cap s) && not (l.ip == 0) && not l.prev && same_name l.id id

-- One turn of the loop of `server_lease_index_rebuild`.
abbrev pub entered_id : Leases → Option Index → Leases
entered_id s none = record s { idx_ok = false }
entered_id s (some y) = record s { by_id = y }

abbrev pub entered_ip : Memory → ℕ → Leases → Option Index → Leases
entered_ip memory i s none = record s { idx_ok = false }
entered_ip memory i s (some x) =
    entered_id (record s { by_ip = x })
      (insert (memory (6 + 2 * i)) s.by_id (hash_nocase (lease_at s i).id) i)

abbrev pub enter_lease : Memory → ℕ → Leases → Leases
enter_lease memory i s =
    if (lease_at s i).ip == 0
    then s
    else entered_ip memory i s (insert (memory (5 + 2 * i)) s.by_ip (hash_u32 (lease_at s i).ip) i)

unfoldable pub enter_all : Memory → ℕ → ℕ → Leases → Leases
enter_all memory zero i s = s
enter_all memory (suc rounds) i s =
    let next = enter_all memory rounds (i + 1) (enter_lease memory i s) in
    if s.idx_ok then next else s

abbrev pub rebuilt_id : Memory → Leases → Option Index → Leases
rebuilt_id memory s none = record s { by_id = no_table; idx_ok = false }
rebuilt_id memory s (some y) = enter_all memory (cap s) 0 (record s { by_id = y; idx_ok = true })

abbrev pub rebuilt_ip : Memory → Leases → Option Index → Leases
rebuilt_ip memory s none = record s { by_ip = no_table; idx_ok = false }
rebuilt_ip memory s (some x) =
    rebuilt_id memory (record s { by_ip = x }) (reset (memory 4) s.by_id (cap s))

unfoldable pub lease_index_rebuild : Memory → Leases → Leases
lease_index_rebuild memory s = rebuilt_ip memory s (reset (memory 3) s.by_ip (cap s))

-- The slot of the lease, and `none` for NULL.
unfoldable pub lease_by_ip : Leases → ℕ → Option ℕ
lease_by_ip s ip =
    let match = match_lease_ip s ip in
    if ip == 0
    then none
    else if s.idx_ok
    then find match s.by_ip (hash_u32 ip)
    else first_match match (cap s) 0

abbrev pub is_empty : List ℕ → Bool
is_empty [] = true
is_empty (c ∷ text) = false

-- An ID is [] where the code has NULL or the empty text.
unfoldable pub lease_by_id : Leases → List ℕ → Option ℕ
lease_by_id s id =
    let match = match_lease_id s id in
    if is_empty id
    then none
    else if s.idx_ok
    then find match s.by_id (hash_nocase id)
    else first_match match (cap s) 0

unfoldable pub lease_drop : Option ℕ → Leases → Leases
lease_drop none s = s
lease_drop (some k) s =
    if (lease_at s k).ip == 0
    then s
    else record s { table = set s.table k no_lease; used = u64 (s.used + (2 ^ 64 - 1)) }

-- `none` stands for a NULL ID.
abbrev pub allowed : Leases → Option (List ℕ) → Option ℕ → Bool
allowed s id none = true
allowed s none (some k) = false
allowed s (some id) (some k) = same_name (lease_at s k).id id

unfoldable pub lease_allows : Leases → ℕ → Option (List ℕ) → Bool
lease_allows s ip id = allowed s id (lease_by_ip s ip)

-- The free slot from the cursor on.
unfoldable pub free_slot : ℕ → ℕ → Leases → Option ℕ
free_slot zero i s = none
free_slot (suc rounds) i s =
    let k = (s.cursor + i) % cap s in
    let later = free_slot rounds (i + 1) s in if (lease_at s k).ip == 0 then some k else later

abbrev pub older : List Lease → ℕ → Option ℕ → Bool
older table i none = true
older table i (some k) = ltb (get_or table i no_lease).since (get_or table k no_lease).since

unfoldable pub oldest : ℕ → ℕ → List Lease → Option ℕ → Option ℕ
oldest zero i table l = l
oldest (suc rounds) i table l = oldest rounds (i + 1) table (if older table i l then some i else l)

-- Where the new lease goes, with the cursor after the search.
pub record Chosen : Type 0 where
  pub leases : Leases
  pub slot : ℕ

abbrev pub slot_or : Option ℕ → ℕ
slot_or none = 0
slot_or (some k) = k

abbrev pub chosen_slot : Leases → Option ℕ → Chosen
chosen_slot s none = record { leases = s; slot = slot_or (oldest (cap s) 0 s.table none) }
chosen_slot s (some k) = record { leases = record s { cursor = (k + 1) % cap s }; slot = k }

unfoldable pub choose : Leases → Chosen
choose s = chosen_slot s (if ltb s.used (cap s) then free_slot (cap s) 0 s else none)
