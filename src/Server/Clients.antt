-- ===== src/Server/Clients.antt =====
-- The table of clients of src/server.c and its three indexes. A pointer to an entry is the number of its
-- slot; what the allocations of a call find is an argument.
pub mod Indexed
pub mod Rebuild
pub mod Resets
pub mod Add
pub mod Added
pub mod Find
pub mod Scan
pub mod Set
pub mod Keys
pub mod Kept
pub mod Ended
pub mod Named
use camex.Base.{
  replicate, ℕ, zero, suc, ◌+◌, ◌*◌, ◌%◌, Bool, true, false, not, ◌&&◌, ◌||◌, Option, none, some,
  List, [], ◌∷◌, ◌++◌, length, take, get_or, set, ltb, leb, ◌==◌, if◌then◌else◌, bytes_eq, le_bytes,
}
use camex.Session.Transport.{Session, wiped}
use camex.Slotidx.{Index, no_table, reset, insert, crowded, find, hash_u32, hash_bytes, hash_nocase}
use camex.Slotidx.Scan.{first_match}
use camex.Server.Leases.{Memory, is_empty, same_name, id_max}

-- `struct sockaddr_in`
pub record Addr : Type 0 where
  pub family : ℕ
  pub port : ℕ
  pub ip : ℕ

abbrev pub no_addr : Addr
no_addr = record { family = 0; port = 0; ip = 0 }

-- `net_sockaddr_equal`
unfoldable pub sockaddr_equal : Addr → Addr → Bool
sockaddr_equal a b = a.family == b.family && a.port == b.port && a.ip == b.ip

unfoldable pub hash_addr : Addr → ℕ
hash_addr a = hash_bytes (le_bytes 4 0 a.ip ++ le_bytes 2 0 a.port)

unfoldable pub addr_is_set : Addr → Bool
addr_is_set a = not (a.ip == 0) || not (a.port == 0)

-- `server_client_t`, without the fields of the handshake budget and of the log, the counters of
-- handshakes and the state of the frame reader. `tcp_fd` is `none` for -1.
pub record Client : Type 0 where
  pub addr : Addr
  pub ip : ℕ
  pub pending_ip : ℕ
  pub prev_ip : ℕ
  pub last_seen : ℕ
  pub last_data : ℕ
  pub id : List ℕ
  pub active : Bool
  pub registered : Bool
  pub auto_client : Bool
  pub connected_at : ℕ
  pub tcp_fd : Option ℕ
  pub psk_key : List ℕ
  pub rx_packets : ℕ
  pub rx_bytes : ℕ
  pub tx_packets : ℕ
  pub tx_bytes : ℕ
  pub isolation_drops : ℕ
  pub cur : Session
  pub next : Session
  pub prev : Session
  pub prev_until : ℕ

-- All bytes zero, and `tcp_fd = -1`.
abbrev pub no_client : Client
no_client = record {
  addr = no_addr;
  ip = 0;
  pending_ip = 0;
  prev_ip = 0;
  last_seen = 0;
  last_data = 0;
  id = [];
  active = false;
  registered = false;
  auto_client = false;
  connected_at = 0;
  tcp_fd = none;
  psk_key = replicate 32 0;
  rx_packets = 0;
  rx_bytes = 0;
  tx_packets = 0;
  tx_bytes = 0;
  isolation_drops = 0;
  cur = wiped;
  next = wiped;
  prev = wiped;
  prev_until = 0;
}

-- `idx_ip`, `idx_id` and `idx_addr`, and `idx_ok`.
pub data Which : Type 0 where
  by_ip by_id by_addr : Which

pub record Indexes : Type 0 where
  pub ip : Index
  pub id : Index
  pub addr : Index
  pub ok : Bool

abbrev pub index_of : Which → Indexes → Index
index_of by_ip x = x.ip
index_of by_id x = x.id
index_of by_addr x = x.addr

abbrev pub with_index : Which → Index → Indexes → Indexes
with_index by_ip y x = record x { ip = y }
with_index by_id y x = record x { id = y }
with_index by_addr y x = record x { addr = y }

-- `server_clients`, `server_max_clients`, `alloc_next` and the indexes.
pub record Clients : Type 0 where
  pub table : List Client
  pub alloc_next : ℕ
  pub indexes : Indexes

abbrev pub client_at : Clients → ℕ → Client
client_at s i = get_or s.table i no_client

abbrev pub max_clients : Clients → ℕ
max_clients s = length s.table

abbrev pub put_client : ℕ → Client → Clients → Clients
put_client k c s = record s { table = set s.table k c }

-- The hashes under which an entry is entered.
abbrev pub key_if : Bool → ℕ → List ℕ
key_if b h = if b then h ∷ [] else []

unfoldable pub keys_of : Which → Client → List ℕ
keys_of by_ip c =
    key_if (not (c.ip == 0)) (hash_u32 c.ip)
    ++ key_if (not (c.pending_ip == 0)) (hash_u32 c.pending_ip)
    ++ key_if (c.prev.valid && not (c.prev_ip == 0)) (hash_u32 c.prev_ip)
keys_of by_id c = key_if (not (is_empty c.id)) (hash_nocase c.id)
keys_of by_addr c = key_if (addr_is_set c.addr) (hash_addr c.addr)

-- The insertions of some keys of one slot, up to the first one that fails.
pub record Entered : Type 0 where
  pub index : Index
  pub ok : Bool

abbrev pub entered : Index → (Index → Entered) → Option Index → Entered
entered x others none = record { index = x; ok = false }
entered x others (some y) = others y

unfoldable pub enter_keys : Memory → ℕ → ℕ → List ℕ → Index → Entered
enter_keys memory n slot [] x = record { index = x; ok = true }
enter_keys memory n slot (h ∷ keys) x =
    entered x (enter_keys memory (n + 1) slot keys) (insert (memory n) x h slot)

abbrev pub enter : Which → Memory → ℕ → ℕ → Client → Indexes → Indexes
enter w memory n slot c x =
    let e = enter_keys memory n slot (keys_of w c) (index_of w x) in
    record (with_index w e.index x) { ok = e.ok }

-- One turn of the loop of `server_index_rebuild`.
abbrev pub enter_client : Memory → ℕ → Client → Indexes → Indexes
enter_client memory i c x =
    let a = enter by_ip memory (4 + 5 * i) i c x in
    let b = enter by_id memory (7 + 5 * i) i c a in
    let d = enter by_addr memory (8 + 5 * i) i c b in
    if not c.active then x else if a.ok then if b.ok then d else b else a

unfoldable pub enter_clients : Memory → List Client → ℕ → ℕ → Indexes → Indexes
enter_clients memory table zero i x = x
enter_clients memory table (suc rounds) i x =
    let c = get_or table i no_client in
    let later = enter_clients memory table rounds (i + 1) (enter_client memory i c x) in
    if x.ok then later else x

-- `slotidx_reset` of one index, which is skipped when an earlier one failed.
abbrev pub resets : Which → Option Index → Indexes → Indexes
resets w none x = record (with_index w no_table x) { ok = false }
resets w (some y) x = with_index w y x

abbrev pub reset_index : Which → Bool → ℕ → Indexes → Indexes
reset_index w memory n x = if x.ok then resets w (reset memory (index_of w x) n) x else x

unfoldable pub index_rebuild : Memory → Clients → Clients
index_rebuild memory s =
    let n = max_clients s in
    let x1 = reset_index by_ip (memory 1) n (record s.indexes { ok = true }) in
    let x2 = reset_index by_id (memory 2) n x1 in
    let x3 = reset_index by_addr (memory 3) n x2 in
    record s { indexes = enter_clients memory s.table n 0 x3 }

abbrev pub crowd : Which → ℕ → ℕ
crowd by_ip n = n * 3
crowd by_id n = n
crowd by_addr n = n

abbrev pub index_added : Which → Memory → Clients → Option Index → Clients
index_added w memory s none = index_rebuild memory s
index_added w memory s (some y) = record s { indexes = with_index w y s.indexes }

unfoldable pub index_add : Which → Memory → ℕ → ℕ → Clients → Clients
index_add w memory h k s =
    let x = index_of w s.indexes in
    if not s.indexes.ok
    then s
    else if crowded x (crowd w (max_clients s))
    then index_rebuild memory s
    else index_added w memory s (insert (memory 0) x h k)
