-- ===== src/Server/Clients/Set.antt =====
-- The operations that change the keys of an entry, and those that end one.
use camex.Base.{
  ℕ, zero, suc, ◌+◌, ◌%◌, Bool, true, not, ◌&&◌, Option, none, some, List, take, get_or, ltb, ◌==◌,
  if◌then◌else◌, bytes_eq,
}
use camex.Session.Transport.{wiped}
use camex.Slotidx.{hash_u32, hash_nocase}
use camex.Server.Leases.{Memory, is_empty, id_max}
use camex.Server.Clients.{
  Addr, sockaddr_equal, hash_addr, addr_is_set, Client, no_client, by_ip, by_id, by_addr, Clients,
  client_at, max_clients, put_client, index_add,
}

-- `V2_PREV_SESSION_GRACE`
abbrev pub prev_grace : ℕ
prev_grace = 30

unfoldable pub set_ip : Memory → ℕ → ℕ → Clients → Clients
set_ip memory k ip s =
    let c = client_at s k in
    let t = put_client k (record c { ip = ip }) s in
    if c.ip == ip then s else if ip == 0 then t else index_add by_ip memory (hash_u32 ip) k t

abbrev pub set_pending : ℕ → ℕ → Clients → Clients
set_pending k ip s = put_client k (record (client_at s k) { pending_ip = ip }) s

unfoldable pub assign_ip : Memory → ℕ → ℕ → Clients → Clients
assign_ip memory k ip s =
    let c = client_at s k in
    if c.cur.valid && not (c.ip == 0) && not (ip == c.ip)
    then (if c.pending_ip == ip
        then s
        else index_add by_ip memory (hash_u32 ip) k (set_pending k ip s))
    else set_ip memory k ip (set_pending k 0 s)

-- `memory n` is what the allocations of the `n`th index change find.
unfoldable pub restore_ip : (ℕ → Memory) → ℕ → ℕ → ℕ → Clients → Clients
restore_ip memory k ip pending s =
    let a = set_pending k pending (set_ip (memory 0) k ip s) in
    let b = if ip == 0 then a else index_add by_ip (memory 1) (hash_u32 ip) k a in
    if pending == 0 then b else index_add by_ip (memory 2) (hash_u32 pending) k b

unfoldable pub set_id : Memory → ℕ → List ℕ → Clients → Clients
set_id memory k id s =
    let c = client_at s k in
    let new = take id_max id in
    let t = put_client k (record c { id = new }) s in
    if bytes_eq c.id id
    then s
    else if is_empty new
    then t
    else index_add by_id memory (hash_nocase new) k t

unfoldable pub set_addr : Memory → ℕ → Addr → Clients → Clients
set_addr memory k addr s =
    let c = client_at s k in
    let t = put_client k (record c { addr = addr }) s in
    if sockaddr_equal c.addr addr && addr_is_set addr
    then s
    else if addr_is_set addr
    then index_add by_addr memory (hash_addr addr) k t
    else t

-- `server_drop_entry` of an entry; closing its socket is I/O.
unfoldable pub drop_entry : ℕ → Clients → Clients
drop_entry k s = put_client k no_client s

-- The free slot from `alloc_next` on.
unfoldable pub free_client : ℕ → ℕ → Clients → Option ℕ
free_client zero n s = none
free_client (suc rounds) n s =
    let i = (s.alloc_next + n) % max_clients s in
    let later = free_client rounds (n + 1) s in if (client_at s i).active then later else some i

abbrev pub quieter : List Client → ℕ → Option ℕ → Bool
quieter table i none = true
quieter table i (some k) =
    ltb (get_or table i no_client).last_seen (get_or table k no_client).last_seen

-- The client that was quiet longest.
unfoldable pub quietest : ℕ → ℕ → List Client → Option ℕ → Option ℕ
quietest zero i table best = best
quietest (suc rounds) i table best =
    quietest rounds (i + 1) table (if quieter table i best then some i else best)

-- A new entry in slot `i`.
abbrev pub activate : ℕ → Clients → Clients
activate i s = put_client i (record no_client { active = true }) s

-- The first packet on the `next` session of an entry, in `server_handle_data`, up to the new address.
unfoldable pub confirm : ℕ → ℕ → Clients → Clients
confirm now k s =
    let c = client_at s k in
    put_client k
      (record c {
        prev = c.cur;
        prev_until = now + prev_grace;
        prev_ip = c.ip;
        cur = c.next;
        next = wiped;
      })
      s

-- `server_set_ip(entry, entry->pending_ip_be); entry->pending_ip_be = 0`, where there is one.
unfoldable pub take_pending : Memory → ℕ → Clients → Clients
take_pending memory k s =
    let c = client_at s k in
    if c.pending_ip == 0 then s else set_pending k 0 (set_ip memory k c.pending_ip s)

-- One turn of the loop of `server_expire_clients`, up to the end of the entry.
unfoldable pub expire_sessions : ℕ → ℕ → Clients → Clients
expire_sessions now k s =
    let c = client_at s k in
    let a =
      if c.prev.valid && ltb c.prev_until now then record c { prev = wiped; prev_ip = 0 } else c in
    let b =
      if a.next.valid && ltb (a.next.created + prev_grace) now
      then record a { next = wiped; pending_ip = 0 }
      else a in
    if c.active then put_client k b s else s
