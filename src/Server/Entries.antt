-- ===== src/Server/Entries.antt =====
-- Entries that end, start and expire in src/server.c, with the leases they leave, and the addresses that
-- the pool gives. What the functions `config_*` of src/config.c answer from the loaded file is the
-- record `Config`; what the allocations find is an argument.
pub mod Take
pub mod Free
pub mod Given
pub mod Full
pub mod Started
pub mod Expire
use camex.Base.{
  ℕ, zero, suc, ◌+◌, ◌-◌, ◌%◌, Bool, true, false, not, ◌&&◌, ◌||◌, Option, none, some, List, [],
  ltb, leb, ◌==◌, if◌then◌else◌, u32,
}
use camex.Session.Transport.{wiped}
use camex.Server.Pool.{Pool, pool_first, pool_last, pool_has, sub32, swap}
use camex.Server.Leases.{
  Memory, Clock, Leases, lease_at, lease_by_ip, lease_allows, lease_min, young, is_empty, same_name,
}
use camex.Server.Leases.Add.{lease_add, moment}
use camex.Server.Clients.{Client, Clients, client_at, max_clients, put_client, no_client}
use camex.Server.Clients.Find.{find_by_ip}
use camex.Server.Clients.Set.{drop_entry, activate, free_client, quietest, expire_sessions}

-- The configuration that is loaded. `tunnel_ip` is `server_tunnel_ip`, `owner_of_ip` is
-- `profile_owner_of_ip`, and `key_owner` gives [] for the empty owner.
pub record Config : Type 0 where
  pub pool : Pool
  pub tunnel_ip : ℕ
  pub deny_unknown : Bool
  pub owner_of_ip : ℕ → Option (List ℕ)
  pub known_id : List ℕ → Bool
  pub key_contains : List ℕ → Bool
  pub key_global : List ℕ → Bool
  pub key_owned_by : List ℕ → List ℕ → Bool
  pub key_owner : List ℕ → List ℕ
  pub has_owner : List ℕ → Bool
  pub profile_ip : List ℕ → Option ℕ

-- The clients and leases, and the static variables of the pool and of the expiry.
pub record Server : Type 0 where
  pub clients : Clients
  pub leases : Leases
  pub auto_pool_next : ℕ
  pub pool_full_at : ℕ
  pub pool_full : Pool
  pub last_expire_check : ℕ

abbrev pub entry : Server → ℕ → Client
entry s k = client_at s.clients k

abbrev pub unowned : Config → ℕ → Bool
unowned g ip = elim (g.owner_of_ip ip) [ none ↦ true | some owner ↦ false ]

-- `server_end_client`; `memory n` is for its `n`th lease.
unfoldable pub end_client : (ℕ → Memory) → Config → Clock → ℕ → Server → Server
end_client memory g clock k s =
    let c = entry s k in
    let current =
      if pool_has g.pool c.ip && unowned g c.ip
      then lease_add (memory 0) g.pool clock c.id c.ip false s.leases
      else s.leases in
    let previous =
      if c.prev.valid && not (c.prev_ip == c.ip) && pool_has g.pool c.prev_ip && unowned g c.prev_ip
      then lease_add (memory 1) g.pool clock c.id c.prev_ip true current
      else current in
    record s {
      clients = drop_entry k s.clients;
      leases =
          if c.active && c.registered && c.auto_client && not (is_empty c.id)
          then previous
          else s.leases;
    }

-- The state after `server_alloc_client`, and the slot, or `none` for NULL.
pub record Alloc : Type 0 where
  pub server : Server
  pub slot : Option ℕ

abbrev pub start_entry : ℕ → Server → Server
start_entry i s = record s { clients = activate i s.clients }

abbrev pub evicted : (ℕ → Memory) → Config → Clock → Server → Option ℕ → Alloc
evicted memory g clock s none = record { server = s; slot = none }
evicted memory g clock s (some k) = record {
  server = start_entry k (end_client memory g clock k s);
  slot = some k;
}

abbrev pub alloc_from : (ℕ → Memory) → Config → Clock → Bool → Server → Option ℕ → Alloc
alloc_from memory g clock holding s (some i) = record {
  server = record s {
    clients = record (activate i s.clients) { alloc_next = (i + 1) % max_clients s.clients };
  };
  slot = some i;
}
alloc_from memory g clock holding s none =
    let n = max_clients s.clients in
    if holding
    then record { server = s; slot = none }
    else evicted memory g clock s (quietest n 0 s.clients.table none)

-- `holding` is `server_pool_holding()`.
unfoldable pub alloc_client : (ℕ → Memory) → Config → Clock → Bool → Server → Alloc
alloc_client memory g clock holding s =
    let n = max_clients s.clients in
    if n == 0
    then record { server = s; slot = none }
    else alloc_from memory g clock holding s (free_client n 0 s.clients)

-- `CAMEX_TCP_PREAUTH_TIMEOUT`
abbrev pub preauth_timeout : ℕ
preauth_timeout = 10

abbrev pub on_tcp : Client → Bool
on_tcp c = elim c.tcp_fd [ none ↦ false | some fd ↦ true ]

-- Has the entry been silent, or unregistered, for too long?
unfoldable pub overdue : Clock → Client → Bool
overdue clock c =
    let now = moment clock in
    if on_tcp c && not c.registered
    then ltb (c.connected_at + preauth_timeout) now
    else ltb (c.last_seen + clock.timeout) now

-- One turn of the loop of `server_expire_clients`.
unfoldable pub expire_client : (ℕ → Memory) → Config → Clock → ℕ → Server → Server
expire_client memory g clock k s =
    let c = entry s k in
    let t = record s { clients = expire_sessions (moment clock) k s.clients } in
    if not c.active then s else if overdue clock c then end_client memory g clock k t else t

unfoldable pub expire_from : (ℕ → ℕ → Memory) → Config → Clock → ℕ → ℕ → Server → Server
expire_from memory g clock zero k s = s
expire_from memory g clock (suc rounds) k s =
    expire_from memory g clock rounds (k + 1) (expire_client (memory k) g clock k s)

unfoldable pub expire_clients : (ℕ → ℕ → Memory) → Config → Clock → Server → Server
expire_clients memory g clock s =
    let now = moment clock in
    if now == s.last_expire_check
    then s
    else expire_from memory g clock (max_clients s.clients) 0 (record s { last_expire_check = now })

-- `server_ip_usable`; `k` is the entry and `id` its client ID.
abbrev pub same_entry : ℕ → Option ℕ → Bool
same_entry k none = true
same_entry k (some user) = user == k

unfoldable pub ip_usable : Config → ℕ → ℕ → Option (List ℕ) → Server → Bool
ip_usable g k ip id s =
    pool_has g.pool ip
    && not (ip == g.tunnel_ip)
    && unowned g ip
    && same_entry k (find_by_ip s.clients ip)
    && lease_allows s.leases ip id
