-- ===== src/Server/Entries/Take.antt =====
-- `server_auto_pool_take` of src/server.c, and that the address it gives is free.
use camex.Base.{
  ℕ, zero, suc, ◌+◌, ◌-◌, ◌%◌, Bool, true, not, ◌&&◌, Option, none, some, ltb, leb, ◌==◌,
  if◌then◌else◌, u32,
}
use camex.Server.Pool.{Pool, pool_first, pool_last, sub32, swap}
use camex.Server.Leases.{Clock, Leases, lease_at, lease_by_ip, lease_min}
use camex.Server.Clients.Find.{find_by_ip}
use camex.Server.Entries.{Config, Server, entry, unowned, same_entry, ip_usable}

-- The address, with the state after the call, and the lease found so far in the walk.
pub record Taken : Type 0 where
  pub server : Server
  pub ip : Option ℕ

-- The oldest lease so far, by the address it keeps and its slot.
abbrev pub older_lease : Leases → ℕ → Option ℕ → Bool
older_lease t l none = true
older_lease t l (some best) = ltb (lease_at t l).since (lease_at t best).since

abbrev pub candidate : Config → Clock → ℕ → ℕ → Server → Option ℕ → Option ℕ → Option ℕ
candidate g clock k ip s best none = best
candidate g clock k ip s best (some l) =
    if not (ip == g.tunnel_ip)
      && unowned g ip
      && same_entry k (find_by_ip s.clients ip)
      && leb ((lease_at s.leases l).since + lease_min clock) clock.now
      && older_lease s.leases l best
    then some l
    else best

-- What the walk ends with: a usable address, or the lease of the oldest candidate.
pub data Walk : Type 0 where
  usable : ℕ → Walk
  leased : Option ℕ → Walk

-- `server_auto_pool_take` from the `n`th address on; `size` is that of the pool's range.
unfoldable pub walk : Config → Clock → ℕ → ℕ → ℕ → ℕ → ℕ → Server → Option ℕ → Walk
walk g clock k start size zero n s best = leased best
walk g clock k start size (suc rounds) n s best =
    let host = u32 (pool_first g.pool + u32 (start + n) % size) in
    let ip = swap host in
    let next = candidate g clock k ip s best (lease_by_ip s.leases ip) in
    let later = walk g clock k start size rounds (n + 1) s next in
    if ip_usable g k ip (some (entry s k).id) s then usable host else later

abbrev pub same_pool : Pool → Pool → Bool
same_pool p q = p.net == q.net && p.prefix == q.prefix

abbrev pub walked : Config → Clock → Server → Walk → Taken
walked g clock s (usable host) = record {
  server = record s {
    auto_pool_next = if ltb host (pool_last g.pool) then u32 (host + 1) else pool_first g.pool;
  };
  ip = some (swap host);
}
walked g clock s (leased (some l)) = record { server = s; ip = some (lease_at s.leases l).ip }
walked g clock s (leased none) = record {
  server = record s { pool_full_at = clock.now; pool_full = g.pool };
  ip = none;
}

unfoldable pub auto_pool_take : Config → Clock → ℕ → Server → Taken
auto_pool_take g clock k s =
    let first = pool_first g.pool in
    let size = u32 (sub32 (pool_last g.pool) first + 1) in
    let start =
      if leb first s.auto_pool_next && leb s.auto_pool_next (pool_last g.pool)
      then s.auto_pool_next - first
      else 0 in
    if s.pool_full_at == clock.now && not (s.pool_full_at == 0) && same_pool s.pool_full g.pool
    then record { server = s; ip = none }
    else walked g clock s (walk g clock k start size size 0 s none)
