-- ===== src/Server/Leases/Add.antt =====
-- `server_lease_add` of src/server.c, the step that keeps an address.
use camex.Base.{
  ℕ, ◌+◌, ◌-◌, ◌*◌, Bool, false, not, ◌&&◌, ◌||◌, Option, none, some, List, ◌++◌, take, set,
  replicate, ltb, ◌==◌, if◌then◌else◌, u64,
}
use camex.Slotidx.{Index, insert, crowded, hash_u32, hash_nocase}
use camex.Server.Pool.{Pool, pool_size}
use camex.Server.Leases.{
  Leases, no_lease, lease_at, cap, Clock, young, Memory, Chosen, choose, lease_by_id, lease_by_ip,
  lease_drop, lease_index_rebuild, lease_max, id_max, is_empty,
}

abbrev pub grown_cap : Pool → ℕ → ℕ
grown_cap pool n =
    let limit = if ltb lease_max (pool_size pool) then lease_max else pool_size pool in
    if ltb limit (n * 2) then limit else n * 2

-- A table full of young leases grows, if it can; otherwise the chosen one is overwritten.
unfoldable pub make_room : Memory → Pool → Clock → Chosen → Chosen
make_room memory pool clock c =
    let s = c.leases in
    let l = lease_at s c.slot in
    let n = cap s in
    let bigger = grown_cap pool n in
    if not (l.ip == 0) && young clock l.since && ltb n bigger && memory 0
    then record {
      leases = record s {
        table = s.table ++ replicate (bigger - n) no_lease;
        cursor = n + 1;
        idx_ok = false;
      };
      slot = n;
    }
    else c

-- `g_now != 0 ? g_now : time(NULL)`
abbrev pub moment : Clock → ℕ
moment c = if c.now == 0 then c.time else c.now

unfoldable pub write_lease : Clock → List ℕ → ℕ → Bool → Chosen → Leases
write_lease clock id ip prev c =
    let s = c.leases in
    record s {
      table =
          set s.table c.slot
            (record { id = take id_max id; ip = ip; since = moment clock; prev = prev });
      used = if (lease_at s c.slot).ip == 0 then u64 (s.used + 1) else s.used;
    }

abbrev pub added_id : Memory → Leases → Option Index → Leases
added_id memory s none = lease_index_rebuild memory s
added_id memory s (some y) = record s { by_id = y }

abbrev pub added_ip : Memory → ℕ → Leases → Option Index → Leases
added_ip memory k s none = lease_index_rebuild memory s
added_ip memory k s (some x) =
    added_id memory (record s { by_ip = x })
      (insert (memory 2) s.by_id (hash_nocase (lease_at s k).id) k)

-- The index entries of the lease in slot `k`.
unfoldable pub index_lease : Memory → ℕ → Leases → Leases
index_lease memory k s =
    if not s.idx_ok || crowded s.by_ip (cap s) || crowded s.by_id (cap s)
    then lease_index_rebuild memory s
    else added_ip memory k s (insert (memory 1) s.by_ip (hash_u32 (lease_at s k).ip) k)

-- The table without the leases that the new one replaces.
unfoldable pub make_way : List ℕ → ℕ → Bool → Leases → Leases
make_way id ip prev s =
    let own = if prev then s else lease_drop (lease_by_id s id) s in
    lease_drop (lease_by_ip own ip) own

unfoldable pub lease_add : Memory → Pool → Clock → List ℕ → ℕ → Bool → Leases → Leases
lease_add memory pool clock id ip prev s =
    let c = make_room memory pool clock (choose (make_way id ip prev s)) in
    if cap s == 0 || ip == 0 || is_empty id
    then s
    else index_lease memory c.slot (write_lease clock id ip prev c)
