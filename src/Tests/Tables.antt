-- ===== src/Tests/Tables.antt =====
-- Concrete runs of the indexes, the leases, the pool and the client table.
use camex.Base.{
  ℕ, ◌+◌, ◌^◌, ◌<◌, ◌≡◌, ◌≢◌, refl, ◌⊎◌, inl, inr, ◌↔◌, true, false, ◌&&◌, none, some, List, [],
  ◌∷◌, ◌==◌, if◌then◌else◌, codes, arith,
}
use camex.Slotidx.{Index, no_table, insert, put, find, min_buckets, buckets_for}
use camex.Slotidx.Entries.{Entry, IsPut, put-IsPut}
use camex.Slotidx.Growth.{fresh_table, fresh-IsChained}
use camex.Slotidx.Insert.{IsIndex, insert-Entry}
use camex.Slotidx.Find.{IsLeast, Matching, find-IsLeast}
use camex.Slotidx.Reset.{IsSize, buckets_for-IsSize}
use camex.Slotidx.Scan.{first_match}
use camex.Server.Pool.{Pool, pool_has, swap}
use camex.Server.Leases.{
  Memory, Clock, Leases, lease_by_ip, lease_by_id, match_lease_ip, match_lease_id, cap, is_empty,
  lease_allows, same_name,
}
use camex.Server.Leases.Add.{lease_add}
use camex.Server.Leases.Lookup.{leases-scan}
use camex.Server.Leases.Keep.{IsLeases, lease_add-IsLeases, lease_add-lease_allows}
use camex.Server.Leases.Indexed.{IsIndexed}
use camex.Slotidx.Cover.{no_table-IsSmall}
use camex.Server.Leases.Start.{fresh_leases, leases_start, leases_start-IsLeases}
use camex.Server.Clients.Resets.{IsTabled}
use camex.Tests.Toy.{toy}
use camex.Server.Steps.Paths.{alloc_client-Reached}
use camex.Server.Steps.Operations.{KeepsServer, operations-KeepsServer}
use camex.Server.Clients.{Addr, Client, no_client}
use camex.Server.Clients.Find.{
  find_by_ip, find_by_client_id, find_by_addr, match_ip, match_cur_ip, match_id, match_addr,
  or_else, scan_all,
}
use camex.Server.Clients.Scan.{find-scan}
use camex.Server.Entries.{Config, Server, entry, Alloc, alloc_client, expire_clients, ip_usable}
use camex.Server.Entries.Take.{auto_pool_take}
use camex.Server.Entries.Free.{IsPool, pool_has-Inside, IsGiven}
use camex.Server.Entries.Given.{auto_pool_take-IsGiven}
use camex.Server.Entries.Full.{auto_pool_take-Full}
use camex.Server.Entries.Expire.{IsCurrent, expire_clients-IsCurrent}
use camex.Server.Reload.{register_allowed, revalidate_keys, revalidate_profile_addresses}
use camex.Server.Reload.Claim.{IsRightful, register_allowed-Owned}
use camex.Server.Reload.Checked.{
  KeyAllowed, revalidate_keys-Allowed, IsOwnAddress, revalidate_profile_addresses-IsOwnAddress,
}
use camex.Server.Steps.{
  blank_clients, fresh_server, clients_init, begin, IsServer, Reached-IsServer,
}

-- Every allocation finds memory.
abbrev plenty : Memory
plenty n = true

insert-Entry_example :
    (y : Index) × (insert true no_table 3 7 ≡ some y)
    × IsIndex y
    × ((h slot : ℕ) → Entry y h slot ↔ (((h ≡ 3) × (slot ≡ 7)) ⊎ Entry no_table h slot))
insert-Entry_example = insert-Entry no_table 3 7 (inl refl) (omega arith) (omega arith)

abbrev with_seven : Index
with_seven = put (fresh_table 16) 3 8

with_seven-IsIndex : IsIndex with_seven
unfolding put
with_seven-IsIndex =
    let p : IsPut 4 (fresh_table 16) 3 7 with_seven =
      put-IsPut 4 (fresh_table 16) 3 7 (fresh-IsChained 4 16 refl (omega arith) (omega arith))
        (omega arith) in
    inr (4, record { chained = p.chained; half = omega (arith, p.one_more, p.same_mask) })

find-IsLeast_example :
    IsLeast (Matching (λ s. s == 7) with_seven 3) (find (λ s. s == 7) with_seven 3)
find-IsLeast_example = find-IsLeast (λ s. s == 7) with_seven 3 with_seven-IsIndex

buckets_for-IsSize_example : IsSize min_buckets 100 (buckets_for 100)
buckets_for-IsSize_example = buckets_for-IsSize 100 (omega arith)

-- The pool 10.0.0.0/30, whose only client address is 10.0.0.2.
abbrev small_pool : Pool
small_pool = record { net = 167772160; prefix = 30 }

small_pool-IsPool : IsPool small_pool
small_pool-IsPool = record { long = omega arith; short = omega arith; fits = omega arith }

abbrev only_ip : ℕ
only_ip = 33554442

pool_has-Inside_example :
    (pool_has small_pool only_ip ≡ true)
    ↔ ((only_ip ≢ 0) × (167772160 + 1 < swap only_ip) × (swap only_ip + 1 < 167772160 + 2 ^ 2))
pool_has-Inside_example = pool_has-Inside small_pool only_ip small_pool-IsPool

abbrev noon : Clock
noon = record { now = 43200; time = 43200; timeout = 120 }

abbrev four_leases : Leases
four_leases = leases_start plenty 4

abbrev one_lease : Leases
one_lease = lease_add plenty small_pool noon (codes "Tea") only_ip false four_leases

four_leases-IsLeases : IsLeases four_leases
four_leases-IsLeases = leases_start-IsLeases plenty 4 (omega arith)

one_lease-IsLeases : IsLeases one_lease
one_lease-IsLeases =
    lease_add-IsLeases plenty small_pool noon (codes "Tea") only_ip false four_leases
      four_leases-IsLeases (omega arith)

leases-scan_example :
    ((ip : ℕ)
      → lease_by_ip one_lease ip
        ≡ (if ip == 0 then none else first_match (match_lease_ip one_lease ip) (cap one_lease) 0))
    × ((id : List ℕ)
        → lease_by_id one_lease id ≡ (
            if is_empty id
            then none
            else first_match (match_lease_id one_lease id) (cap one_lease) 0))
leases-scan_example = leases-scan one_lease one_lease-IsLeases.indexed

four_slots : 0 < cap four_leases
unfolding leases_start camex.Server.Leases.lease_index_rebuild camex.Slotidx.reset
    camex.Slotidx.alloc_table camex.Server.Leases.enter_all
four_slots = omega arith

lease_add-lease_allows_example :
    (lease_allows one_lease only_ip (some (codes "coffee"))
      ≡ same_name (codes "Tea") (codes "coffee"))
    × (lease_allows one_lease only_ip none ≡ false)
lease_add-lease_allows_example =
    lease_add-lease_allows plenty small_pool noon (codes "Tea") only_ip false four_leases
      (codes "coffee") four_leases-IsLeases four_slots (λ e. absurd (omega (arith, e))) refl
      (omega arith)

abbrev first_of : List ℕ → ℕ
first_of [] = 0
first_of (b ∷ key) = b

-- A key is a list of one byte: 1 is the global key, 2 that of `tea`.
abbrev small_config : Config
small_config = record {
  pool = small_pool;
  tunnel_ip = 16777226;
  deny_unknown = true;
  owner_of_ip = λ ip. none;
  known_id = λ id. same_name id (codes "tea");
  key_contains = λ key. true;
  key_global = λ key. first_of key == 1;
  key_owned_by = λ key id. first_of key == 2 && same_name id (codes "tea");
  key_owner = λ key. if first_of key == 2 then codes "tea" else [];
  has_owner = λ id. same_name id (codes "tea");
  profile_ip = λ id. none;
}

abbrev server_of : Config → Server
server_of g = record {
  clients = blank_clients 1;
  leases = fresh_leases [];
  auto_pool_next = 0;
  pool_full_at = 0;
  pool_full = small_pool;
  last_expire_check = 0;
}

abbrev still : Server
still = server_of small_config

no_leases-IsIndexed : IsIndexed still.leases
no_leases-IsIndexed = record {
  few = omega arith;
  by_ip = no_table-IsSmall;
  by_id = no_table-IsSmall;
  covers = λ ok. absurd (cc ok);
}

takes_only_ip : (auto_pool_take small_config noon 0 still).ip ≡ some only_ip
unfolding auto_pool_take camex.Server.Entries.Take.walk camex.Server.Pool.pool_last
    camex.Server.Pool.pool_size camex.Server.Pool.pool_first ip_usable pool_has swap find_by_ip
    first_match match_cur_ip match_ip lease_allows lease_by_ip
takes_only_ip = refl

still-IsTabled : IsTabled still.clients
still-IsTabled = record {
  few = omega arith;
  small_ip = no_table-IsSmall;
  small_id = no_table-IsSmall;
  small_addr = no_table-IsSmall;
  covers = λ ok. absurd (cc ok);
}

auto_pool_take-IsGiven_example :
    IsGiven small_config noon 0 still only_ip
    × (match_ip still.clients only_ip 0 ≡ false
        → (j : ℕ) → match_ip still.clients only_ip j ≡ false)
auto_pool_take-IsGiven_example =
    auto_pool_take-IsGiven small_config noon 0 only_ip still small_pool-IsPool no_leases-IsIndexed
      still-IsTabled takes_only_ip

-- The server itself has the only address.
abbrev own_config : Config
own_config = record small_config { tunnel_ip = only_ip }

takes_nothing : (auto_pool_take own_config noon 0 still).ip ≡ none
unfolding auto_pool_take camex.Server.Entries.Take.walk camex.Server.Pool.pool_last
    camex.Server.Pool.pool_size camex.Server.Pool.pool_first ip_usable pool_has swap lease_by_ip
    first_match
takes_nothing = refl

auto_pool_take-Full_example :
    ip_usable own_config 0 (swap 167772162) (some (entry still 0).id) still ≡ false
auto_pool_take-Full_example =
    auto_pool_take-Full own_config noon 0 still 167772162 small_pool-IsPool takes_nothing refl
      (omega arith) (omega arith)

abbrev memories : ℕ → Memory
memories n = plenty

-- A client that registered with its own key and was heard from ten seconds ago.
abbrev tea_client : Client
tea_client = record no_client {
  active = true;
  registered = true;
  id = codes "tea";
  psk_key = 2 ∷ [];
  ip = only_ip;
  last_seen = 43190;
}

abbrev busy : Server
busy = record still { clients = record still.clients { table = tea_client ∷ [] } }

expire_clients-IsCurrent_example :
    IsCurrent noon (entry (expire_clients (λ n. memories) small_config noon busy) 0)
expire_clients-IsCurrent_example =
    expire_clients-IsCurrent (λ n. memories) small_config noon busy 0
      (λ e. absurd (omega (arith, e))) (omega arith)

abbrev two_slots : Server
two_slots = fresh_server plenty plenty 2 still

two_slots-start : clients_init plenty plenty 2 still ≡ some two_slots
unfolding clients_init
two_slots-start = refl

abbrev after_one : Server
after_one = (alloc_client memories small_config noon false two_slots).server

after_one-IsServer : IsServer after_one
after_one-IsServer =
    Reached-IsServer plenty plenty 2 still two_slots after_one (omega arith) two_slots-start
      (alloc_client-Reached memories small_config noon false two_slots)

Reached-IsServer_example : IsServer after_one
Reached-IsServer_example =
    Reached-IsServer plenty plenty 2 still two_slots after_one (omega arith) two_slots-start
      (alloc_client-Reached memories small_config noon false two_slots)

two_slots-IsServer : IsServer two_slots
two_slots-IsServer =
    Reached-IsServer plenty plenty 2 still two_slots two_slots (omega arith) two_slots-start begin

find-scan_example :
    ((ip : ℕ)
      → find_by_ip two_slots.clients ip
        ≡ or_else
            (scan_all two_slots.clients (match_cur_ip two_slots.clients ip))
            (scan_all two_slots.clients (match_ip two_slots.clients ip)))
    × ((id : List ℕ)
        → find_by_client_id two_slots.clients id ≡ (
            if is_empty id
            then none
            else scan_all two_slots.clients (match_id two_slots.clients id)))
    × ((addr : Addr)
        → find_by_addr two_slots.clients addr
          ≡ scan_all two_slots.clients (match_addr two_slots.clients addr))
find-scan_example = find-scan two_slots.clients two_slots-IsServer.clients

register_allowed-Owned_example :
    register_allowed small_config (2 ∷ []) [] 32 none true ≡ some (codes "tea")
    ↔ IsRightful small_config (2 ∷ []) [] 32 none true (codes "tea")
register_allowed-Owned_example =
    register_allowed-Owned small_config (2 ∷ []) [] (codes "tea") 32 none true

revalidate_keys-Allowed_example :
    KeyAllowed small_config (entry (revalidate_keys (λ n. memories) small_config noon busy) 0)
    × (KeyAllowed small_config (entry busy 0)
        → entry (revalidate_keys (λ n. memories) small_config noon busy) 0 ≡ entry busy 0)
revalidate_keys-Allowed_example =
    revalidate_keys-Allowed (λ n. memories) small_config noon busy 0 (omega arith)

revalidate_profile_addresses-IsOwnAddress_example :
    IsOwnAddress small_config (entry (revalidate_profile_addresses small_config busy) 0)
revalidate_profile_addresses-IsOwnAddress_example =
    revalidate_profile_addresses-IsOwnAddress small_config busy 0 (omega arith)

abbrev peer : Addr
peer = record { family = 2; port = 4500; ip = 16777343 }

operations-KeepsServer_example :
    KeepsServer toy
      (λ n. memories)
      small_config
      noon
      false
      true
      true
      0
      none
      peer
      (codes "packet")
      after_one
operations-KeepsServer_example =
    operations-KeepsServer toy (λ n. memories) small_config noon false true true 0 none peer
      (codes "packet") after_one after_one-IsServer
