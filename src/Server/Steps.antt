-- ===== src/Server/Steps.antt =====
-- The server's tables as a whole: every step of src/server.c on them, in any order and whatever the
-- allocations find, keeps them well formed.
pub mod Paths
pub mod Slots
pub mod Packets
pub mod Operations
use camex.Base.{
  ℕ, ◌^◌, ◌≤◌, ◌<◌, ◌≡◌, ◌⊎◌, sym, ap, ◌∙◌, Bool, true, false, not, ◌&&◌, Option, none, some, List,
  length, replicate, if◌then◌else◌, if_elim, arith, length-replicate, get_or-replicate, Bool-cases,
  if_true, if_false, inl, inr,
}
use camex.Slotidx.{no_table}
use camex.Slotidx.Cover.{no_table-IsSmall}
use camex.Server.Pool.{Pool, pool_has}
use camex.Server.Leases.{Memory, Clock, Leases, is_empty, id_max, lease_drop}
use camex.Server.Leases.Add.{lease_add, moment}
use camex.Server.Leases.Keep.{IsLeases, lease_drop-IsLeases, lease_add-IsLeases}
use camex.Server.Leases.Start.{leases_start, leases_start-IsLeases}
use camex.Server.Clients.{put_client, Addr, Client, Clients, no_client, max_clients, index_rebuild}
use camex.Server.Clients.Resets.{IsTabled, index_rebuild-IsTabled}
use camex.Server.Clients.Set.{
  set_ip, assign_ip, restore_ip, set_id, set_addr, drop_entry, confirm, take_pending,
  expire_sessions,
}
use camex.Server.Clients.Kept.{loses, set_ip-Kept, assign_ip-Kept, restore_ip-Kept}
use camex.Server.Clients.Ended.{
  set_id-Kept, set_addr-Kept, drop_entry-Kept, confirm-Kept, take_pending-Kept,
  expire_sessions-Kept, expired-KeysOf,
}
use camex.Server.Clients.Keys.{blank-KeysOf}
use camex.Server.Clients.Named.{
  IsNamed, put_client-IsNamed, set_ip-IsNamed, assign_ip-IsNamed, restore_ip-IsNamed,
  set_id-IsNamed, set_addr-IsNamed, confirm-IsNamed, take_pending-IsNamed, expire_sessions-IsNamed,
}
use camex.Server.Entries.{
  Config, Server, entry, unowned, end_client, start_entry, overdue, expire_client,
}

-- `count` empty slots.
abbrev pub blank_clients : ℕ → Clients
blank_clients count = record {
  table = replicate count no_client;
  alloc_next = 0;
  indexes = record { ip = no_table; id = no_table; addr = no_table; ok = false };
}

-- The state with which `server_clients_init` succeeds; the other static variables stay.
abbrev pub fresh_server : Memory → Memory → ℕ → Server → Server
fresh_server memory memory_leases count s = record s {
  clients = index_rebuild memory (blank_clients count);
  leases = leases_start memory_leases count;
  auto_pool_next = 0;
}

-- `server_clients_init`; none for the -1.
unfoldable pub clients_init : Memory → Memory → ℕ → Server → Option Server
clients_init memory memory_leases count s =
    if memory 0 then some (fresh_server memory memory_leases count s) else none

abbrev pub with_clients : Server → Clients → Server
with_clients s t = record s { clients = t }

-- An entry with other counters, times, keys and sessions, which is active under the same ID and
-- address, and whose offer or previous session may be gone.
pub record IsUpdate (old c : Client) : Type 0 where
  pub active : c.active ≡ old.active
  pub id : c.id ≡ old.id
  pub addr : c.addr ≡ old.addr
  pub ip : c.ip ≡ old.ip
  pub pending_ip : (c.pending_ip ≡ 0) ⊎ (c.pending_ip ≡ old.pending_ip)
  pub prev_ip : (c.prev_ip ≡ 0) ⊎ ((c.prev_ip ≡ old.prev_ip) × (c.prev.valid ≡ old.prev.valid))

-- The steps on the server's static variables; the slot of each is one of the table. An allocation is
-- a start that moves the cursor, or the end of an entry and a start; `noted` stands for the cursor and the
-- memory of the pool and for the time of the last expiry, whatever is written there.
pub data Step (s : Server) : Server → Type 0 where
  ip_set :
      (m : Memory) (k ip : ℕ)
      → k < max_clients s.clients
      → Step s (with_clients s (set_ip m k ip s.clients))
  ip_assigned :
      (m : Memory) (k ip : ℕ)
      → k < max_clients s.clients
      → Step s (with_clients s (assign_ip m k ip s.clients))
  ip_restored :
      (m : ℕ → Memory) (k ip pending : ℕ)
      → k < max_clients s.clients
      → Step s (with_clients s (restore_ip m k ip pending s.clients))
  id_set :
      (m : Memory) (k : ℕ) (id : List ℕ)
      → k < max_clients s.clients
      → Step s (with_clients s (set_id m k id s.clients))
  addr_set :
      (m : Memory) (k : ℕ) (addr : Addr)
      → k < max_clients s.clients
      → Step s (with_clients s (set_addr m k addr s.clients))
  confirmed :
      (now k : ℕ) → k < max_clients s.clients → Step s (with_clients s (confirm now k s.clients))
  pending_taken :
      (m : Memory) (k : ℕ)
      → k < max_clients s.clients
      → Step s (with_clients s (take_pending m k s.clients))
  dropped : (k : ℕ) → k < max_clients s.clients → Step s (with_clients s (drop_entry k s.clients))
  started : (k : ℕ) → k < max_clients s.clients → Step s (start_entry k s)
  ended :
      (m : ℕ → Memory) (g : Config) (clock : Clock) (k : ℕ)
      → k < max_clients s.clients
      → Step s (end_client m g clock k s)
  expired :
      (m : ℕ → Memory) (g : Config) (clock : Clock) (k : ℕ)
      → k < max_clients s.clients
      → Step s (expire_client m g clock k s)
  updated :
      (k : ℕ) (c : Client)
      → k < max_clients s.clients
      → IsUpdate (entry s k) c
      → Step s (with_clients s (put_client k c s.clients))
  cursor_moved : (n : ℕ) → Step s (with_clients s (record s.clients { alloc_next = n }))
  noted :
      (next at last : ℕ) (p : Pool)
      → Step s (record s {
        auto_pool_next = next;
        pool_full_at = at;
        pool_full = p;
        last_expire_check = last;
      })
  lease_dropped : (o : Option ℕ) → Step s (record s { leases = lease_drop o s.leases })

-- The states that the steps reach.
pub data Reached (s : Server) : Server → Type 0 where
  begin : Reached s s
  then_step : {t u : Server} → Reached s t → Step t u → Reached s u

pub record IsServer (s : Server) : Type 0 where
  pub clients : IsTabled s.clients
  pub leases : IsLeases s.leases
  pub named : IsNamed s.clients

with-clients :
    (s : Server) (t : Clients) → IsServer s → IsTabled t → IsNamed t → IsServer (with_clients s t)
with-clients s t i c n = record { clients = c; leases = i.leases; named = n }

abbrev kept_leases : Config → Clock → Memory → ℕ → Bool → Client → Leases → Leases
kept_leases g clock m ip prev c t = lease_add m g.pool clock c.id ip prev t

end_client-IsServer :
    (m : ℕ → Memory) (g : Config) (clock : Clock) (k : ℕ) (s : Server)
    → k < max_clients s.clients
    → IsServer s
    → IsServer (end_client m g clock k s)
unfolding end_client drop_entry
end_client-IsServer m g clock k s l i =
    let c : Client = entry s k in
    let short : length c.id ≤ id_max = i.named k in
    let first : Bool = pool_has g.pool c.ip && unowned g c.ip in
    let a : Leases = if first then kept_leases g clock (m 0) c.ip false c s.leases else s.leases in
    let ia : IsLeases a =
      if_elim IsLeases first _ s.leases
        (λ _. lease_add-IsLeases (m 0) g.pool clock c.id c.ip false s.leases i.leases short)
        (λ _. i.leases) in
    let ended = loses k no_client s.clients i.clients l (blank-KeysOf c false) in
    record {
      clients = ended.0;
      leases =
          if_elim IsLeases (c.active && c.registered && c.auto_client && not (is_empty c.id)) _
            s.leases
            (λ _.
              if_elim IsLeases _ (kept_leases g clock (m 1) c.prev_ip true c a) a
                (λ _. lease_add-IsLeases (m 1) g.pool clock c.id c.prev_ip true a ia short)
                (λ _. ia))
            (λ _. i.leases);
      named = put_client-IsNamed k no_client s.clients i.named (omega arith);
    }

expire_client-IsServer :
    (m : ℕ → Memory) (g : Config) (clock : Clock) (k : ℕ) (s : Server)
    → k < max_clients s.clients
    → IsServer s
    → IsServer (expire_client m g clock k s)
unfolding expire_client
expire_client-IsServer m g clock k s l i =
    let now : ℕ = moment clock in
    let t : Server = record s { clients = expire_sessions now k s.clients } in
    let (c, e) = expire_sessions-Kept now k s.clients i.clients l in
    let it : IsServer t =
      with-clients s (expire_sessions now k s.clients) i c
        (expire_sessions-IsNamed now k s.clients i.named) in
    if_elim IsServer (not (entry s k).active) s _ (λ _. i)
      (λ _.
        if_elim IsServer (overdue clock (entry s k)) (end_client m g clock k t) t
          (λ _. end_client-IsServer m g clock k t (omega (arith, l, e)) it) (λ _. it))

drop_entry-IsNamed : (k : ℕ) (s : Server) → IsServer s → IsNamed (drop_entry k s.clients)
unfolding drop_entry
drop_entry-IsNamed k s i = put_client-IsNamed k no_client s.clients i.named (omega arith)

-- One step keeps the tables well formed.
pub Step-IsServer : (s t : Server) → Step s t → IsServer s → IsServer t
Step-IsServer s t (ip_set m k ip l) i =
    with-clients s _ i (set_ip-Kept m k ip s.clients i.clients l).0
      (set_ip-IsNamed m k ip s.clients i.named)
Step-IsServer s t (ip_assigned m k ip l) i =
    with-clients s _ i (assign_ip-Kept m k ip s.clients i.clients l).0
      (assign_ip-IsNamed m k ip s.clients i.named)
Step-IsServer s t (ip_restored m k ip pending l) i =
    with-clients s _ i (restore_ip-Kept m k ip pending s.clients i.clients l).0
      (restore_ip-IsNamed m k ip pending s.clients i.named)
Step-IsServer s t (id_set m k id l) i =
    with-clients s _ i (set_id-Kept m k id s.clients i.clients l).0
      (set_id-IsNamed m k id s.clients i.named)
Step-IsServer s t (addr_set m k addr l) i =
    with-clients s _ i (set_addr-Kept m k addr s.clients i.clients l).0
      (set_addr-IsNamed m k addr s.clients i.named)
Step-IsServer s t (confirmed now k l) i =
    with-clients s _ i (confirm-Kept now k s.clients i.clients l).0
      (confirm-IsNamed now k s.clients i.named)
Step-IsServer s t (pending_taken m k l) i =
    with-clients s _ i (take_pending-Kept m k s.clients i.clients l).0
      (take_pending-IsNamed m k s.clients i.named)
Step-IsServer s t (dropped k l) i =
    with-clients s _ i (drop_entry-Kept k s.clients i.clients l).0 (drop_entry-IsNamed k s i)
Step-IsServer s t (started k l) i =
    with-clients s _ i
      (loses k (record no_client { active = true }) s.clients i.clients l
        (blank-KeysOf (entry s k) true)).0
      (put_client-IsNamed k (record no_client { active = true }) s.clients i.named (omega arith))
Step-IsServer s t (ended m g clock k l) i = end_client-IsServer m g clock k s l i
Step-IsServer s t (expired m g clock k l) i = expire_client-IsServer m g clock k s l i
Step-IsServer s t (updated k c l e) i =
    let keys = expired-KeysOf (entry s k) c e.active e.id e.addr e.ip e.pending_ip e.prev_ip in
    with-clients s _ i (loses k c s.clients i.clients l keys).0
      (put_client-IsNamed k c s.clients i.named (omega (arith, ap length e.id, i.named k)))
Step-IsServer s t (cursor_moved n) i =
    with-clients s _ i
      (record {
        few = i.clients.few;
        small_ip = i.clients.small_ip;
        small_id = i.clients.small_id;
        small_addr = i.clients.small_addr;
        covers = i.clients.covers;
      })
      i.named
Step-IsServer s t (noted next at last p) i = record {
  clients = i.clients;
  leases = i.leases;
  named = i.named;
}
Step-IsServer s t (lease_dropped o) i = record {
  clients = i.clients;
  leases = lease_drop-IsLeases o s.leases i.leases;
  named = i.named;
}

fresh_server-IsServer :
    (m n : Memory) (count : ℕ) (s : Server) → count ≤ 2 ^ 20 → IsServer (fresh_server m n count s)
unfolding index_rebuild
fresh_server-IsServer m n count s few = record {
  clients =
      index_rebuild-IsTabled m (blank_clients count)
        (omega (arith, few, length-replicate count no_client)) no_table-IsSmall no_table-IsSmall
        no_table-IsSmall;
  leases = leases_start-IsLeases n count few;
  named = λ i. omega (arith, ap (λ c. length c.id) (get_or-replicate count i no_client));
}

init-IsServer :
    (m n : Memory) (count : ℕ) (before s : Server)
    → count ≤ 2 ^ 20
    → clients_init m n count before ≡ some s
    → IsServer s
unfolding clients_init
init-IsServer m n count before s few e = elim (Bool-cases (m 0)) [
  | inr off ↦ absurd (cc (sym (if_false (m 0) (some (fresh_server m n count before)) none off) ∙ e))
  | inl on ↦
      let same : fresh_server m n count before ≡ s =
        cc (sym (if_true (m 0) (some (fresh_server m n count before)) none on) ∙ e) in
      rw (← same) (fresh_server-IsServer m n count before few)
]

-- Whatever steps the server takes from its start, with up to 2^20 slots, of those that its allocations,
-- expiries, reloads, packets and registrations are made of, its tables stay well formed: the indexes of clients and leases, while they are used, cover their tables, there is at most one lease
-- for an address and one own address for an ID, and every ID fits its buffer.
pub Reached-IsServer :
    (m n : Memory) (count : ℕ) (before s t : Server)
    → count ≤ 2 ^ 20
    → clients_init m n count before ≡ some s
    → Reached s t
    → IsServer t
Reached-IsServer m n count before s t few e begin = init-IsServer m n count before s few e
Reached-IsServer m n count before s t few e (then_step {t = w} r step) =
    Step-IsServer w t step (Reached-IsServer m n count before s w few e r)
