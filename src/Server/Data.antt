-- ===== src/Server/Data.antt =====
-- `server_handle_data` and `server_forward_packet` of src/server.c. Whether the network takes a packet is
-- an argument; what is sent, or written to the tunnel, is a value of the result.
pub mod Authentic
use camex.Base.{
  ℕ, zero, suc, ◌+◌, ◌-◌, ◌*◌, ◌^◌, ◌%◌, ◌≡◌, ◌≢◌, refl, sym, ap, ◌∙◌, ◌⊎◌, inl, inr, Bool, true,
  false, not, ◌&&◌, ◌||◌, Option, none, some, List, [], ◌∷◌, length, leb, ◌==◌, if◌then◌else◌, u64,
  bit_and,
}
use camex.Crypto.{Crypto}
use camex.Session.Wire.{data_receiver, overhead}
use camex.Session.Transport.{Session, session_open, session_seal}
use camex.Net.Send.{tun_packet_max}
use camex.Util.{ipv4_parse_endpoints}
use camex.Server.Leases.{Memory, Clock, lease_by_ip, lease_drop}
use camex.Server.Clients.{Addr, sockaddr_equal, Client, Clients, client_at, max_clients, put_client}
use camex.Server.Clients.Find.{find_by_ip}
use camex.Server.Clients.Set.{set_addr, confirm, take_pending}
use camex.Server.Entries.{Server, entry}

-- The session of an entry that a packet came on.
pub data Part : Type 0 where
  on_cur on_next on_prev : Part

abbrev pub session_of : Part → Client → Session
session_of on_cur c = c.cur
session_of on_next c = c.next
session_of on_prev c = c.prev

abbrev pub with_session : Part → Session → Client → Client
with_session on_cur x c = record c { cur = x }
with_session on_next x c = record c { next = x }
with_session on_prev x c = record c { prev = x }

-- The entry that the index of a packet names, and the session.
pub record Receiver : Type 0 where
  pub slot : ℕ
  pub part : Part

unfoldable pub part_of : ℕ → ℕ → Client → Option Part
part_of now idx c =
    if c.cur.valid && c.cur.local_index == idx
    then some on_cur
    else if c.next.valid && c.next.local_index == idx
    then some on_next
    else if c.prev.valid && c.prev.local_index == idx && leb now c.prev_until
    then some on_prev
    else none

abbrev pub receiver_at : ℕ → Option Part → Option Receiver
receiver_at k none = none
receiver_at k (some part) = some (record { slot = k; part = part })

unfoldable pub receiver : ℕ → ℕ → Server → Option Receiver
receiver now idx s =
    let slot1 = bit_and idx 65535 in
    if not (slot1 == 0) && leb slot1 (max_clients s.clients) && (entry s (slot1 - 1)).active
    then receiver_at (slot1 - 1) (part_of now idx (entry s (slot1 - 1)))
    else none

-- What goes out: nothing, a packet to the tunnel, or one that is sent to an entry.
pub data Out : Type 0 where
  silent : Out
  to_tunnel : List ℕ → Out
  to_entry : ℕ → List ℕ → Out

-- What the function returns: -1, 0, or what the call returned that sends or writes the packet.
pub data Code : Type 0 where
  minus_one all_well of_call : Code

pub record Handled : Type 0 where
  pub server : Server
  pub out : Out
  pub code : Code

abbrev pub put_entry : ℕ → Client → Server → Server
put_entry k c s = record s { clients = put_client k c s.clients }

-- The four bytes of an address as the integer that `memcpy` makes of them.
abbrev pub ip_of_bytes : List ℕ → ℕ
ip_of_bytes [] = 0
ip_of_bytes (b ∷ bytes) = b + 256 * ip_of_bytes bytes

-- The counters of an entry that a packet of `n` bytes was sent to.
abbrev pub sent : ℕ → Client → Client
sent n c = record c { tx_packets = u64 (c.tx_packets + 1); tx_bytes = u64 (c.tx_bytes + n) }

module _ (c : Crypto) where
  -- Seal for an entry, and send. `taken` says whether the network takes it.
  abbrev pub sealed : Bool → ℕ → ℕ → Server → Option (List ℕ) × Session → Handled
  sealed taken k n s (none, x) = record {
    server = put_entry k (record (entry s k) { cur = x }) s;
    out = silent;
    code = minus_one;
  }
  sealed taken k n s (some pkt, x) =
      let d = record (entry s k) { cur = x } in
      record {
        server = put_entry k (if taken then sent n d else d) s;
        out = to_entry k pkt;
        code = of_call;
      }

  abbrev pub seal_for : Bool → ℕ → List ℕ → ℕ → Server → Handled
  seal_for taken k plain size s =
      sealed taken k (length plain) s (session_seal c (entry s k).cur plain size)

  abbrev pub forward_to : Bool → List ℕ → Server → Option ℕ → Handled
  forward_to taken plain s none = record { server = s; out = to_tunnel plain; code = of_call }
  forward_to taken plain s (some k) =
      if not (entry s k).cur.valid
      then record { server = s; out = silent; code = minus_one }
      else seal_for taken k plain (tun_packet_max + overhead) s

  unfoldable pub forward_packet : Bool → List ℕ → ℕ → Server → Handled
  forward_packet taken plain dst s = forward_to taken plain s (find_by_ip s.clients dst)

  -- The address that an entry may send from, on the session that a packet came on.
  abbrev pub own_ip : Part → Client → ℕ
  own_ip on_cur d = d.ip
  own_ip on_next d = d.ip
  own_ip on_prev d = if d.prev_ip == 0 then d.ip else d.prev_ip

  -- Is `dst` another client's address?
  abbrev pub another : ℕ → Option ℕ → Bool
  another k none = false
  another k (some user) = not (user == k)

  -- The total over all clients, which is only shown, is not kept.
  abbrev pub isolate : ℕ → Server → Handled
  isolate k s =
      let d = entry s k in
      record {
        server = put_entry k (record d { isolation_drops = u64 (d.isolation_drops + 1) }) s;
        out = silent;
        code = all_well;
      }

  abbrev pub routed : Bool → Bool → ℕ → Part → List ℕ → Server → Option (List ℕ × List ℕ) → Handled
  routed isolation taken k part plain s none = record { server = s; out = silent; code = all_well }
  routed isolation taken k part plain s (some (src, dst)) =
      let own = own_ip part (entry s k) in
      let to = ip_of_bytes dst in
      if own == 0 || not (ip_of_bytes src == own)
      then record { server = s; out = silent; code = minus_one }
      else if isolation && another k (find_by_ip s.clients to)
      then isolate k s
      else forward_packet taken plain to s

  -- What is done with the text of an authenticated packet.
  unfoldable pub deliver : Bool → Bool → ℕ → Part → List ℕ → Server → Handled
  deliver isolation taken k part plain s =
      if length plain == 0
      then record (seal_for taken k [] overhead s) { code = all_well }
      else routed isolation taken k part plain s (ipv4_parse_endpoints plain)

  -- The client's first packet on the new session.
  abbrev pub promote : Memory → ℕ → ℕ → Part → Server → Server
  promote memory now k on_cur s = s
  promote memory now k on_prev s = s
  promote memory now k on_next s =
      let t = record s { clients = take_pending memory k (confirm now k s.clients) } in
      if (entry s k).pending_ip == 0
      then t
      else record t { leases = lease_drop (lease_by_ip t.leases (entry t k).ip) t.leases }

  abbrev pub is_udp : Option ℕ → Bool
  is_udp none = true
  is_udp (some fd) = false

  -- The peer's address and the counters of an authenticated packet.
  abbrev pub touch : Memory → ℕ → ℕ → ℕ → Option ℕ → Addr → Server → Server
  touch memory now k n fd from s =
      let moved = set_addr memory k from s.clients in
      let t =
        if is_udp fd && not (sockaddr_equal (entry s k).addr from) then moved else s.clients in
      let d = client_at t k in
      record s {
        clients =
            put_client k
              (record d {
                last_seen = now;
                last_data = now;
                rx_packets = u64 (d.rx_packets + 1);
                rx_bytes = u64 (d.rx_bytes + n);
              })
              t;
      }

  -- After the promotion the session is the current one.
  abbrev pub now_on : Part → Part
  now_on on_cur = on_cur
  now_on on_next = on_cur
  now_on on_prev = on_prev

  -- The state when the text of a packet is dealt with; `x` is the session that opened it.
  abbrev pub arrived : (ℕ → Memory) → ℕ → ℕ → Option ℕ → Addr → ℕ → Part → Session → Server → Server
  arrived memory now n fd from k part x s =
      touch (memory 1) now k n fd from
        (promote (memory 0) now k part (put_entry k (with_session part x (entry s k)) s))

  abbrev pub unsealed :
      (ℕ → Memory)
      → ℕ
      → Bool
      → Bool
      → Option ℕ
      → Addr
      → ℕ
      → Part
      → Server
      → Option (List ℕ) × Session
      → Handled
  unsealed memory now isolation taken fd from k part s (none, x) = record {
    server = put_entry k (with_session part x (entry s k)) s;
    out = silent;
    code = minus_one;
  }
  unsealed memory now isolation taken fd from k part s (some plain, x) =
      deliver isolation taken k (now_on part) plain
        (arrived memory now (length plain) fd from k part x s)

  -- A TCP session belongs to its connection.
  abbrev pub other_connection : Option ℕ → Option ℕ → Bool
  other_connection none own = false
  other_connection (some fd) none = true
  other_connection (some fd) (some own) = not (own == fd)

  abbrev pub received :
      (ℕ → Memory) → ℕ → Bool → Bool → Option ℕ → Addr → List ℕ → Server → Option Receiver → Handled
  received memory now isolation taken fd from pkt s none = record {
    server = s;
    out = silent;
    code = minus_one;
  }
  received memory now isolation taken fd from pkt s (some r) =
      let d = entry s r.slot in
      if other_connection fd d.tcp_fd
      then record { server = s; out = silent; code = minus_one }
      else unsealed memory now isolation taken fd from r.slot r.part s
          (session_open c (session_of r.part d) pkt tun_packet_max)

  -- `now` is `g_now`, `isolation` is `server_client_isolation()`, and `fd` is none for UDP.
  unfoldable pub handle_data :
      (ℕ → Memory) → ℕ → Bool → Bool → Option ℕ → Addr → List ℕ → Server → Handled
  handle_data memory now isolation taken fd from pkt s =
      received memory now isolation taken fd from pkt s (receiver now (data_receiver pkt) s)
