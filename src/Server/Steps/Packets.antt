-- ===== src/Server/Steps/Packets.antt =====
-- `server_handle_data` and `server_forward_packet` of src/server.c as sequences of steps.
use camex.Base.{
  ℕ, ◌+◌, ◌<◌, ◌≡◌, refl, inr, Bool, true, false, not, ◌&&◌, ◌||◌, Option, none, some, List, [],
  length, take, drop, ◌==◌, if◌then◌else◌, if_elim, arith, u64,
}
use camex.Crypto.{Crypto}
use camex.Noise.Cipher.{noise_decrypt}
use camex.Session.Wire.{overhead, data_receiver, data_hdr, read_le64}
use camex.Session.Replay.{replay_check, replay_record}
use camex.Session.Transport.{Session, not_ours, open_body, session_open}
use camex.Net.Send.{tun_packet_max}
use camex.Util.{ipv4_parse_endpoints}
use camex.Server.Leases.{Memory, lease_by_ip, lease_drop}
use camex.Server.Clients.{Addr, sockaddr_equal, Client, Clients, client_at, max_clients, put_client}
use camex.Server.Clients.Find.{find_by_ip}
use camex.Server.Clients.Set.{set_addr, confirm, take_pending}
use camex.Server.Entries.{Server, entry}
use camex.Server.Data.{
  Part, on_cur, on_next, on_prev, session_of, with_session, Receiver, receiver, Handled, silent,
  minus_one, all_well, put_entry, sent, sealed, seal_for, forward_to, forward_packet, own_ip,
  ip_of_bytes, another, isolate, routed, deliver, promote, touch, is_udp, now_on, arrived, unsealed,
  other_connection, received, handle_data,
}
use camex.Server.Steps.{
  addr_set, confirmed, pending_taken, updated, lease_dropped, with_clients, IsUpdate, Reached,
  begin, then_step, IsServer,
}
use camex.Server.Steps.Paths.{onwards}
use camex.Server.Steps.Slots.{keeps, find_by_ip-inside, receiver-inside}

with_session-IsUpdate :
    (part : Part) (x : Session) (c : Client)
    → x.valid ≡ (session_of part c).valid
    → IsUpdate c (with_session part x c)
with_session-IsUpdate on_cur x c v = record {
  active = refl;
  id = refl;
  addr = refl;
  ip = refl;
  pending_ip = inr refl;
  prev_ip = inr (refl, refl);
}
with_session-IsUpdate on_next x c v = record {
  active = refl;
  id = refl;
  addr = refl;
  ip = refl;
  pending_ip = inr refl;
  prev_ip = inr (refl, refl);
}
with_session-IsUpdate on_prev x c v = record {
  active = refl;
  id = refl;
  addr = refl;
  ip = refl;
  pending_ip = inr refl;
  prev_ip = inr (refl, v);
}

sent-IsUpdate :
    (taken : Bool) (n : ℕ) (x : Session) (c : Client)
    → IsUpdate c (if taken then sent n (record c { cur = x }) else record c { cur = x })
sent-IsUpdate true n x c = record {
  active = refl;
  id = refl;
  addr = refl;
  ip = refl;
  pending_ip = inr refl;
  prev_ip = inr (refl, refl);
}
sent-IsUpdate false n x c = record {
  active = refl;
  id = refl;
  addr = refl;
  ip = refl;
  pending_ip = inr refl;
  prev_ip = inr (refl, refl);
}

module _ (c : Crypto) where
  abbrev opened : Session → ℕ → Option (List ℕ) → Option (List ℕ) × Session
  opened x n none = (none, x)
  opened x n (some plain) = (some plain, record x { replay = replay_record x.replay n })

  opened-valid : (x : Session) (n : ℕ) (o : Option (List ℕ)) → (opened x n o).1.valid ≡ x.valid
  opened-valid x n none = refl
  opened-valid x n (some plain) = refl

  session_open-valid :
      (x : Session) (pkt : List ℕ) (size : ℕ) → (session_open c x pkt size).1.valid ≡ x.valid
  unfolding session_open open_body
  session_open-valid x pkt size =
      let P : Option (List ℕ) × Session → Type 0 = λ r. r.1.valid ≡ x.valid in
      let n : ℕ = read_le64 (drop 9 pkt) in
      let o : Option (List ℕ) =
        noise_decrypt c x.k_recv n (take data_hdr pkt) (drop data_hdr pkt) in
      if_elim P (not_ours x pkt size) (none, x) (open_body c x pkt n) (λ _. refl)
        (λ _.
          if_elim P (not (replay_check x.replay n)) (none, x) (opened x n o) (λ _. refl)
            (λ _. opened-valid x n o))

  sealed-Reached :
      (taken : Bool) (k n : ℕ) (s : Server) (o : Option (List ℕ) × Session)
      → k < max_clients s.clients
      → Reached s (sealed c taken k n s o).server
  sealed-Reached taken k n s (none, x) l =
      then_step begin (updated k _ l (sent-IsUpdate false n x (entry s k)))
  sealed-Reached taken k n s (some pkt, x) l =
      then_step begin (updated k _ l (sent-IsUpdate taken n x (entry s k)))

  forward_to-Reached :
      (taken : Bool) (plain : List ℕ) (s : Server) (o : Option ℕ)
      → ((k : ℕ) → o ≡ some k → k < max_clients s.clients)
      → Reached s (forward_to c taken plain s o).server
  forward_to-Reached taken plain s none l = begin
  forward_to-Reached taken plain s (some k) l =
      if_elim (λ (h : Handled). Reached s h.server) (not (entry s k).cur.valid)
        (record { server = s; out = silent; code = minus_one })
        (seal_for c taken k plain (tun_packet_max + overhead) s) (λ _. begin)
        (λ _. sealed-Reached taken k (length plain) s _ (l k refl))

  -- `server_forward_packet` is made of steps.
  pub forward_packet-Reached :
      (taken : Bool) (plain : List ℕ) (dst : ℕ) (s : Server)
      → IsServer s
      → Reached s (forward_packet c taken plain dst s).server
  unfolding forward_packet
  forward_packet-Reached taken plain dst s i =
      forward_to-Reached taken plain s (find_by_ip s.clients dst)
        (λ k e. find_by_ip-inside s.clients dst k i.clients e)

  isolate-Reached :
      (k : ℕ) (s : Server) → k < max_clients s.clients → Reached s (isolate c k s).server
  isolate-Reached k s l = then_step begin (
      updated k _ l (record {
        active = refl;
        id = refl;
        addr = refl;
        ip = refl;
        pending_ip = inr refl;
        prev_ip = inr (refl, refl);
      }))

  routed-Reached :
      (isolation taken : Bool) (k : ℕ) (part : Part) (plain : List ℕ) (s : Server)
      (o : Option (List ℕ × List ℕ))
      → IsServer s
      → k < max_clients s.clients
      → Reached s (routed c isolation taken k part plain s o).server
  routed-Reached isolation taken k part plain s none i l = begin
  routed-Reached isolation taken k part plain s (some (src, dst)) i l =
      let own : ℕ = own_ip c part (entry s k) in
      let to : ℕ = ip_of_bytes dst in
      let other : Bool = isolation && another c k (find_by_ip s.clients to) in
      let P : Handled → Type 0 = λ h. Reached s h.server in
      if_elim P (own == 0 || not (ip_of_bytes src == own))
        (record { server = s; out = silent; code = minus_one })
        (if other then isolate c k s else forward_packet c taken plain to s) (λ _. begin)
        (λ _.
          if_elim P other (isolate c k s) (forward_packet c taken plain to s)
            (λ _. isolate-Reached k s l) (λ _. forward_packet-Reached taken plain to s i))

  deliver-Reached :
      (isolation taken : Bool) (k : ℕ) (part : Part) (plain : List ℕ) (s : Server)
      → IsServer s
      → k < max_clients s.clients
      → Reached s (deliver c isolation taken k part plain s).server
  unfolding deliver
  deliver-Reached isolation taken k part plain s i l =
      if_elim (λ (h : Handled). Reached s h.server) (length plain == 0)
        (record (seal_for c taken k [] overhead s) { code = all_well })
        (routed c isolation taken k part plain s (ipv4_parse_endpoints plain))
        (λ _. sealed-Reached taken k 0 s _ l)
        (λ _. routed-Reached isolation taken k part plain s (ipv4_parse_endpoints plain) i l)

  promote-Reached :
      (m : Memory) (now k : ℕ) (part : Part) (s : Server)
      → IsServer s
      → k < max_clients s.clients
      → Reached s (promote c m now k part s)
  promote-Reached m now k on_cur s i l = begin
  promote-Reached m now k on_prev s i l = begin
  promote-Reached m now k on_next s i l =
      let a : Server = with_clients s (confirm now k s.clients) in
      let r : Reached s a = then_step begin (confirmed now k l) in
      let t : Server = with_clients s (take_pending m k (confirm now k s.clients)) in
      let q : Reached s t = then_step r (pending_taken m k (omega (arith, l, (keeps s a i r).1))) in
      if_elim (Reached s) ((entry s k).pending_ip == 0) t
        (record t { leases = lease_drop (lease_by_ip t.leases (entry t k).ip) t.leases }) (λ _. q)
        (λ _. then_step q (lease_dropped (lease_by_ip t.leases (entry t k).ip)))

  touch-Reached :
      (m : Memory) (now k n : ℕ) (fd : Option ℕ) (from : Addr) (s : Server)
      → IsServer s
      → k < max_clients s.clients
      → Reached s (touch c m now k n fd from s)
  touch-Reached m now k n fd from s i l =
      let moved : Clients = set_addr m k from s.clients in
      let counted : Clients → Server = λ t. with_clients s (
        put_client k
          (record (client_at t k) {
            last_seen = now;
            last_data = now;
            rx_packets = u64 ((client_at t k).rx_packets + 1);
            rx_bytes = u64 ((client_at t k).rx_bytes + n);
          })
          t) in
      let r : Reached s (with_clients s moved) = then_step begin (addr_set m k from l) in
      if_elim (λ t. Reached s (counted t))
        (is_udp c fd && not (sockaddr_equal (entry s k).addr from)) moved s.clients
        (λ _. then_step r (
          updated k _ (omega (arith, l, (keeps s _ i r).1)) (record {
            active = refl;
            id = refl;
            addr = refl;
            ip = refl;
            pending_ip = inr refl;
            prev_ip = inr (refl, refl);
          })))
        (λ _. then_step begin (
          updated k _ l (record {
            active = refl;
            id = refl;
            addr = refl;
            ip = refl;
            pending_ip = inr refl;
            prev_ip = inr (refl, refl);
          })))

  -- An authenticated packet, up to its text.
  arrived-Reached :
      (m : ℕ → Memory) (now n : ℕ) (fd : Option ℕ) (from : Addr) (k : ℕ) (part : Part) (x : Session)
      (s : Server)
      → IsServer s
      → k < max_clients s.clients
      → x.valid ≡ (session_of part (entry s k)).valid
      → Reached s (arrived c m now n fd from k part x s)
  arrived-Reached m now n fd from k part x s i l v =
      let a : Server = put_entry k (with_session part x (entry s k)) s in
      let r : Reached s a =
        then_step begin (updated k _ l (with_session-IsUpdate part x (entry s k) v)) in
      let (ia, ea) = keeps s a i r in
      let la : k < max_clients a.clients = omega (arith, l, ea) in
      let b : Server = promote c (m 0) now k part a in
      let q : Reached a b = promote-Reached (m 0) now k part a ia la in
      let (ib, eb) = keeps a b ia q in
      onwards s a _ r
        (onwards a b _ q (touch-Reached (m 1) now k n fd from b ib (omega (arith, la, eb))))

  module _ (m : ℕ → Memory) (now : ℕ) (isolation taken : Bool) (fd : Option ℕ) (from : Addr) where
    unsealed-Reached :
        (k : ℕ) (part : Part) (s : Server) (o : Option (List ℕ) × Session)
        → IsServer s
        → k < max_clients s.clients
        → o.1.valid ≡ (session_of part (entry s k)).valid
        → Reached s (unsealed c m now isolation taken fd from k part s o).server
    unsealed-Reached k part s (none, x) i l v =
        then_step begin (updated k _ l (with_session-IsUpdate part x (entry s k) v))
    unsealed-Reached k part s (some plain, x) i l v =
        let t : Server = arrived c m now (length plain) fd from k part x s in
        let r : Reached s t = arrived-Reached m now (length plain) fd from k part x s i l v in
        let (it, et) = keeps s t i r in
        onwards s t _ r
          (deliver-Reached isolation taken k (now_on c part) plain t it (omega (arith, l, et)))

    received-Reached :
        (pkt : List ℕ) (s : Server) (o : Option Receiver)
        → IsServer s
        → ((r : Receiver) → o ≡ some r → r.slot < max_clients s.clients)
        → Reached s (received c m now isolation taken fd from pkt s o).server
    received-Reached pkt s none i l = begin
    received-Reached pkt s (some r) i l =
        let x : Session = session_of r.part (entry s r.slot) in
        if_elim (λ (h : Handled). Reached s h.server)
          (other_connection c fd (entry s r.slot).tcp_fd)
          (record { server = s; out = silent; code = minus_one })
          (unsealed c m now isolation taken fd from r.slot r.part s
            (session_open c x pkt tun_packet_max))
          (λ _. begin)
          (λ _.
            unsealed-Reached r.slot r.part s (session_open c x pkt tun_packet_max) i (l r refl)
              (session_open-valid x pkt tun_packet_max))

    -- `server_handle_data` is made of steps.
    pub handle_data-Reached :
        (pkt : List ℕ) (s : Server)
        → IsServer s
        → Reached s (handle_data c m now isolation taken fd from pkt s).server
    unfolding handle_data
    handle_data-Reached pkt s i =
        received-Reached pkt s (receiver now (data_receiver pkt) s) i
          (λ r e. receiver-inside now (data_receiver pkt) s r e)
