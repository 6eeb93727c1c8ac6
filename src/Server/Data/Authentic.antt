-- ===== src/Server/Data/Authentic.antt =====
-- What the server writes to its tunnel interface.
use camex.Base.{
  ℕ, ◌+◌, ◌≡◌, ◌≢◌, refl, Bool, false, not, ◌&&◌, ◌||◌, Option, none, some, List, [], length, ◌==◌,
  if_elim, arith,
}
use camex.Crypto.{Crypto}
use camex.Session.Wire.{data_receiver, overhead}
use camex.Session.Transport.{Session, session_open}
use camex.Net.Send.{tun_packet_max}
use camex.Util.{ipv4_parse_endpoints}
use camex.Server.Leases.{Memory}
use camex.Server.Clients.{Addr}
use camex.Server.Clients.Find.{find_by_ip}
use camex.Server.Entries.{Server, entry}
use camex.Server.Data.{
  Part, session_of, Receiver, receiver, silent, minus_one, all_well, to_tunnel, Handled,
  ip_of_bytes, sealed, seal_for, forward_to, forward_packet, own_ip, another, isolate, routed,
  deliver, now_on, arrived, unsealed, other_connection, received, handle_data,
}

-- The text may come from the entry, on this session, and is for no client.
pub record IsRouted (c : Crypto) (k : ℕ) (part : Part) (plain : List ℕ) (s : Server) : Type 0 where
  pub src : List ℕ
  pub dst : List ℕ
  pub ends : ipv4_parse_endpoints plain ≡ some (src, dst)
  pub own : ip_of_bytes src ≡ own_ip c part (entry s k)
  pub given : ip_of_bytes src ≢ 0
  pub no_client : find_by_ip s.clients (ip_of_bytes dst) ≡ none

-- The packet that carried it.
pub record IsAuthentic (c : Crypto) (memory : ℕ → Memory) (now : ℕ) (fd : Option ℕ) (from : Addr)
    (pkt : List ℕ) (s : Server) (plain : List ℕ) : Type 0 where
  pub slot : ℕ
  pub part : Part
  pub after : Session
  pub named : receiver now (data_receiver pkt) s ≡ some (record { slot = slot; part = part })
  pub same_connection : other_connection c fd (entry s slot).tcp_fd ≡ false
  pub authentic :
      session_open c (session_of part (entry s slot)) pkt tun_packet_max ≡ (some plain, after)
  pub routed_to :
      IsRouted c slot
        (now_on c part)
        plain
        (arrived c memory now (length plain) fd from slot part after s)

-- If text goes to the tunnel, then `P` holds of it.
abbrev Writes : (List ℕ → Type 0) → Handled → Type 0
Writes P h = (p : List ℕ) → h.out ≡ to_tunnel p → P p

module _ (c : Crypto) where
  sealed-Writes :
      (P : List ℕ → Type 0) (taken : Bool) (k n : ℕ) (s : Server) (o : Option (List ℕ) × Session)
      → Writes P (sealed c taken k n s o)
  sealed-Writes P taken k n s (none, x) p e = absurd (cc e)
  sealed-Writes P taken k n s (some pkt, x) p e = absurd (cc e)

  forward_to-Writes :
      (taken : Bool) (plain : List ℕ) (s : Server) (o : Option ℕ)
      → Writes (λ p. (p ≡ plain) × (o ≡ none)) (forward_to c taken plain s o)
  forward_to-Writes taken plain s none = λ p e. let same : p ≡ plain = cc e in (same, refl)
  forward_to-Writes taken plain s (some k) =
      let P : List ℕ → Type 0 = λ p. (p ≡ plain) × (some k ≡ none) in
      if_elim (Writes P) (not (entry s k).cur.valid)
        (record { server = s; out = silent; code = minus_one })
        (seal_for c taken k plain (tun_packet_max + overhead) s) (λ _ p e. absurd (cc e))
        (λ _. sealed-Writes P taken k (length plain) s _)

  routed-Writes :
      (isolation taken : Bool) (k : ℕ) (part : Part) (plain : List ℕ) (s : Server)
      (o : Option (List ℕ × List ℕ))
      → ipv4_parse_endpoints plain ≡ o
      → Writes
          (λ p. (p ≡ plain) × IsRouted c k part plain s)
          (routed c isolation taken k part plain s o)
  unfolding forward_packet
  routed-Writes isolation taken k part plain s none ends = λ p e. absurd (cc e)
  routed-Writes isolation taken k part plain s (some (src, dst)) ends =
      let own : ℕ = own_ip c part (entry s k) in
      let to : ℕ = ip_of_bytes dst in
      let P : List ℕ → Type 0 = λ p. (p ≡ plain) × IsRouted c k part plain s in
      if_elim (Writes P) (own == 0 || not (ip_of_bytes src == own))
        (record { server = s; out = silent; code = minus_one }) _ (λ _ p e. absurd (cc e))
        (λ ok.
          if_elim (Writes P) (isolation && another c k (find_by_ip s.clients to)) (isolate c k s)
            (forward_to c taken plain s (find_by_ip s.clients to)) (λ _ p e. absurd (cc e))
            (λ _ p e.
              let (same, free) = forward_to-Writes taken plain s (find_by_ip s.clients to) p e in
              (
                same,
                record {
                  src = src;
                  dst = dst;
                  ends = ends;
                  own = ground (arith, ok);
                  given = ground (arith, ok);
                  no_client = free;
                },
              )))

  deliver-Writes :
      (isolation taken : Bool) (k : ℕ) (part : Part) (plain : List ℕ) (s : Server)
      → Writes
          (λ p. (p ≡ plain) × IsRouted c k part plain s)
          (deliver c isolation taken k part plain s)
  unfolding deliver
  deliver-Writes isolation taken k part plain s =
      let P : List ℕ → Type 0 = λ p. (p ≡ plain) × IsRouted c k part plain s in
      if_elim (Writes P) (length plain == 0)
        (record (seal_for c taken k [] overhead s) { code = all_well })
        (routed c isolation taken k part plain s (ipv4_parse_endpoints plain))
        (λ _. sealed-Writes P taken k 0 s _)
        (λ _. routed-Writes isolation taken k part plain s (ipv4_parse_endpoints plain) refl)

  module _ (memory : ℕ → Memory) (now : ℕ) (isolation taken : Bool) (fd : Option ℕ) (from : Addr)
      (pkt : List ℕ) (s : Server) where
    abbrev Good : List ℕ → Type 0
    Good = IsAuthentic c memory now fd from pkt s

    unsealed-Writes :
        (k : ℕ) (part : Part) (o : Option (List ℕ) × Session)
        → receiver now (data_receiver pkt) s ≡ some (record { slot = k; part = part })
        → other_connection c fd (entry s k).tcp_fd ≡ false
        → session_open c (session_of part (entry s k)) pkt tun_packet_max ≡ o
        → Writes Good (unsealed c memory now isolation taken fd from k part s o)
    unsealed-Writes k part (none, x) r f e p q = absurd (cc q)
    unsealed-Writes k part (some plain, x) r f e p q =
        let u : Server = arrived c memory now (length plain) fd from k part x s in
        let (same, way) = deliver-Writes isolation taken k (now_on c part) plain u p q in
        rw same (record {
          slot = k;
          part = part;
          after = x;
          named = r;
          same_connection = f;
          authentic = e;
          routed_to = way;
        })

    received-Writes :
        (o : Option Receiver)
        → receiver now (data_receiver pkt) s ≡ o
        → Writes Good (received c memory now isolation taken fd from pkt s o)
    received-Writes none r = λ p e. absurd (cc e)
    received-Writes (some w) r =
        if_elim (Writes Good) (other_connection c fd (entry s w.slot).tcp_fd)
          (record { server = s; out = silent; code = minus_one })
          (unsealed c memory now isolation taken fd from w.slot w.part s
            (session_open c (session_of w.part (entry s w.slot)) pkt tun_packet_max))
          (λ _ p e. absurd (cc e)) (λ f. unsealed-Writes w.slot w.part _ r f refl)

-- What a DATA packet makes the server write to its tunnel interface is the text that the session opened
-- which the packet's index names, on the connection of that client; its source address is the one that
-- the client has on that session, and not zero; and its destination is no client's address.
pub handle_data-IsAuthentic :
    (c : Crypto) (memory : ℕ → Memory) (now : ℕ) (isolation taken : Bool) (fd : Option ℕ)
    (from : Addr) (pkt : List ℕ) (s : Server) (plain : List ℕ)
    → (handle_data c memory now isolation taken fd from pkt s).out ≡ to_tunnel plain
    → IsAuthentic c memory now fd from pkt s plain
unfolding handle_data
handle_data-IsAuthentic c memory now isolation taken fd from pkt s plain e =
    received-Writes c memory now isolation taken fd from pkt s (receiver now (data_receiver pkt) s)
      refl plain e
