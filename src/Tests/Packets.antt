-- ===== src/Tests/Packets.antt =====
-- A DATA packet through the server with the toy cipher suite.
use camex.Base.{ℕ, ◌≡◌, refl, Bool, true, false, Option, none, some, List, [], ◌∷◌, ◌++◌, replicate}
use camex.Tests.Toy.{toy}
use camex.Session.Transport.{Session, session_init, session_seal}
use camex.Server.Leases.{Memory}
use camex.Server.Leases.Start.{fresh_leases}
use camex.Server.Clients.{Addr, no_addr, Client, no_client, Indexes, Clients}
use camex.Slotidx.{no_table}
use camex.Server.Entries.{Server}
use camex.Server.Data.{handle_data, to_tunnel}
use camex.Server.Data.Authentic.{IsAuthentic, handle_data-IsAuthentic}

abbrev key_one : List ℕ
key_one = replicate 32 1

abbrev key_two : List ℕ
key_two = replicate 32 2

-- An IPv4 header from 10.0.0.2 to 10.0.0.1.
abbrev tunnel_packet : List ℕ
tunnel_packet = (69 ∷ replicate 11 0) ++ (10 ∷ 0 ∷ 0 ∷ 2 ∷ 10 ∷ 0 ∷ 0 ∷ 1 ∷ [])

abbrev text_of : Option (List ℕ) × Session → List ℕ
text_of (none, x) = []
text_of (some pkt, x) = pkt

abbrev data_packet : List ℕ
data_packet = text_of (session_seal toy (session_init 2 1 key_two key_one 0) tunnel_packet 100)

abbrev one_client : Server
one_client = record {
  clients = record {
    table =
        record no_client { active = true; ip = 33554442; cur = session_init 1 2 key_one key_two 0 }
        ∷ [];
    alloc_next = 0;
    indexes = record { ip = no_table; id = no_table; addr = no_table; ok = false };
  };
  leases = fresh_leases [];
  auto_pool_next = 0;
  pool_full_at = 0;
  pool_full = record { net = 0; prefix = 0 };
  last_expire_check = 0;
}

abbrev enough : ℕ → Memory
enough n i = true

written :
    (handle_data toy enough 5 false true none no_addr data_packet one_client).out
    ≡ to_tunnel tunnel_packet
unfolding handle_data camex.Server.Data.receiver camex.Session.Wire.data_receiver
    camex.Session.Wire.read_u32 session_seal session_init camex.Session.Wire.write_u32
    camex.Server.Data.part_of camex.Session.Transport.session_open camex.Session.Wire.packet_type
    camex.Session.Wire.write_le64 camex.Base.le_bytes camex.Noise.Cipher.noise_encrypt
    camex.Base.bytes_eq camex.Session.Transport.open_body camex.Session.Replay.replay_check
    camex.Session.Wire.read_le64 camex.Session.Wire.read_le64_loop camex.Noise.Cipher.noise_decrypt
    camex.Noise.Cipher.make_nonce camex.Session.Replay.replay_record camex.Server.Data.deliver
    camex.Util.ipv4_parse_endpoints camex.Server.Clients.Find.find_by_ip
    camex.Slotidx.Scan.first_match camex.Server.Clients.Find.match_ip
    camex.Server.Clients.Find.match_cur_ip camex.Server.Data.forward_packet
    camex.Server.Clients.Set.set_addr camex.Server.Clients.sockaddr_equal
written = refl

handle_data-IsAuthentic_example :
    IsAuthentic toy enough 5 none no_addr data_packet one_client tunnel_packet
handle_data-IsAuthentic_example =
    handle_data-IsAuthentic toy enough 5 false true none no_addr data_packet one_client
      tunnel_packet written
