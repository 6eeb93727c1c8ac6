-- ===== src/Server/Steps/Operations.antt =====
-- The whole operations of src/server.c on its tables keep them well formed.
use camex.Base.{ℕ, Bool, Option, List}
use camex.Crypto.{Crypto}
use camex.Server.Leases.{Memory, Clock}
use camex.Server.Clients.{Addr}
use camex.Server.Entries.{Config, Server, alloc_client, expire_clients}
use camex.Server.Entries.Take.{auto_pool_take}
use camex.Server.Reload.{revalidate_unknown_clients, revalidate_keys, revalidate_profile_addresses}
use camex.Server.Data.{handle_data, forward_packet}
use camex.Server.Steps.{Reached, IsServer}
use camex.Server.Steps.Paths.{
  alloc_client-Reached, auto_pool_take-Reached, expire_clients-Reached, revalidate-Reached,
}
use camex.Server.Steps.Slots.{keeps}
use camex.Server.Steps.Packets.{forward_packet-Reached, handle_data-Reached}

-- What the tables are after each operation on the state `s`.
pub record KeepsServer (c : Crypto) (m : ℕ → ℕ → Memory) (g : Config) (clock : Clock)
    (holding isolation taken : Bool) (k : ℕ) (fd : Option ℕ) (from : Addr) (bytes : List ℕ)
    (s : Server) : Type 0 where
  pub allocated : IsServer (alloc_client (m 0) g clock holding s).server
  pub taken_from_pool : IsServer (auto_pool_take g clock k s).server
  pub expired_all : IsServer (expire_clients m g clock s)
  pub checked_ids : IsServer (revalidate_unknown_clients m g clock s)
  pub checked_keys : IsServer (revalidate_keys m g clock s)
  pub checked_addresses : IsServer (revalidate_profile_addresses g s)
  pub forwarded : IsServer (forward_packet c taken bytes k s).server
  pub handled : IsServer (handle_data c (m 0) clock.now isolation taken fd from bytes s).server

-- An allocation of an entry, a walk of the pool, an expiry, the checks of IDs, keys and addresses after
-- a reload, a packet that is forwarded and a DATA packet that arrives: each keeps the tables of the
-- server well formed, whatever its arguments and whatever its allocations find.
pub operations-KeepsServer :
    (c : Crypto) (m : ℕ → ℕ → Memory) (g : Config) (clock : Clock) (holding isolation taken : Bool)
    (k : ℕ) (fd : Option ℕ) (from : Addr) (bytes : List ℕ) (s : Server)
    → IsServer s
    → KeepsServer c m g clock holding isolation taken k fd from bytes s
operations-KeepsServer c m g clock holding isolation taken k fd from bytes s i =
    let checks = revalidate-Reached m g clock s in
    record {
      allocated = after _ (alloc_client-Reached (m 0) g clock holding s);
      taken_from_pool = after _ (auto_pool_take-Reached g clock k s);
      expired_all = after _ (expire_clients-Reached m g clock s);
      checked_ids = after _ checks.0;
      checked_keys = after _ checks.1;
      checked_addresses = after _ checks.2;
      forwarded = after _ (forward_packet-Reached c taken bytes k s i);
      handled = after _ (handle_data-Reached c (m 0) clock.now isolation taken fd from bytes s i);
    }
  where
    after : (t : Server) → Reached s t → IsServer t
    after t r = (keeps s t i r).0
