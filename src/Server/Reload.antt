-- ===== src/Server/Reload.antt =====
-- What src/server.c does to the live sessions after a reload of the configuration, and which key may
-- claim which ID and address. The text of an address is given as what `inet_pton` reads from it.
pub mod Checked
pub mod Claim
use camex.Base.{
  ℕ, zero, suc, ◌+◌, ◌-◌, ◌≤◌, ◌<◌, ◌≡◌, ◌≢◌, refl, sym, ap, ◌∙◌, ◌⊎◌, inl, inr, Bool, true, false,
  not, ◌&&◌, ◌||◌, Option, none, some, List, [], ◌∷◌, length, take, ◌==◌, if◌then◌else◌,
}
use camex.Session.Transport.{wiped}
use camex.Server.Leases.{Memory, Clock, is_empty, same_name, id_max}
use camex.Server.Clients.{Client, Clients, client_at, max_clients, put_client}
use camex.Server.Clients.Set.{drop_entry}
use camex.Server.Entries.{Config, Server, entry, end_client}

-- `for (i = 0; i < server_max_clients; ++i)`, with one step for each entry.
unfoldable pub sweep : (ℕ → Server → Server) → ℕ → ℕ → Server → Server
sweep step zero k s = s
sweep step (suc rounds) k s = sweep step rounds (k + 1) (step k s)

abbrev pub over_all : (ℕ → Server → Server) → Server → Server
over_all step s = sweep step (max_clients s.clients) 0 s

abbrev pub drop_at : ℕ → Server → Server
drop_at k s = record s { clients = drop_entry k s.clients }

-- One turn of `server_revalidate_unknown_clients`.
unfoldable pub check_known : (ℕ → ℕ → Memory) → Config → Clock → ℕ → Server → Server
check_known memory g clock k s =
    let c = entry s k in
    if not c.active || not c.auto_client || g.known_id c.id
    then s
    else end_client (memory k) g clock k s

unfoldable pub revalidate_unknown_clients : (ℕ → ℕ → Memory) → Config → Clock → Server → Server
revalidate_unknown_clients memory g clock s =
    if not g.deny_unknown then s else over_all (check_known memory g clock) s

-- Is the key that the entry registered with still allowed?
unfoldable pub key_allowed : Config → Client → Bool
key_allowed g c =
    g.key_contains c.psk_key
    && (if is_empty c.id
        then g.key_global c.psk_key
        else g.key_owned_by c.psk_key c.id
          || (is_empty (g.key_owner c.psk_key) && not (g.has_owner c.id)))

-- One turn of `server_revalidate_keys`.
unfoldable pub check_key : (ℕ → ℕ → Memory) → Config → Clock → ℕ → Server → Server
check_key memory g clock k s =
    let c = entry s k in
    if not c.active || not c.registered
    then s
    else if key_allowed g c
    then s
    else end_client (memory k) g clock k s

unfoldable pub revalidate_keys : (ℕ → ℕ → Memory) → Config → Clock → Server → Server
revalidate_keys memory g clock s = over_all (check_key memory g clock) s

-- Does the address belong to the profile of another client?
abbrev pub foreign : Option (List ℕ) → List ℕ → Bool
foreign none id = false
foreign (some owner) id = not (same_name owner id)

-- One turn of `server_revalidate_profile_addresses`: the pending address first.
unfoldable pub withdraw : Config → Client → Client
withdraw g c =
    if not (c.pending_ip == 0) && foreign (g.owner_of_ip c.pending_ip) c.id
    then record c { pending_ip = 0; next = wiped }
    else c

unfoldable pub check_address : Config → ℕ → Server → Server
check_address g k s =
    let c = entry s k in
    let t = record s { clients = put_client k (withdraw g c) s.clients } in
    if not c.active || not c.registered
    then s
    else if not (foreign (g.owner_of_ip c.ip) c.id) || (not c.auto_client && is_empty c.id)
    then t
    else drop_at k t

unfoldable pub revalidate_profile_addresses : Config → Server → Server
revalidate_profile_addresses g s = over_all (check_address g) s

-- `server_register_allowed`: the client ID afterwards, or `none` for the -1. `size` is that of the
-- buffer of the ID.
abbrev pub claimed_id : Config → List ℕ → List ℕ → ℕ → List ℕ
claimed_id g key id size =
    let owner = g.key_owner key in
    if is_empty id && not (is_empty owner) then take (size - 1) owner else id

abbrev pub differs : Option ℕ → ℕ → Bool
differs none a = false
differs (some want) a = not (want == a)

abbrev pub reserved : Config → Option (List ℕ) → List ℕ → Bool
reserved g none id = false
reserved g (some owner) id = not (same_name owner id) && g.has_owner owner

-- The address that a client claims for itself.
abbrev pub claims : Config → List ℕ → Option ℕ → Option (List ℕ)
claims g id none = none
claims g id (some a) =
    if not (is_empty id) && differs (g.profile_ip id) a
    then none
    else if reserved g (g.owner_of_ip a) id
    then none
    else some id

unfoldable pub register_allowed : Config → List ℕ → List ℕ → ℕ → Option ℕ → Bool → Option (List ℕ)
register_allowed g key id size address auto =
    let new = claimed_id g key id size in
    let global = is_empty (g.key_owner key) in
    if not (is_empty new) && not (g.key_owned_by key new) && (not global || g.has_owner new)
    then none
    else if auto
    then some new
    else claims g new address

pub is_empty-nil : (t : List ℕ) → is_empty t ≡ true → t ≡ []
is_empty-nil [] e = refl
is_empty-nil (x ∷ t) e = absurd (cc e)

pub nil-is_empty : (t : List ℕ) → t ≡ [] → is_empty t ≡ true
nil-is_empty [] e = refl
nil-is_empty (x ∷ t) e = absurd (cc e)
