-- ===== src/Server/Clients/Scan.antt =====
-- The lookups by client ID and by peer address.
use camex.Base.{
  ℕ, ◌<◌, ◌≡◌, refl, ap₂, Bool, true, false, not, ◌&&◌, Option, none, List, [], ◌∷◌, ◌++◌, bytes_eq,
  if◌then◌else◌, if_elim, arith, le_bytes,
}
use camex.Slotidx.{find, hash_nocase, hash_bytes}
use camex.Slotidx.Scan.{find-first_match}
use camex.Server.Leases.{is_empty, same_name}
use camex.Server.Leases.Lookup.{hash-same_name}
use camex.Server.Clients.{
  Addr, sockaddr_equal, hash_addr, addr_is_set, Client, by_id, by_addr, Clients, client_at,
  max_clients, keys_of, key_if,
}
use camex.Server.Clients.Indexed.{In, client_keys}
use camex.Server.Clients.Resets.{IsTabled}
use camex.Server.Clients.Find.{
  match_ip, match_cur_ip, or_else, find_by_ip, find_by_ip-scan, match_id, match_addr,
  find_by_client_id, find_by_addr, scan_all, In-key_if,
}

key_same : (b : Bool) (h k : ℕ) → h ≡ k → b ≡ true → In k (key_if b h)
key_same b h k e t = rw (← e) (In-key_if b h t)

same_name-full : (a b : List ℕ) → same_name a b ≡ true → is_empty b ≡ false → is_empty a ≡ false
unfolding same_name bytes_eq
same_name-full [] [] m n = n
same_name-full [] (y ∷ b) m n = absurd (cc m)
same_name-full (x ∷ a) b m n = refl

id-In :
    (c : Client) (id : List ℕ)
    → is_empty id ≡ false
    → same_name c.id id ≡ true
    → In (hash_nocase id) (keys_of by_id c)
unfolding keys_of
id-In c id n m =
    key_same (not (is_empty c.id)) (hash_nocase c.id) (hash_nocase id) (hash-same_name c.id id m)
      (ground (arith, same_name-full c.id id m n))

match_id-keys :
    (s : Clients) (id : List ℕ) (slot : ℕ)
    → is_empty id ≡ false
    → match_id s id slot ≡ true
    → (slot < max_clients s) × client_keys by_id s.table (max_clients s) slot (hash_nocase id)
unfolding match_id
match_id-keys s id slot n m =
    let l : slot < max_clients s = ground (arith, m) in
    (l, (l, ground (arith, m), id-In (client_at s slot) id n (ground (arith, m))))

-- Whether or not the indexes are used, the client of an ID is the first active one of the table that
-- has it, in any case, and there is none for the empty ID.
pub find_by_client_id-scan :
    (s : Clients) (id : List ℕ)
    → IsTabled s
    → find_by_client_id s id ≡ (if is_empty id then none else scan_all s (match_id s id))
unfolding find_by_client_id
find_by_client_id-scan s id t =
    let scanned : Option ℕ = scan_all s (match_id s id) in
    let found : Option ℕ =
      if s.indexes.ok then find (match_id s id) s.indexes.id (hash_nocase id) else scanned in
    if_same (is_empty id) found scanned (λ n.
      if_elim (λ o. o ≡ scanned) s.indexes.ok (find (match_id s id) s.indexes.id (hash_nocase id))
        scanned
        (λ ok.
          find-first_match (client_keys by_id s.table (max_clients s)) (match_id s id) s.indexes.id
            (hash_nocase id) (max_clients s) (t.covers ok by_id)
            (λ slot. match_id-keys s id slot n))
        (λ _. refl))
  where
    if_same :
        (b : Bool) (x y : Option ℕ)
        → (b ≡ false → x ≡ y)
        → (if b then none else x) ≡ (if b then none else y)
    if_same true x y e = refl
    if_same false x y e = e refl

hash-sockaddr_equal : (a b : Addr) → sockaddr_equal a b ≡ true → hash_addr a ≡ hash_addr b
unfolding hash_addr sockaddr_equal
hash-sockaddr_equal a b m =
    let ips : a.ip ≡ b.ip = ground (arith, m) in
    let ports : a.port ≡ b.port = ground (arith, m) in
    ap₂ (λ i p. hash_bytes (le_bytes 4 0 i ++ le_bytes 2 0 p)) ips ports

set-sockaddr_equal :
    (a b : Addr) → sockaddr_equal a b ≡ true → addr_is_set b ≡ true → addr_is_set a ≡ true
unfolding addr_is_set sockaddr_equal
set-sockaddr_equal a b m n = ground (arith, m, n)

match_addr-keys :
    (s : Clients) (addr : Addr) (slot : ℕ)
    → addr_is_set addr ≡ true
    → match_addr s addr slot ≡ true
    → (slot < max_clients s) × client_keys by_addr s.table (max_clients s) slot (hash_addr addr)
unfolding match_addr keys_of
match_addr-keys s addr slot n m =
    let c : Client = client_at s slot in
    let l : slot < max_clients s = ground (arith, m) in
    let e : sockaddr_equal c.addr addr ≡ true = ground (arith, m) in
    (
      l,
      (
        l,
        ground (arith, m),
        key_same (addr_is_set c.addr) (hash_addr c.addr) (hash_addr addr)
            (hash-sockaddr_equal c.addr addr e) (set-sockaddr_equal c.addr addr e n),
      ),
    )

-- Whether or not the indexes are used, the client of a peer address is the first active one of the
-- table that has it.
pub find_by_addr-scan :
    (s : Clients) (addr : Addr) → IsTabled s → find_by_addr s addr ≡ scan_all s (match_addr s addr)
unfolding find_by_addr
find_by_addr-scan s addr t =
    let scanned : Option ℕ = scan_all s (match_addr s addr) in
    if_elim (λ o. o ≡ scanned) (s.indexes.ok && addr_is_set addr)
      (find (match_addr s addr) s.indexes.addr (hash_addr addr)) scanned
      (λ both.
        find-first_match (client_keys by_addr s.table (max_clients s)) (match_addr s addr)
          s.indexes.addr (hash_addr addr) (max_clients s) (t.covers (ground (arith, both)) by_addr)
          (λ slot. match_addr-keys s addr slot (ground (arith, both))))
      (λ _. refl)

-- Whether or not the indexes are used: the client of an address is the first one of the table whose
-- current address it is, and otherwise the first one that holds it as a pending address or as that of
-- a previous session that is still valid; the client of an ID that is not empty is the first active one
-- with that ID, in any case; and the client of a peer address is the first active one that has it.
pub find-scan :
    (s : Clients)
    → IsTabled s
    → ((ip : ℕ)
        → find_by_ip s ip ≡ or_else (scan_all s (match_cur_ip s ip)) (scan_all s (match_ip s ip)))
      × ((id : List ℕ)
          → find_by_client_id s id ≡ (if is_empty id then none else scan_all s (match_id s id)))
      × ((addr : Addr) → find_by_addr s addr ≡ scan_all s (match_addr s addr))
find-scan s t = (
  λ ip. find_by_ip-scan s ip t,
  λ id. find_by_client_id-scan s id t,
  λ addr. find_by_addr-scan s addr t,
)
