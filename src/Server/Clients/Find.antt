-- ===== src/Server/Clients/Find.antt =====
-- Finding the client of an address, an ID or a peer: through the indexes it is what a scan of the table
-- finds.
use camex.Base.{
  ℕ, ◌<◌, ◌≡◌, ◌≢◌, refl, ap₂, ◌⊎◌, inl, inr, Bool, true, false, not, ◌&&◌, ◌||◌, Option, none,
  some, List, [], ◌∷◌, ◌++◌, ltb, ◌==◌, if◌then◌else◌, if_elim, arith, Bool-cases,
}
use camex.Slotidx.{Index, find, hash_u32, hash_nocase}
use camex.Slotidx.Scan.{first_match, find-first_match}
use camex.Server.Leases.{is_empty, same_name}
use camex.Server.Clients.{
  Addr, sockaddr_equal, hash_addr, addr_is_set, Client, by_ip, Clients, client_at, max_clients,
  keys_of, key_if,
}
use camex.Server.Clients.Indexed.{In, client_keys}
use camex.Server.Clients.Resets.{IsTabled}

unfoldable pub match_ip : Clients → ℕ → ℕ → Bool
match_ip s ip slot =
    let c = client_at s slot in
    not (ip == 0)
    && ltb slot (max_clients s)
    && c.active
    && (c.ip == ip || c.pending_ip == ip || (c.prev.valid && c.prev_ip == ip))

unfoldable pub match_cur_ip : Clients → ℕ → ℕ → Bool
match_cur_ip s ip slot =
    let c = client_at s slot in not (ip == 0) && ltb slot (max_clients s) && c.active && c.ip == ip

unfoldable pub match_id : Clients → List ℕ → ℕ → Bool
match_id s id slot =
    let c = client_at s slot in ltb slot (max_clients s) && c.active && same_name c.id id

unfoldable pub match_addr : Clients → Addr → ℕ → Bool
match_addr s addr slot =
    let c = client_at s slot in ltb slot (max_clients s) && c.active && sockaddr_equal c.addr addr

abbrev pub or_else : Option ℕ → Option ℕ → Option ℕ
or_else none o = o
or_else (some k) o = some k

-- The scan that stands in for a lookup when there is no index.
abbrev pub scan_all : Clients → (ℕ → Bool) → Option ℕ
scan_all s match = first_match match (max_clients s) 0

unfoldable pub find_by_ip : Clients → ℕ → Option ℕ
find_by_ip s ip =
    let x = s.indexes.ip in
    if s.indexes.ok
    then or_else (find (match_cur_ip s ip) x (hash_u32 ip)) (find (match_ip s ip) x (hash_u32 ip))
    else or_else (scan_all s (match_cur_ip s ip)) (scan_all s (match_ip s ip))

unfoldable pub find_by_client_id : Clients → List ℕ → Option ℕ
find_by_client_id s id =
    let match = match_id s id in
    if is_empty id
    then none
    else if s.indexes.ok
    then find match s.indexes.id (hash_nocase id)
    else scan_all s match

-- Of an address that is not NULL.
unfoldable pub find_by_addr : Clients → Addr → Option ℕ
find_by_addr s addr =
    let match = match_addr s addr in
    if s.indexes.ok && addr_is_set addr
    then find match s.indexes.addr (hash_addr addr)
    else scan_all s match

pub In-append : (h : ℕ) (xs ys : List ℕ) → In h xs ⊎ In h ys → In h (xs ++ ys)
In-append h [] ys (inl z) = absurd z
In-append h [] ys (inr m) = m
In-append h (x ∷ xs) ys (inl (inl e)) = inl e
In-append h (x ∷ xs) ys (inl (inr m)) = inr (In-append h xs ys (inl m))
In-append h (x ∷ xs) ys (inr m) = inr (In-append h xs ys (inr m))

pub In-key_if : (b : Bool) (h : ℕ) → b ≡ true → In h (key_if b h)
In-key_if true h e = inl refl
In-key_if false h e = absurd (cc e)

key_at : (b : Bool) (f : ℕ → ℕ) (a ip : ℕ) → a ≡ ip → b ≡ true → In (f ip) (key_if b (f a))
key_at b f a ip e t = rw (← e) (In-key_if b (f a) t)

-- A client that matches an address is entered under it.
ip-In :
    (c : Client) (ip : ℕ)
    → ip ≢ 0
    → (c.ip == ip || c.pending_ip == ip || (c.prev.valid && c.prev_ip == ip)) ≡ true
    → In (hash_u32 ip) (keys_of by_ip c)
unfolding keys_of
ip-In c ip p m =
    let h : ℕ = hash_u32 ip in
    let a : List ℕ = key_if (not (c.ip == 0)) (hash_u32 c.ip) in
    let b : List ℕ = key_if (not (c.pending_ip == 0)) (hash_u32 c.pending_ip) in
    let d : List ℕ = key_if (c.prev.valid && not (c.prev_ip == 0)) (hash_u32 c.prev_ip) in
    elim (Bool-cases (c.ip == ip)) [
      | inl e ↦ In-append h (a ++ b) d (
          inl (
            In-append h a b (
              inl (
                key_at (not (c.ip == 0)) hash_u32 c.ip ip (ground (arith, e))
                  (ground (arith, e, p))))))
      | inr n ↦ elim (Bool-cases (c.pending_ip == ip)) [
        | inl e ↦ In-append h (a ++ b) d (
            inl (
              In-append h a b (
                inr (
                  key_at (not (c.pending_ip == 0)) hash_u32 c.pending_ip ip (ground (arith, e))
                    (ground (arith, e, p))))))
        | inr n' ↦ In-append h (a ++ b) d (
            inr (
              key_at (c.prev.valid && not (c.prev_ip == 0)) hash_u32 c.prev_ip ip
                (ground (arith, m, n, n')) (ground (arith, m, n, n', p))))
      ]
    ]

match_ip-keys :
    (s : Clients) (ip slot : ℕ)
    → match_ip s ip slot ≡ true
    → (slot < max_clients s) × client_keys by_ip s.table (max_clients s) slot (hash_u32 ip)
unfolding match_ip
match_ip-keys s ip slot m =
    let l : slot < max_clients s = ground (arith, m) in
    let p : ip ≢ 0 = ground (arith, m) in
    (l, (l, ground (arith, m), ip-In (client_at s slot) ip p (ground (arith, m))))

pub match_cur_ip-match_ip :
    (s : Clients) (ip slot : ℕ) → match_cur_ip s ip slot ≡ true → match_ip s ip slot ≡ true
unfolding match_ip match_cur_ip
match_cur_ip-match_ip s ip slot m = ground (arith, m)

-- Whether or not the indexes are used, the client of an address is the first one of the table whose
-- current address it is, and otherwise the first one that holds it as a pending address or as that of
-- a previous session that is still valid.
pub find_by_ip-scan :
    (s : Clients) (ip : ℕ)
    → IsTabled s
    → find_by_ip s ip ≡ or_else (scan_all s (match_cur_ip s ip)) (scan_all s (match_ip s ip))
unfolding find_by_ip
find_by_ip-scan s ip t =
    let x : Index = s.indexes.ip in
    let scanned : Option ℕ =
      or_else (scan_all s (match_cur_ip s ip)) (scan_all s (match_ip s ip)) in
    if_elim (λ o. o ≡ scanned) s.indexes.ok
      (or_else (find (match_cur_ip s ip) x (hash_u32 ip)) (find (match_ip s ip) x (hash_u32 ip)))
      scanned
      (λ ok.
        ap₂ or_else
          (find-first_match (client_keys by_ip s.table (max_clients s)) (match_cur_ip s ip) x
            (hash_u32 ip) (max_clients s) (t.covers ok by_ip)
            (λ slot m. match_ip-keys s ip slot (match_cur_ip-match_ip s ip slot m)))
          (find-first_match (client_keys by_ip s.table (max_clients s)) (match_ip s ip) x
            (hash_u32 ip) (max_clients s) (t.covers ok by_ip) (match_ip-keys s ip)))
      (λ _. refl)
