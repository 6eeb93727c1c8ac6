-- ===== src/Server/Leases/Lookup.antt =====
-- Looking a lease up: through the indexes it is what a scan of the table finds.
use camex.Base.{
  ℕ, ◌<◌, ◌≡◌, ◌≢◌, refl, sym, ap, ◌∙◌, Bool, true, false, Option, none, List, map, ◌==◌,
  if◌then◌else◌, if_elim, if_false, arith, bytes_eq→eq,
}
use camex.Slotidx.{find, hash_u32, hash_nocase, to_lower, fnv}
use camex.Slotidx.Find.{IsLeast}
use camex.Slotidx.Scan.{first_match, find-first_match, first_match-all}
use camex.Server.Leases.{
  Leases, lease_at, cap, match_lease_ip, match_lease_id, lease_by_ip, lease_by_id, same_name,
  is_empty,
}
use camex.Server.Leases.Indexed.{keys_below, ip_key, id_key, IsIndexed}

-- What a match of an address says.
pub match_lease_ip-true :
    (s : Leases) (ip slot : ℕ)
    → match_lease_ip s ip slot ≡ true
    → (ip ≢ 0) × (slot < cap s) × ((lease_at s slot).ip ≡ ip)
unfolding match_lease_ip
match_lease_ip-true s ip slot m = (ground arith, ground arith, ground arith)

pub match_lease_ip-holds :
    (s : Leases) (ip slot : ℕ)
    → ip ≢ 0
    → slot < cap s
    → (lease_at s slot).ip ≡ ip
    → match_lease_ip s ip slot ≡ true
unfolding match_lease_ip
match_lease_ip-holds s ip slot p l e = ground arith

pub match_lease_id-true :
    (s : Leases) (id : List ℕ) (slot : ℕ)
    → match_lease_id s id slot ≡ true
    → (slot < cap s)
      × ((lease_at s slot).ip ≢ 0)
      × ((lease_at s slot).prev ≡ false)
      × (same_name (lease_at s slot).id id ≡ true)
unfolding match_lease_id
match_lease_id-true s id slot m = (ground arith, ground arith, ground arith, ground arith)

pub match_lease_id-holds :
    (s : Leases) (id : List ℕ) (slot : ℕ)
    → slot < cap s
    → (lease_at s slot).ip ≢ 0
    → (lease_at s slot).prev ≡ false
    → same_name (lease_at s slot).id id ≡ true
    → match_lease_id s id slot ≡ true
unfolding match_lease_id
match_lease_id-holds s id slot l p q m = ground arith

-- Names that differ in case only have the same hash.
pub hash-same_name : (a b : List ℕ) → same_name a b ≡ true → hash_nocase a ≡ hash_nocase b
unfolding hash_nocase same_name
hash-same_name a b m =
    ap (λ text. hash_u32 (fnv text 2166136261)) (bytes_eq→eq (map to_lower a) (map to_lower b) m)

-- Whether or not the indexes are used, the lease of an address is the first one of the table with
-- that address.
pub lease_by_ip-scan :
    (s : Leases) (ip : ℕ)
    → IsIndexed s
    → lease_by_ip s ip ≡ (if ip == 0 then none else first_match (match_lease_ip s ip) (cap s) 0)
unfolding lease_by_ip
lease_by_ip-scan s ip i =
    let match : ℕ → Bool = match_lease_ip s ip in
    let scanned : Option ℕ = first_match match (cap s) 0 in
    let found : (if s.idx_ok then find match s.by_ip (hash_u32 ip) else scanned) ≡ scanned =
      if_elim (λ o. o ≡ scanned) s.idx_ok (find match s.by_ip (hash_u32 ip)) scanned
        (λ ok.
          find-first_match (keys_below ip_key s.table (cap s)) match s.by_ip (hash_u32 ip) (cap s)
            (i.covers ok).0
            (λ slot m.
              let (p, l, e) = match_lease_ip-true s ip slot m in
              (l, (l, λ z. p (sym e ∙ z), ap hash_u32 (sym e)))))
        (λ _. refl) in
    ap (λ o. if ip == 0 then none else o) found

-- Whether or not the indexes are used, the lease of an ID is the first one of the table with that ID,
-- in any case, that is not the address of a previous session.
pub lease_by_id-scan :
    (s : Leases) (id : List ℕ)
    → IsIndexed s
    → lease_by_id s id ≡ (if is_empty id then none else first_match (match_lease_id s id) (cap s) 0)
unfolding lease_by_id
lease_by_id-scan s id i =
    let match : ℕ → Bool = match_lease_id s id in
    let scanned : Option ℕ = first_match match (cap s) 0 in
    let found : (if s.idx_ok then find match s.by_id (hash_nocase id) else scanned) ≡ scanned =
      if_elim (λ o. o ≡ scanned) s.idx_ok (find match s.by_id (hash_nocase id)) scanned
        (λ ok.
          find-first_match (keys_below id_key s.table (cap s)) match s.by_id (hash_nocase id)
            (cap s) (i.covers ok).1
            (λ slot m.
              let (l, p, q, e) = match_lease_id-true s id slot m in
              (l, (l, p, sym (hash-same_name (lease_at s slot).id id e)))))
        (λ _. refl) in
    ap (λ o. if is_empty id then none else o) found

-- The lease of an address, as a question about the table.
pub lease_by_ip-IsLeast :
    (s : Leases) (ip : ℕ)
    → IsIndexed s
    → ip ≢ 0
    → IsLeast (λ k. match_lease_ip s ip k ≡ true) (lease_by_ip s ip)
lease_by_ip-IsLeast s ip i p =
    rw (lease_by_ip-scan s ip i ∙ if_false (ip == 0) none _ (ground arith))
      (first_match-all (match_lease_ip s ip) (cap s) (λ k m. (match_lease_ip-true s ip k m).1))

pub lease_by_id-IsLeast :
    (s : Leases) (id : List ℕ)
    → IsIndexed s
    → is_empty id ≡ false
    → IsLeast (λ k. match_lease_id s id k ≡ true) (lease_by_id s id)
lease_by_id-IsLeast s id i p =
    rw (lease_by_id-scan s id i ∙ if_false (is_empty id) none _ p)
      (first_match-all (match_lease_id s id) (cap s) (λ k m. (match_lease_id-true s id k m).0))

-- Whether or not the indexes are used, the lease of an address is the first one of the table with
-- that address, and the lease of an ID that is not empty the first one with that ID, in any case, that
-- is not the address of a previous session.
pub leases-scan :
    (s : Leases)
    → IsIndexed s
    → ((ip : ℕ)
        → lease_by_ip s ip
          ≡ (if ip == 0 then none else first_match (match_lease_ip s ip) (cap s) 0))
      × ((id : List ℕ)
          → lease_by_id s id
            ≡ (if is_empty id then none else first_match (match_lease_id s id) (cap s) 0))
leases-scan s i = (λ ip. lease_by_ip-scan s ip i, λ id. lease_by_id-scan s id i)
