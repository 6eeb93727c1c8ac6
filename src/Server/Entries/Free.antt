-- ===== src/Server/Entries/Free.antt =====
-- The address that the pool gives is one the client may have.
use camex.Base.{
  ℕ, ◌+◌, ◌-◌, ◌*◌, ◌^◌, ◌≤◌, ◌<◌, ◌≡◌, ◌≢◌, ◌⊎◌, ◌↔◌, inl, inr, Bool, true, not, ◌&&◌, Option,
  none, some, leb, ◌==◌, if_elim, u32, ◌<<◌, arith,
}
use native.Mathlib.Nat.{pow-le-pow_right}
use camex.Server.Pool.{Pool, pool_first, pool_last, pool_has, pool_size, sub32, swap}
use camex.Server.Leases.{
  Clock, Leases, lease_at, lease_by_ip, lease_min, lease_allows, match_lease_ip,
}
use camex.Server.Leases.Indexed.{IsIndexed}
use camex.Server.Leases.Lookup.{lease_by_ip-IsLeast, match_lease_ip-true}
use camex.Server.Leases.Clear.{subst_least}
use camex.Slotidx.Find.{IsLeast}
use camex.Server.Clients.Find.{find_by_ip}
use camex.Server.Entries.{Config, Server, entry, unowned, same_entry, ip_usable}
use camex.Server.Entries.Take.{older_lease, candidate, Walk, usable, leased}

-- A pool that the parser of the configuration accepts: of /8 to /30, with no host bits set.
pub record IsPool (p : Pool) : Type 0 where
  pub long : 8 ≤ p.prefix
  pub short : p.prefix ≤ 30
  pub fits : p.net + 2 ^ (32 - p.prefix) ≤ 2 ^ 32

-- `htonl` undoes `ntohl`.
pub swap-swap : (a : ℕ) → a < 2 ^ 32 → swap (swap a) ≡ a
unfolding swap
swap-swap a h = omega (arith, h)

pub size-le : (p : Pool) → IsPool p → (4 ≤ 2 ^ (32 - p.prefix)) × (2 ^ (32 - p.prefix) ≤ 2 ^ 24)
size-le p i = (
  omega (
    arith,
    pow-le-pow_right {n = 2} (omega arith) {i = 2} {j = 32 - p.prefix} (omega (arith, i.short)),
  ),
  omega (
    arith,
    pow-le-pow_right {n = 2} (omega arith) {i = 32 - p.prefix} {j = 24} (omega (arith, i.long)),
  ),
)

-- The ends of the range of clients.
pub pool_ends :
    (p : Pool)
    → IsPool p
    → (pool_first p ≡ p.net + 2)
      × (pool_last p + 2 ≡ p.net + 2 ^ (32 - p.prefix))
      × (pool_first p < pool_last p + 1)
      × (pool_last p < 2 ^ 32)
unfolding pool_first pool_last pool_size
pool_ends p i =
    let (l, u) = size-le p i in
    let n : ℕ = 2 ^ (32 - p.prefix) in
    let one : 1 * n ≡ n = omega arith in
    let size : u32 (1 << (32 - p.prefix)) ≡ n = omega (arith, u, one) in
    let first : u32 (p.net + 2) ≡ p.net + 2 = omega (arith, i.fits, l) in
    let last : sub32 (u32 (p.net + u32 (1 << (32 - p.prefix)))) 2 + 2 ≡ p.net + n =
      omega (arith, size, i.fits, l) in
    (first, last, omega (arith, first, last, l), omega (arith, last, i.fits))

-- An address is one of a pool of /8 to /30 exactly when, in host order, it is neither the network's
-- address, nor the gateway's after it, nor the broadcast address, nor out of the network.
pub pool_has-Inside :
    (p : Pool) (ip : ℕ)
    → IsPool p
    → (pool_has p ip ≡ true)
      ↔ ((ip ≢ 0) × (p.net + 1 < swap ip) × (swap ip + 1 < p.net + 2 ^ (32 - p.prefix)))
unfolding pool_has
pool_has-Inside p ip i =
    let (f, l, m, u) = pool_ends p i in
    let first : ℕ = pool_first p in
    let last : ℕ = pool_last p in
    let host : ℕ = swap ip in
    (
      λ e.
          let a : first ≤ host = ground (arith, e) in
          let b : host ≤ last = ground (arith, e) in
          (ground (arith, e), omega (arith, f, a), omega (arith, l, b)),
      λ (p0, a, b).
          let c : first ≤ host = omega (arith, f, a) in
          let d : host ≤ last = omega (arith, l, b) in ground (arith, p0, c, d),
    )

-- The lease of an address that nobody else may have now and whose lease is old enough.
pub record IsOld (g : Config) (clock : Clock) (k : ℕ) (s : Server) (ip : ℕ) : Type 0 where
  pub slot : ℕ
  pub its : lease_by_ip s.leases ip ≡ some slot
  pub old : (lease_at s.leases slot).since + lease_min clock ≤ clock.now

-- What holds of an address that the pool gives to entry `k`.
pub record IsGiven (g : Config) (clock : Clock) (k : ℕ) (s : Server) (ip : ℕ) : Type 0 where
  pub in_pool : pool_has g.pool ip ≡ true
  pub not_own : ip ≢ g.tunnel_ip
  pub no_profile : unowned g ip ≡ true
  pub no_other : same_entry k (find_by_ip s.clients ip) ≡ true
  pub lease : (lease_allows s.leases ip (some (entry s k).id) ≡ true) ⊎ IsOld g clock k s ip

pub usable-IsGiven :
    (g : Config) (clock : Clock) (k ip : ℕ) (s : Server)
    → ip_usable g k ip (some (entry s k).id) s ≡ true
    → IsGiven g clock k s ip
unfolding ip_usable
usable-IsGiven g clock k ip s e = record {
  in_pool = ground (arith, e);
  not_own = ground (arith, e);
  no_profile = ground (arith, e);
  no_other = ground (arith, e);
  lease = inl (ground (arith, e));
}

abbrev pub Candidate : Config → Clock → ℕ → Server → Option ℕ → Type 0
Candidate g clock k s none = Unit
Candidate g clock k s (some l) = IsGiven g clock k s (lease_at s.leases l).ip

pool_has-nonzero : (p : Pool) (ip : ℕ) → pool_has p ip ≡ true → ip ≢ 0
unfolding pool_has
pool_has-nonzero p ip h = ground (arith, h)

found_at :
    (t : Leases) (ip l : ℕ)
    → IsIndexed t
    → ip ≢ 0
    → lease_by_ip t ip ≡ some l
    → match_lease_ip t ip l ≡ true
found_at t ip l i p e =
    let least = lease_by_ip-IsLeast t ip i p in
    (subst_least (λ o. IsLeast (λ k. match_lease_ip t ip k ≡ true) o) e least).0

pub candidate-Candidate :
    (g : Config) (clock : Clock) (k ip : ℕ) (s : Server) (best o : Option ℕ)
    → IsIndexed s.leases
    → pool_has g.pool ip ≡ true
    → lease_by_ip s.leases ip ≡ o
    → Candidate g clock k s best
    → Candidate g clock k s (candidate g clock k ip s best o)
candidate-Candidate g clock k ip s best none i h e b = b
candidate-Candidate g clock k ip s best (some l) i h e b =
    let old : Bool = leb ((lease_at s.leases l).since + lease_min clock) clock.now in
    if_elim (Candidate g clock k s)
      (not (ip == g.tunnel_ip)
        && unowned g ip
        && same_entry k (find_by_ip s.clients ip)
        && old
        && older_lease s.leases l best)
      (some l) best
      (λ t.
        let p : ip ≢ 0 = pool_has-nonzero g.pool ip h in
        let same : (lease_at s.leases l).ip ≡ ip =
          (match_lease_ip-true s.leases ip l (found_at s.leases ip l i p e)).2 in
        rw same (record {
          in_pool = h;
          not_own = ground (arith, t);
          no_profile = ground (arith, t);
          no_other = ground (arith, t);
          lease = inr (record { slot = l; its = e; old = ground (arith, t) });
        }))
      (λ _. b)

abbrev pub Ends : Config → Clock → ℕ → Server → Walk → Type 0
Ends g clock k s (usable host) = IsGiven g clock k s (swap host)
Ends g clock k s (leased best) = Candidate g clock k s best
