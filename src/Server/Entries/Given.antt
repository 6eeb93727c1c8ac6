-- ===== src/Server/Entries/Given.antt =====
-- The walk of the pool: what it gives, and that it gives up only when nothing is usable.
use camex.Base.{
  ℕ, zero, suc, ◌+◌, ◌-◌, ◌%◌, ◌≤◌, ◌<◌, ◌≡◌, ◌≢◌, refl, sym, ap, ◌∙◌, inl, inr, Bool, true, false,
  not, ◌&&◌, Option, none, some, leb, ◌==◌, if◌then◌else◌, if_elim, u32, arith, Bool-cases, if_true,
  if_false,
}
use native.Mathlib.Nat.{mod-lt}
use camex.Server.Pool.{Pool, pool_first, pool_last, pool_has, sub32, swap}
use camex.Server.Leases.{Clock, lease_at, lease_by_ip}
use camex.Server.Leases.Indexed.{IsIndexed}
use camex.Slotidx.Find.{IsLeast}
use camex.Slotidx.Scan.{first_match-all}
use camex.Server.Clients.{Clients, max_clients}
use camex.Server.Clients.Resets.{IsTabled}
use camex.Server.Clients.Find.{
  match_ip, match_cur_ip, match_cur_ip-match_ip, find_by_ip, find_by_ip-scan, scan_all, or_else,
}
use camex.Server.Entries.{Config, Server, entry, same_entry, ip_usable}
use camex.Server.Entries.Take.{
  candidate, Walk, usable, leased, walk, walked, same_pool, auto_pool_take,
}
use camex.Server.Entries.Free.{
  IsPool, swap-swap, pool_ends, pool_has-Inside, IsGiven, usable-IsGiven, Candidate,
  candidate-Candidate, Ends,
}

-- The range of the pool, as the walk computes it.
abbrev pub range : Pool → ℕ
range p = u32 (sub32 (pool_last p) (pool_first p) + 1)

pub range-eq : (p : Pool) → IsPool p → pool_first p + range p ≡ pool_last p + 1
range-eq p i = let (f, l, m, u) = pool_ends p i in omega (arith, m, u)

-- The host that the walk looks at in turn `n`.
abbrev pub host_at : Pool → ℕ → ℕ → ℕ
host_at p start n = u32 (pool_first p + u32 (start + n) % range p)

host_at-Inside :
    (p : Pool) (start n : ℕ)
    → IsPool p
    → (pool_first p ≤ host_at p start n) × (host_at p start n ≤ pool_last p)
host_at-Inside p start n i =
    let (f, l, m, u) = pool_ends p i in
    let e = range-eq p i in
    let below : u32 (start + n) % range p < range p =
      mod-lt (u32 (start + n)) {m = range p} (omega (arith, e, m)) in
    (omega (arith, e, below, u), omega (arith, e, below, u))

swap-nonzero : (a : ℕ) → swap (swap a) ≡ a → 2 ≤ a → swap a ≢ 0
unfolding swap
swap-nonzero a e h z = absurd (omega (arith, sym e ∙ ap swap z, h))

pool_has-host :
    (p : Pool) (host : ℕ)
    → IsPool p
    → pool_first p ≤ host
    → host ≤ pool_last p
    → pool_has p (swap host) ≡ true
pool_has-host p host i a b =
    let (f, l, m, u) = pool_ends p i in
    let same : swap (swap host) ≡ host = swap-swap host (omega (arith, b, u)) in
    (pool_has-Inside p (swap host) i).1 (
      swap-nonzero host same (omega (arith, f, a)),
      omega (arith, same, f, a),
      omega (arith, same, l, b),
    )

walk-Ends :
    (g : Config) (clock : Clock) (k start rounds n : ℕ) (s : Server) (best : Option ℕ)
    → IsPool g.pool
    → IsIndexed s.leases
    → Candidate g clock k s best
    → Ends g clock k s (walk g clock k start (range g.pool) rounds n s best)
unfolding walk
walk-Ends g clock k start zero n s best p i b = b
walk-Ends g clock k start (suc rounds) n s best p i b =
    let host : ℕ = host_at g.pool start n in
    let ip : ℕ = swap host in
    let next : Option ℕ = candidate g clock k ip s best (lease_by_ip s.leases ip) in
    let (l, u) = host_at-Inside g.pool start n p in
    if_elim (Ends g clock k s) (ip_usable g k ip (some (entry s k).id) s) (usable host)
      (walk g clock k start (range g.pool) rounds (n + 1) s next)
      (λ e. usable-IsGiven g clock k ip s e)
      (λ _. walk-Ends g clock k start rounds (n + 1) s next p i (
        candidate-Candidate g clock k ip s best (lease_by_ip s.leases ip) i
          (pool_has-host g.pool host p l u) refl b))

walked-IsGiven :
    (g : Config) (clock : Clock) (k ip : ℕ) (s : Server) (w : Walk)
    → Ends g clock k s w
    → (walked g clock s w).ip ≡ some ip
    → IsGiven g clock k s ip
walked-IsGiven g clock k ip s (usable host) e q = let same : swap host ≡ ip = cc q in rw (← same) e
walked-IsGiven g clock k ip s (leased (some l)) e q =
    let same : (lease_at s.leases l).ip ≡ ip = cc q in rw (← same) e
walked-IsGiven g clock k ip s (leased none) e q = absurd (cc q)

pool-IsGiven :
    (g : Config) (clock : Clock) (k ip : ℕ) (s : Server)
    → IsPool g.pool
    → IsIndexed s.leases
    → (auto_pool_take g clock k s).ip ≡ some ip
    → IsGiven g clock k s ip
unfolding auto_pool_take
pool-IsGiven g clock k ip s p i e =
    let first : ℕ = pool_first g.pool in
    let start : ℕ =
      if leb first s.auto_pool_next && leb s.auto_pool_next (pool_last g.pool)
      then s.auto_pool_next - first
      else 0 in
    let w : Walk = walk g clock k start (range g.pool) (range g.pool) 0 s none in
    let known : Bool =
      s.pool_full_at == clock.now && not (s.pool_full_at == 0) && same_pool s.pool_full g.pool in
    elim (Bool-cases known) [
      | inl f ↦ absurd (cc (sym (ap (λ t. t.ip) (if_true known _ (walked g clock s w) f)) ∙ e))
      | inr f ↦
          walked-IsGiven g clock k ip s w (walk-Ends g clock k start (range g.pool) 0 s none p i tt)
            (sym (ap (λ t. t.ip) (if_false known _ (walked g clock s w) f)) ∙ e)
    ]

pub match_ip-slot : (s : Clients) (ip slot : ℕ) → match_ip s ip slot ≡ true → slot < max_clients s
unfolding match_ip
match_ip-slot s ip slot m = ground (arith, m)

-- When the lookup of an address finds nobody but entry `k`, which does not hold it, nobody does.
no_holder :
    (s : Clients) (ip k : ℕ) (a b : Option ℕ)
    → IsLeast (λ j. match_cur_ip s ip j ≡ true) a
    → IsLeast (λ j. match_ip s ip j ≡ true) b
    → same_entry k (or_else a b) ≡ true
    → match_ip s ip k ≡ false
    → (j : ℕ) → match_ip s ip j ≡ false
no_holder s ip k (some i) b p q e f =
    let same : i ≡ k = ground (arith, e) in
    absurd (cc (sym f ∙ (ap (match_ip s ip) (sym same) ∙ match_cur_ip-match_ip s ip i p.0)))
no_holder s ip k none (some i) p q e f =
    let same : i ≡ k = ground (arith, e) in
    absurd (cc (sym f ∙ (ap (match_ip s ip) (sym same) ∙ q.0)))
no_holder s ip k none none p q e f =
    λ j. elim (Bool-cases (match_ip s ip j)) [ inl m ↦ absurd (q j m) | inr n ↦ n ]

find_by_ip-alone :
    (s : Clients) (ip k : ℕ)
    → IsTabled s
    → same_entry k (find_by_ip s ip) ≡ true
    → match_ip s ip k ≡ false
    → (j : ℕ) → match_ip s ip j ≡ false
find_by_ip-alone s ip k t e f =
    let n : ℕ = max_clients s in
    no_holder s ip k (scan_all s (match_cur_ip s ip)) (scan_all s (match_ip s ip))
      (first_match-all (match_cur_ip s ip) n
        (λ j m. match_ip-slot s ip j (match_cur_ip-match_ip s ip j m)))
      (first_match-all (match_ip s ip) n (λ j m. match_ip-slot s ip j m))
      (ap (same_entry k) (sym (find_by_ip-scan s ip t)) ∙ e) f

-- An address that the pool, one of /8 to /30, gives to an entry is an address of the pool, is neither
-- the server's own nor a profile's, and is not leased to another ID, or only by a lease past its time;
-- and unless the entry itself holds it already, it is not the current address, the pending one or that
-- of a valid previous session of any active client in the table.
pub auto_pool_take-IsGiven :
    (g : Config) (clock : Clock) (k ip : ℕ) (s : Server)
    → IsPool g.pool
    → IsIndexed s.leases
    → IsTabled s.clients
    → (auto_pool_take g clock k s).ip ≡ some ip
    → IsGiven g clock k s ip
      × (match_ip s.clients ip k ≡ false → (j : ℕ) → match_ip s.clients ip j ≡ false)
auto_pool_take-IsGiven g clock k ip s p i t e =
    let given : IsGiven g clock k s ip = pool-IsGiven g clock k ip s p i e in
    (given, find_by_ip-alone s.clients ip k t given.no_other)
