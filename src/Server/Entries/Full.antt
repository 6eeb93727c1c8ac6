-- ===== src/Server/Entries/Full.antt =====
-- The pool refuses an entry only when no address of it is usable.
use camex.Base.{
  ℕ, zero, suc, ◌+◌, ◌-◌, ◌^◌, ◌%◌, ◌≤◌, ◌<◌, ◌≡◌, refl, sym, ap, ◌∙◌, inl, inr, Bool, false, not,
  ◌&&◌, Option, none, some, leb, ◌==◌, if◌then◌else◌, if_elim, u32, arith, Bool-cases, if_true,
  if_false, ℕ_discrete, yes, no, dec_lt,
}
use native.Mathlib.Nat.{mod-eq_of_lt, add-mod_left}
use camex.Server.Pool.{Pool, pool_first, pool_last, swap}
use camex.Server.Leases.{Clock, lease_by_ip}
use camex.Server.Entries.{Config, Server, entry, ip_usable}
use camex.Server.Entries.Take.{
  candidate, Walk, usable, leased, walk, walked, same_pool, auto_pool_take,
}
use camex.Server.Entries.Free.{IsPool, pool_ends, size-le}
use camex.Server.Entries.Given.{range, range-eq, host_at}

-- None of the hosts from turn `n` to the last is usable.
walk-none :
    (g : Config) (clock : Clock) (k start rounds n m : ℕ) (s : Server) (best o : Option ℕ)
    → walk g clock k start (range g.pool) rounds n s best ≡ leased o
    → n ≤ m
    → m < n + rounds
    → ip_usable g k (swap (host_at g.pool start m)) (some (entry s k).id) s ≡ false
unfolding walk
walk-none g clock k start zero n m s best o e l u = absurd (omega (arith, l, u))
walk-none g clock k start (suc rounds) n m s best o e l u =
    let ip : ℕ = swap (host_at g.pool start n) in
    let next : Option ℕ = candidate g clock k ip s best (lease_by_ip s.leases ip) in
    let test : Bool = ip_usable g k ip (some (entry s k).id) s in
    let later : Walk = walk g clock k start (range g.pool) rounds (n + 1) s next in
    elim (Bool-cases test) [
      | inl t ↦ absurd (cc (sym (if_true test (usable (host_at g.pool start n)) later t) ∙ e))
      | inr f ↦ elim (ℕ_discrete n m) [
        | yes q ↦
            ap (λ i. ip_usable g k (swap (host_at g.pool start i)) (some (entry s k).id) s) (sym q)
            ∙ f
        | no q ↦
            let after : n + 1 ≤ m = ground (arith, l, q) in
            walk-none g clock k start rounds (n + 1) m s next o
              (sym (if_false test (usable (host_at g.pool start n)) later f) ∙ e) after
              (omega (arith, u))
      ]
    ]

-- Some turn looks at each host of the range.
turn_of :
    (p : Pool) (start host : ℕ)
    → IsPool p
    → start < range p
    → pool_first p ≤ host
    → host ≤ pool_last p
    → (n : ℕ) × (n < range p) × (host_at p start n ≡ host)
turn_of p start host i s a b =
    let (f, l, m, u) = pool_ends p i in
    let e = range-eq p i in
    let d : ℕ = host - pool_first p in
    let below : d < range p = omega (arith, e, a, b) in
    let small : range p ≤ 2 ^ 31 = omega (arith, e, f, l, (size-le p i).1) in
    elim (dec_lt d start) [
      | no n ↦
          let at_d : u32 (start + (d - start)) % range p ≡ d =
            let same : u32 (start + (d - start)) ≡ d = omega (arith, n, below, small) in
            ap (λ (x : ℕ). x % range p) same ∙ mod-eq_of_lt below in
          (d - start, omega (arith, below), omega (arith, at_d, a, b, u))
      | yes n ↦
          let at_d : u32 (start + (range p - start + d)) % range p ≡ d =
            let same : u32 (start + (range p - start + d)) ≡ range p + d =
              omega (arith, s, below, small) in
            ap (λ (x : ℕ). x % range p) same ∙ (add-mod_left (range p) d ∙ mod-eq_of_lt below) in
          (range p - start + d, omega (arith, n, s), omega (arith, at_d, a, b, u))
    ]

-- Was the same pool found full in this second?
abbrev pub known_full : Config → Clock → Server → Bool
known_full g clock s =
    s.pool_full_at == clock.now && not (s.pool_full_at == 0) && same_pool s.pool_full g.pool

start-range :
    (p : Pool) (next : ℕ)
    → IsPool p
    → (if leb (pool_first p) next && leb next (pool_last p) then next - pool_first p else 0)
      < range p
start-range p next i =
    let (f, l, m, u) = pool_ends p i in
    let e = range-eq p i in
    if_elim (λ n. n < range p) (leb (pool_first p) next && leb next (pool_last p))
      (next - pool_first p) 0
      (λ t.
        let a : pool_first p ≤ next = ground (arith, t) in
        let b : next ≤ pool_last p = ground (arith, t) in omega (arith, a, b, e))
      (λ _. omega (arith, e, m))

walked-none :
    (g : Config) (clock : Clock) (s : Server) (w : Walk)
    → (walked g clock s w).ip ≡ none
    → w ≡ leased none
walked-none g clock s (usable host) e = absurd (cc e)
walked-none g clock s (leased (some l)) e = absurd (cc e)
walked-none g clock s (leased none) e = refl

-- When the pool, one of /8 to /30, refuses an entry, and it was not found full before in this second,
-- the entry may have no address from the second of the pool to the last but one.
pub auto_pool_take-Full :
    (g : Config) (clock : Clock) (k : ℕ) (s : Server) (host : ℕ)
    → IsPool g.pool
    → (auto_pool_take g clock k s).ip ≡ none
    → known_full g clock s ≡ false
    → g.pool.net + 1 < host
    → host + 1 < g.pool.net + 2 ^ (32 - g.pool.prefix)
    → ip_usable g k (swap host) (some (entry s k).id) s ≡ false
unfolding auto_pool_take
auto_pool_take-Full g clock k s host p e f a b =
    let (first, last, m, u) = pool_ends g.pool p in
    let start : ℕ =
      if leb (pool_first g.pool) s.auto_pool_next && leb s.auto_pool_next (pool_last g.pool)
      then s.auto_pool_next - pool_first g.pool
      else 0 in
    let w : Walk = walk g clock k start (range g.pool) (range g.pool) 0 s none in
    let none_left : w ≡ leased none =
      walked-none g clock s w
        (sym (ap (λ t. t.ip) (if_false (known_full g clock s) _ (walked g clock s w) f)) ∙ e) in
    let (n, below, its) =
      turn_of g.pool start host p (start-range g.pool s.auto_pool_next p) (omega (arith, first, a))
        (omega (arith, last, b)) in
    ap (λ h. ip_usable g k (swap h) (some (entry s k).id) s) (sym its)
    ∙ walk-none g clock k start (range g.pool) 0 n s none none none_left (omega arith)
        (omega (arith, below))
