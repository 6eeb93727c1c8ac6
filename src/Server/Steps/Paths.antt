-- ===== src/Server/Steps/Paths.antt =====
-- The operations of src/server.c as sequences of steps: allocations, the pool, the expiry and the checks
-- after a reload.
use camex.Base.{
  ℕ, zero, suc, ◌+◌, ◌-◌, leb, ◌≤◌, ◌<◌, ◌≡◌, refl, inl, inr, Bool, true, false, not, ◌&&◌, ◌||◌,
  Option, none, some, ◌==◌, if◌then◌else◌, if_elim, arith, length-set,
}
use camex.Session.Transport.{wiped}
use camex.Server.Pool.{pool_first, pool_last}
use camex.Server.Leases.{Memory, Clock, is_empty}
use camex.Server.Leases.Add.{moment}
use camex.Server.Clients.{Client, max_clients, put_client}
use camex.Server.Clients.Set.{free_client, quietest}
use camex.Server.Entries.{
  Config, Server, entry, Alloc, end_client, evicted, alloc_from, alloc_client, expire_client,
  expire_from, expire_clients,
}
use camex.Server.Entries.Take.{Walk, usable, leased, Taken, walk, walked, same_pool, auto_pool_take}
use camex.Server.Entries.Given.{range}
use camex.Server.Entries.Expire.{end_client-max, expire_client-IsTurn}
use camex.Server.Entries.Started.{Found, free_client-Found, Quiet, quietest-Quiet}
use camex.Server.Reload.{
  sweep, over_all, drop_at, check_known, revalidate_unknown_clients, key_allowed, check_key,
  revalidate_keys, foreign, withdraw, check_address, revalidate_profile_addresses,
}
use camex.Server.Reload.Checked.{check_key-IsStep, check_address-IsStep}
use camex.Server.Steps.{
  started, ended, expired, dropped, updated, cursor_moved, noted, IsUpdate, Reached, begin,
  then_step,
}

-- Steps after steps.
pub onwards : (s t u : Server) → Reached s t → Reached t u → Reached s u
onwards s t u r begin = r
onwards s t u r (then_step {t = w} q step) = then_step (onwards s t w r q) step

abbrev Within : ℕ → Option ℕ → Type 0
Within n none = Unit
Within n (some k) = k < n

evicted-Reached :
    (m : ℕ → Memory) (g : Config) (clock : Clock) (s : Server) (o : Option ℕ)
    → Within (max_clients s.clients) o
    → Reached s (evicted m g clock s o).server
evicted-Reached m g clock s none l = begin
evicted-Reached m g clock s (some k) l =
    then_step (then_step begin (ended m g clock k l))
      (started k (omega (arith, l, end_client-max m g clock k s)))

Quiet-Within :
    (s : Server) (o : Option ℕ)
    → Quiet s.clients.table (max_clients s.clients) o
    → Within (max_clients s.clients) o
Quiet-Within s none q = tt
Quiet-Within s (some k) q = q.0

alloc_from-Reached :
    (m : ℕ → Memory) (g : Config) (clock : Clock) (holding : Bool) (s : Server) (o : Option ℕ)
    → Found s.clients o
    → Reached s (alloc_from m g clock holding s o).server
alloc_from-Reached m g clock holding s (some i) (l, off) =
    then_step (then_step begin (started i l)) (cursor_moved _)
alloc_from-Reached m g clock true s none f = begin
alloc_from-Reached m g clock false s none f =
    let n : ℕ = max_clients s.clients in
    let o : Option ℕ = quietest n 0 s.clients.table none in
    evicted-Reached m g clock s o
      (Quiet-Within s o (quietest-Quiet n 0 n s.clients.table none (omega arith) refl))

-- `server_alloc_client` is made of steps.
pub alloc_client-Reached :
    (m : ℕ → Memory) (g : Config) (clock : Clock) (holding : Bool) (s : Server)
    → Reached s (alloc_client m g clock holding s).server
unfolding alloc_client
alloc_client-Reached m g clock holding s =
    let n : ℕ = max_clients s.clients in
    let o : Option ℕ = free_client n 0 s.clients in
    if_elim (λ (a : Alloc). Reached s a.server) (n == 0) (record { server = s; slot = none })
      (alloc_from m g clock holding s o) (λ _. begin)
      (λ p.
        alloc_from-Reached m g clock holding s o
          (free_client-Found n 0 s.clients (ground (arith, p))))

walked-Reached :
    (g : Config) (clock : Clock) (s : Server) (w : Walk) → Reached s (walked g clock s w).server
walked-Reached g clock s (usable host) =
    then_step begin (noted _ s.pool_full_at s.last_expire_check s.pool_full)
walked-Reached g clock s (leased (some l)) = begin
walked-Reached g clock s (leased none) =
    then_step begin (noted s.auto_pool_next clock.now s.last_expire_check g.pool)

-- `server_auto_pool_take` is made of steps.
pub auto_pool_take-Reached :
    (g : Config) (clock : Clock) (k : ℕ) (s : Server)
    → Reached s (auto_pool_take g clock k s).server
unfolding auto_pool_take
auto_pool_take-Reached g clock k s =
    let start : ℕ =
      if leb (pool_first g.pool) s.auto_pool_next && leb s.auto_pool_next (pool_last g.pool)
      then s.auto_pool_next - pool_first g.pool
      else 0 in
    let w : Walk = walk g clock k start (range g.pool) (range g.pool) 0 s none in
    if_elim (λ (t : Taken). Reached s t.server)
      (s.pool_full_at == clock.now && not (s.pool_full_at == 0) && same_pool s.pool_full g.pool)
      (record { server = s; ip = none }) (walked g clock s w) (λ _. begin)
      (λ _. walked-Reached g clock s w)

expire_from-Reached :
    (m : ℕ → ℕ → Memory) (g : Config) (clock : Clock) (rounds k : ℕ) (s : Server)
    → k + rounds ≤ max_clients s.clients
    → Reached s (expire_from m g clock rounds k s)
unfolding expire_from
expire_from-Reached m g clock zero k s l = begin
expire_from-Reached m g clock (suc rounds) k s l =
    let t : Server = expire_client (m k) g clock k s in
    let same = (expire_client-IsTurn (m k) g clock k s).same_max in
    onwards s t _ (then_step begin (expired (m k) g clock k (omega (arith, l))))
      (expire_from-Reached m g clock rounds (k + 1) t (omega (arith, l, same)))

-- `server_expire_clients` is made of steps.
pub expire_clients-Reached :
    (m : ℕ → ℕ → Memory) (g : Config) (clock : Clock) (s : Server)
    → Reached s (expire_clients m g clock s)
unfolding expire_clients
expire_clients-Reached m g clock s =
    let now : ℕ = moment clock in
    let t : Server = record s { last_expire_check = now } in
    let n : ℕ = max_clients s.clients in
    if_elim (Reached s) (now == s.last_expire_check) s (expire_from m g clock n 0 t) (λ _. begin)
      (λ _.
        onwards s t (expire_from m g clock n 0 t)
          (then_step begin (noted s.auto_pool_next s.pool_full_at now s.pool_full))
          (expire_from-Reached m g clock n 0 t (omega arith)))

module _ (step : ℕ → Server → Server)
    (takes : (k : ℕ) (s : Server) → k < max_clients s.clients → Reached s (step k s))
    (same_max : (k : ℕ) (s : Server) → max_clients (step k s).clients ≡ max_clients s.clients) where
  sweep-Reached :
      (rounds k : ℕ) (s : Server)
      → k + rounds ≤ max_clients s.clients
      → Reached s (sweep step rounds k s)
  unfolding sweep
  sweep-Reached zero k s l = begin
  sweep-Reached (suc rounds) k s l =
      onwards s (step k s) _ (takes k s (omega (arith, l)))
        (sweep-Reached rounds (k + 1) (step k s) (omega (arith, l, same_max k s)))

  over_all-Reached : (s : Server) → Reached s (over_all step s)
  over_all-Reached s = sweep-Reached (max_clients s.clients) 0 s (omega arith)

check_known-Reached :
    (m : ℕ → ℕ → Memory) (g : Config) (clock : Clock) (k : ℕ) (s : Server)
    → k < max_clients s.clients
    → Reached s (check_known m g clock k s)
unfolding check_known
check_known-Reached m g clock k s l =
    let c : Client = entry s k in
    if_elim (Reached s) (not c.active || not c.auto_client || g.known_id c.id) s
      (end_client (m k) g clock k s) (λ _. begin) (λ _. then_step begin (ended (m k) g clock k l))

check_known-max :
    (m : ℕ → ℕ → Memory) (g : Config) (clock : Clock) (k : ℕ) (s : Server)
    → max_clients (check_known m g clock k s).clients ≡ max_clients s.clients
unfolding check_known
check_known-max m g clock k s =
    let c : Client = entry s k in
    if_elim (λ (t : Server). max_clients t.clients ≡ max_clients s.clients)
      (not c.active || not c.auto_client || g.known_id c.id) s (end_client (m k) g clock k s)
      (λ _. refl) (λ _. end_client-max (m k) g clock k s)

check_key-Reached :
    (m : ℕ → ℕ → Memory) (g : Config) (clock : Clock) (k : ℕ) (s : Server)
    → k < max_clients s.clients
    → Reached s (check_key m g clock k s)
unfolding check_key
check_key-Reached m g clock k s l =
    let c : Client = entry s k in
    let out : Server = end_client (m k) g clock k s in
    if_elim (Reached s) (not c.active || not c.registered) s (if key_allowed g c then s else out)
      (λ _. begin)
      (λ _.
        if_elim (Reached s) (key_allowed g c) s out (λ _. begin)
          (λ _. then_step begin (ended (m k) g clock k l)))

withdraw-IsUpdate : (g : Config) (c : Client) → IsUpdate c (withdraw g c)
unfolding withdraw
withdraw-IsUpdate g c =
    if_elim (IsUpdate c) (not (c.pending_ip == 0) && foreign (g.owner_of_ip c.pending_ip) c.id)
      (record c { pending_ip = 0; next = wiped }) c
      (λ _. record {
        active = refl;
        id = refl;
        addr = refl;
        ip = refl;
        pending_ip = inl refl;
        prev_ip = inr (refl, refl);
      })
      (λ _. record {
        active = refl;
        id = refl;
        addr = refl;
        ip = refl;
        pending_ip = inr refl;
        prev_ip = inr (refl, refl);
      })

check_address-Reached :
    (g : Config) (k : ℕ) (s : Server) → k < max_clients s.clients → Reached s (check_address g k s)
unfolding check_address
check_address-Reached g k s l =
    let d : Client = withdraw g (entry s k) in
    let withdrawn : Reached s (record s { clients = put_client k d s.clients }) =
      then_step begin (updated k d l (withdraw-IsUpdate g (entry s k))) in
    let t : Server = record s { clients = put_client k d s.clients } in
    let c : Client = entry s k in
    let may_stay : Bool =
      not (foreign (g.owner_of_ip c.ip) c.id) || (not c.auto_client && is_empty c.id) in
    if_elim (Reached s) (not c.active || not c.registered) s (if may_stay then t else drop_at k t)
      (λ _. begin)
      (λ _.
        if_elim (Reached s) may_stay t (drop_at k t) (λ _. withdrawn)
          (λ _. then_step withdrawn (dropped k (omega (arith, l, length-set s.clients.table k d)))))

-- The checks after a reload are made of steps.
pub revalidate-Reached :
    (m : ℕ → ℕ → Memory) (g : Config) (clock : Clock) (s : Server)
    → Reached s (revalidate_unknown_clients m g clock s)
      × Reached s (revalidate_keys m g clock s)
      × Reached s (revalidate_profile_addresses g s)
unfolding revalidate_unknown_clients revalidate_keys revalidate_profile_addresses
revalidate-Reached m g clock s = (
  if_elim (Reached s) (not g.deny_unknown) s _ (λ _. begin)
      (λ _.
        over_all-Reached (check_known m g clock) (check_known-Reached m g clock)
          (check_known-max m g clock) s),
  over_all-Reached (check_key m g clock) (check_key-Reached m g clock)
      (λ k t. (check_key-IsStep m g clock k t).same_max) s,
  over_all-Reached (check_address g) (check_address-Reached g)
      (λ k t. (check_address-IsStep g k t).same_max) s,
)
