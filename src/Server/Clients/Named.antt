-- ===== src/Server/Clients/Named.antt =====
-- Every operation on an entry keeps the IDs of the table within their buffers.
use camex.Base.{
  ℕ, zero, suc, ◌+◌, ◌≤◌, ap, not, ◌&&◌, List, [], ◌∷◌, length, take, get_or, set, ltb, ◌==◌,
  if◌then◌else◌, if_elim, arith, bytes_eq, length-take,
}
use camex.Session.Transport.{wiped}
use camex.Slotidx.{hash_u32, hash_nocase}
use camex.Server.Leases.{Memory, is_empty, id_max}
use camex.Server.Clients.{
  Addr, sockaddr_equal, addr_is_set, hash_addr, Client, no_client, Which, by_ip, by_id, by_addr,
  Clients, client_at, put_client, index_add,
}
use camex.Server.Clients.Kept.{index_add-table}
use camex.Server.Clients.Set.{
  set_ip, set_pending, assign_ip, restore_ip, set_id, set_addr, confirm, take_pending,
  expire_sessions, prev_grace,
}

abbrev pub IsNamed : Clients → Type 0
IsNamed s = (i : ℕ) → length (client_at s i).id ≤ id_max

set-named :
    (table : List Client) (k : ℕ) (c : Client)
    → ((i : ℕ) → length (get_or table i no_client).id ≤ id_max)
    → length c.id ≤ id_max
    → (i : ℕ) → length (get_or (set table k c) i no_client).id ≤ id_max
set-named [] k c h l i = h i
set-named (d ∷ table) zero c h l zero = l
set-named (d ∷ table) zero c h l (suc i) = h (suc i)
set-named (d ∷ table) (suc k) c h l zero = h zero
set-named (d ∷ table) (suc k) c h l (suc i) = set-named table k c (λ j. h (suc j)) l i

pub put_client-IsNamed :
    (k : ℕ) (c : Client) (s : Clients)
    → IsNamed s
    → length c.id ≤ id_max
    → IsNamed (put_client k c s)
put_client-IsNamed k c s h l = set-named s.table k c h l

index_add-IsNamed :
    (w : Which) (memory : Memory) (h k : ℕ) (s : Clients)
    → IsNamed s
    → IsNamed (index_add w memory h k s)
index_add-IsNamed w memory h k s n i =
    rw (ap (λ t. length (get_or t i no_client).id) (index_add-table w memory h k s)) (n i)

pub set_ip-IsNamed :
    (memory : Memory) (k ip : ℕ) (s : Clients) → IsNamed s → IsNamed (set_ip memory k ip s)
unfolding set_ip
set_ip-IsNamed memory k ip s n =
    let d : Client = record (client_at s k) { ip = ip } in
    let t : Clients = put_client k d s in
    let m : IsNamed t = put_client-IsNamed k d s n (n k) in
    if_elim IsNamed ((client_at s k).ip == ip) s _ (λ _. n)
      (λ _.
        if_elim IsNamed (ip == 0) t _ (λ _. m)
          (λ _. index_add-IsNamed by_ip memory (hash_u32 ip) k t m))

pending-IsNamed : (k ip : ℕ) (s : Clients) → IsNamed s → IsNamed (set_pending k ip s)
pending-IsNamed k ip s n =
    put_client-IsNamed k (record (client_at s k) { pending_ip = ip }) s n (n k)

pub assign_ip-IsNamed :
    (memory : Memory) (k ip : ℕ) (s : Clients) → IsNamed s → IsNamed (assign_ip memory k ip s)
unfolding assign_ip
assign_ip-IsNamed memory k ip s n =
    let c : Client = client_at s k in
    if_elim IsNamed (c.cur.valid && not (c.ip == 0) && not (ip == c.ip)) _ _
      (λ _.
        if_elim IsNamed (c.pending_ip == ip) s _ (λ _. n)
          (λ _.
            index_add-IsNamed by_ip memory (hash_u32 ip) k (set_pending k ip s)
              (pending-IsNamed k ip s n)))
      (λ _. set_ip-IsNamed memory k ip (set_pending k 0 s) (pending-IsNamed k 0 s n))

pub restore_ip-IsNamed :
    (memory : ℕ → Memory) (k ip pending : ℕ) (s : Clients)
    → IsNamed s
    → IsNamed (restore_ip memory k ip pending s)
unfolding restore_ip
restore_ip-IsNamed memory k ip pending s n =
    let s1 : Clients = set_ip (memory 0) k ip s in
    let a : Clients = set_pending k pending s1 in
    let na : IsNamed a = pending-IsNamed k pending s1 (set_ip-IsNamed (memory 0) k ip s n) in
    let b : Clients = if ip == 0 then a else index_add by_ip (memory 1) (hash_u32 ip) k a in
    let nb : IsNamed b =
      if_elim IsNamed (ip == 0) a _ (λ _. na)
        (λ _. index_add-IsNamed by_ip (memory 1) (hash_u32 ip) k a na) in
    if_elim IsNamed (pending == 0) b _ (λ _. nb)
      (λ _. index_add-IsNamed by_ip (memory 2) (hash_u32 pending) k b nb)

pub set_id-IsNamed :
    (memory : Memory) (k : ℕ) (id : List ℕ) (s : Clients)
    → IsNamed s
    → IsNamed (set_id memory k id s)
unfolding set_id
set_id-IsNamed memory k id s n =
    let new : List ℕ = take id_max id in
    let d : Client = record (client_at s k) { id = new } in
    let t : Clients = put_client k d s in
    let short : length new ≤ id_max = omega (arith, length-take id_max id) in
    let m : IsNamed t = put_client-IsNamed k d s n short in
    if_elim IsNamed (bytes_eq (client_at s k).id id) s _ (λ _. n)
      (λ _.
        if_elim IsNamed (is_empty new) t _ (λ _. m)
          (λ _. index_add-IsNamed by_id memory (hash_nocase new) k t m))

pub set_addr-IsNamed :
    (memory : Memory) (k : ℕ) (addr : Addr) (s : Clients)
    → IsNamed s
    → IsNamed (set_addr memory k addr s)
unfolding set_addr
set_addr-IsNamed memory k addr s n =
    let d : Client = record (client_at s k) { addr = addr } in
    let t : Clients = put_client k d s in
    let m : IsNamed t = put_client-IsNamed k d s n (n k) in
    if_elim IsNamed (sockaddr_equal (client_at s k).addr addr && addr_is_set addr) s _ (λ _. n)
      (λ _.
        if_elim IsNamed (addr_is_set addr) _ t
          (λ _. index_add-IsNamed by_addr memory (hash_addr addr) k t m) (λ _. m))

pub confirm-IsNamed : (now k : ℕ) (s : Clients) → IsNamed s → IsNamed (confirm now k s)
unfolding confirm
confirm-IsNamed now k s n = put_client-IsNamed k _ s n (n k)

pub take_pending-IsNamed :
    (memory : Memory) (k : ℕ) (s : Clients) → IsNamed s → IsNamed (take_pending memory k s)
unfolding take_pending
take_pending-IsNamed memory k s n =
    let c : Client = client_at s k in
    let s1 : Clients = set_ip memory k c.pending_ip s in
    if_elim IsNamed (c.pending_ip == 0) s _ (λ _. n)
      (λ _. pending-IsNamed k 0 s1 (set_ip-IsNamed memory k c.pending_ip s n))

pub expire_sessions-IsNamed :
    (now k : ℕ) (s : Clients) → IsNamed s → IsNamed (expire_sessions now k s)
unfolding expire_sessions
expire_sessions-IsNamed now k s n =
    let c : Client = client_at s k in
    let old : Client = record c { prev = wiped; prev_ip = 0 } in
    let rest : Client → Client = λ a.
      if a.next.valid && ltb (a.next.created + prev_grace) now
      then record a { next = wiped; pending_ip = 0 }
      else a in
    let P : Client → Type 0 = λ d. length d.id ≤ id_max in
    let kept : (a : Client) → P a → P (rest a) = λ a p.
      if_elim P (a.next.valid && ltb (a.next.created + prev_grace) now)
        (record a { next = wiped; pending_ip = 0 }) a (λ _. p) (λ _. p) in
    if_elim IsNamed c.active _ s
      (λ _. put_client-IsNamed k _ s n (
        if_elim (λ a. P (rest a)) (c.prev.valid && ltb c.prev_until now) old c (λ _. kept old (n k))
          (λ _. kept c (n k))))
      (λ _. n)
