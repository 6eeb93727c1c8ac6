-- ===== src/Server/Clients/Ended.antt =====
-- The other operations on an entry, and the sessions of an entry that expire.
use camex.Base.{
  ℕ, ◌+◌, ◌<◌, ◌≡◌, refl, sym, ap, ◌∙◌, ◌⊎◌, inl, inr, Bool, false, ◌&&◌, List, take, ltb, ◌==◌,
  if◌then◌else◌, if_elim, arith, bytes_eq,
}
use camex.Session.Transport.{wiped}
use camex.Slotidx.{hash_u32, hash_nocase}
use camex.Server.Leases.{Memory, is_empty, id_max}
use camex.Server.Clients.{
  Addr, sockaddr_equal, hash_addr, addr_is_set, Client, no_client, by_id, by_addr, Clients,
  client_at, max_clients, put_client,
}
use camex.Server.Clients.Resets.{IsTabled}
use camex.Server.Clients.Add.{KeysBut, KeysOf}
use camex.Server.Clients.Keys.{
  ip-KeysOf, id-KeysBut, addr-KeysBut, blank-KeysOf, no_id-KeysOf, no_addr-KeysOf,
}
use camex.Server.Clients.Set.{
  set_ip, set_id, set_addr, drop_entry, confirm, take_pending, expire_sessions, prev_grace,
}
use camex.Server.Clients.Kept.{Kept, enters, loses, after, set_ip-Kept, pending-KeysOf}

pub set_id-Kept :
    (memory : Memory) (k : ℕ) (id : List ℕ) (s : Clients)
    → IsTabled s
    → k < max_clients s
    → Kept s (set_id memory k id s)
unfolding set_id
set_id-Kept memory k id s t l =
    let c : Client = client_at s k in
    let new : List ℕ = take id_max id in
    let keys : KeysBut by_id (hash_nocase new) c (record c { id = new }) = id-KeysBut c new in
    if_elim (Kept s) (bytes_eq c.id id) s _ (λ _. (t, refl))
      (λ _.
        if_elim (Kept s) (is_empty new) (put_client k (record c { id = new }) s) _
          (λ e. loses k (record c { id = new }) s t l (no_id-KeysOf c new e))
          (λ _. enters by_id memory (hash_nocase new) k (record c { id = new }) s t l keys))

pub set_addr-Kept :
    (memory : Memory) (k : ℕ) (addr : Addr) (s : Clients)
    → IsTabled s
    → k < max_clients s
    → Kept s (set_addr memory k addr s)
unfolding set_addr
set_addr-Kept memory k addr s t l =
    let c : Client = client_at s k in
    let d : Client = record c { addr = addr } in
    if_elim (Kept s) (sockaddr_equal c.addr addr && addr_is_set addr) s _ (λ _. (t, refl))
      (λ _.
        if_elim (Kept s) (addr_is_set addr) _ (put_client k d s)
          (λ _. enters by_addr memory (hash_addr addr) k d s t l (addr-KeysBut c addr))
          (λ e. loses k d s t l (no_addr-KeysOf c addr e)))

pub drop_entry-Kept :
    (k : ℕ) (s : Clients) → IsTabled s → k < max_clients s → Kept s (drop_entry k s)
unfolding drop_entry
drop_entry-Kept k s t l = loses k no_client s t l (blank-KeysOf (client_at s k) false)

pub confirm-Kept :
    (now k : ℕ) (s : Clients) → IsTabled s → k < max_clients s → Kept s (confirm now k s)
unfolding confirm
confirm-Kept now k s t l =
    let c : Client = client_at s k in
    let d : Client = record c {
      prev = c.cur;
      prev_until = now + prev_grace;
      prev_ip = c.ip;
      cur = c.next;
      next = wiped;
    } in
    loses k d s t l (
      ip-KeysOf c d refl refl refl (λ h q. elim q [
        | inl current ↦ inl current
        | inr (inl pending) ↦ inr (inl pending)
        | inr (inr (v, p, e)) ↦ inl (p, e)
      ]))

pub take_pending-Kept :
    (memory : Memory) (k : ℕ) (s : Clients)
    → IsTabled s
    → k < max_clients s
    → Kept s (take_pending memory k s)
unfolding take_pending
take_pending-Kept memory k s t l =
    let c : Client = client_at s k in
    let s1 : Clients = set_ip memory k c.pending_ip s in
    let (t1, m1) = set_ip-Kept memory k c.pending_ip s t l in
    if_elim (Kept s) (c.pending_ip == 0) s _ (λ _. (t, refl))
      (λ _. after s s1 _ m1 (
        loses k (record (client_at s1 k) { pending_ip = 0 }) s1 t1 (omega (arith, l, m1))
          (pending-KeysOf (client_at s1 k) 0 refl)))

pub expired-KeysOf :
    (c d : Client)
    → d.active ≡ c.active
    → d.id ≡ c.id
    → d.addr ≡ c.addr
    → d.ip ≡ c.ip
    → ((d.pending_ip ≡ 0) ⊎ (d.pending_ip ≡ c.pending_ip))
    → ((d.prev_ip ≡ 0) ⊎ ((d.prev_ip ≡ c.prev_ip) × (d.prev.valid ≡ c.prev.valid)))
    → KeysOf c d
expired-KeysOf c d a i r e f g = ip-KeysOf c d a i r (λ h q. elim q [
  | inl (p, k) ↦ inl ((λ z. p (e ∙ z)), k ∙ ap hash_u32 e)
  | inr (inl (p, k)) ↦ elim f [
    | inl z ↦ absurd (p z)
    | inr s ↦ inr (inl ((λ z. p (s ∙ z)), k ∙ ap hash_u32 s))
  ]
  | inr (inr (v, p, k)) ↦ elim g [
    | inl z ↦ absurd (p z)
    | inr (s, w) ↦ inr (inr (sym w ∙ v, (λ z. p (s ∙ z)), k ∙ ap hash_u32 s))
  ]
])

pub expire_sessions-Kept :
    (now k : ℕ) (s : Clients) → IsTabled s → k < max_clients s → Kept s (expire_sessions now k s)
unfolding expire_sessions
expire_sessions-Kept now k s t l =
    let c : Client = client_at s k in
    let old : Client = record c { prev = wiped; prev_ip = 0 } in
    let stale : Client → Bool = λ a. a.next.valid && ltb (a.next.created + prev_grace) now in
    let P : Client → Type 0 = λ d. Kept s (put_client k d s) in
    let refused : (a : Client)
        → KeysOf c a
        → KeysOf c (record a { next = wiped; pending_ip = 0 })
        → P (if stale a then record a { next = wiped; pending_ip = 0 } else a) =
      λ a n m.
        if_elim P (stale a) (record a { next = wiped; pending_ip = 0 }) a
          (λ _. loses k (record a { next = wiped; pending_ip = 0 }) s t l m)
          (λ _. loses k a s t l n) in
    let rest : Client → Client =
      λ a. if stale a then record a { next = wiped; pending_ip = 0 } else a in
    if_elim (Kept s) c.active _ s
      (λ _.
        if_elim (λ a. P (rest a)) (c.prev.valid && ltb c.prev_until now) old c
          (λ _. refused old (expired-KeysOf c old refl refl refl refl (inr refl) (inl refl)) (
            expired-KeysOf c (record old { next = wiped; pending_ip = 0 }) refl refl refl refl
              (inl refl) (inl refl)))
          (λ _. refused c (expired-KeysOf c c refl refl refl refl (inr refl) (inr (refl, refl))) (
            expired-KeysOf c (record c { next = wiped; pending_ip = 0 }) refl refl refl refl
              (inl refl) (inr (refl, refl)))))
      (λ _. (t, refl))
