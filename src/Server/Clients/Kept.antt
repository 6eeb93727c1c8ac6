-- ===== src/Server/Clients/Kept.antt =====
-- Every operation on an entry leaves indexes that cover the table.
use camex.Base.{
  ℕ, ◌<◌, ◌≡◌, refl, ap, ◌∙◌, inl, inr, not, ◌&&◌, Option, none, some, length, ◌==◌, if◌then◌else◌,
  if_elim, arith, length-set, ==_iff,
}
use camex.Slotidx.{Index, hash_u32, insert, crowded}
use camex.Server.Leases.{Memory}
use camex.Server.Clients.{
  Client, Which, by_ip, index_of, Clients, client_at, max_clients, put_client, index_add,
  index_added, index_rebuild, crowd,
}
use camex.Server.Clients.Resets.{IsTabled}
use camex.Server.Clients.Add.{KeysBut, KeysOf, IsLacking, put_client-IsLacking, put_client-IsTabled}
use camex.Server.Clients.Added.{index_add-IsTabled, index_add-IsLacking, IsTabled-IsLacking}
use camex.Server.Clients.Keys.{ip-KeysBut, ip-KeysOf}
use camex.Server.Clients.Set.{set_ip, set_pending, assign_ip, restore_ip}

-- A table with the slots of `s` and indexes that cover it.
abbrev pub Kept : Clients → Clients → Type 0
Kept s t = IsTabled t × (max_clients t ≡ max_clients s)

index_added-table :
    (w : Which) (memory : Memory) (s : Clients) (o : Option Index)
    → (index_added w memory s o).table ≡ s.table
unfolding index_rebuild
index_added-table w memory s none = refl
index_added-table w memory s (some y) = refl

pub index_add-table :
    (w : Which) (memory : Memory) (h k : ℕ) (s : Clients)
    → (index_add w memory h k s).table ≡ s.table
unfolding index_add index_rebuild
index_add-table w memory h k s =
    let x : Index = index_of w s.indexes in
    if_elim (λ t. t.table ≡ s.table) (not s.indexes.ok) s _ (λ _. refl)
      (λ _.
        if_elim (λ t. t.table ≡ s.table) (crowded x (crowd w (max_clients s)))
          (index_rebuild memory s) _ (λ _. refl)
          (λ _. index_added-table w memory s (insert (memory 0) x h k)))

-- A new key: the entry first, then the index.
pub enters :
    (w : Which) (memory : Memory) (h k : ℕ) (c : Client) (s : Clients)
    → IsTabled s
    → k < max_clients s
    → KeysBut w h (client_at s k) c
    → Kept s (index_add w memory h k (put_client k c s))
enters w memory h k c s t l keys = (
  index_add-IsTabled w memory h k (put_client k c s) (put_client-IsLacking w h k c s t l keys),
  ap length (index_add-table w memory h k (put_client k c s)) ∙ length-set s.table k c,
)

pub loses :
    (k : ℕ) (c : Client) (s : Clients)
    → IsTabled s
    → k < max_clients s
    → KeysOf (client_at s k) c
    → Kept s (put_client k c s)
loses k c s t l keys = (put_client-IsTabled k c s t l keys, length-set s.table k c)

pub set_ip-Kept :
    (memory : Memory) (k ip : ℕ) (s : Clients)
    → IsTabled s
    → k < max_clients s
    → Kept s (set_ip memory k ip s)
unfolding set_ip
set_ip-Kept memory k ip s t l =
    let c : Client = client_at s k in
    let d : Client = record c { ip = ip } in
    if_elim (Kept s) (c.ip == ip) s _ (λ _. (t, refl))
      (λ _.
        if_elim (Kept s) (ip == 0) (put_client k d s) _
          (λ z. loses k d s t l (
            ip-KeysOf c d refl refl refl (λ h q. elim q [
              | inl (p, e) ↦ absurd (p (ground (arith, z)))
              | inr others ↦ inr others
            ])))
          (λ _. enters by_ip memory (hash_u32 ip) k d s t l (
            ip-KeysBut (hash_u32 ip) c d refl refl refl
              (λ h q. elim q [ inl (p, e) ↦ inl e | inr others ↦ inr (inr others) ]))))

-- The keys after the pending address has become another one.
pending-KeysBut :
    (c : Client) (ip : ℕ) → KeysBut by_ip (hash_u32 ip) c (record c { pending_ip = ip })
pending-KeysBut c ip =
    ip-KeysBut (hash_u32 ip) c (record c { pending_ip = ip }) refl refl refl
      (λ h q. elim q [
        | inl current ↦ inr (inl current)
        | inr (inl (p, e)) ↦ inl e
        | inr (inr old) ↦ inr (inr (inr old))
      ])

pub pending-KeysOf : (c : Client) (ip : ℕ) → ip ≡ 0 → KeysOf c (record c { pending_ip = ip })
pending-KeysOf c ip z =
    ip-KeysOf c (record c { pending_ip = ip }) refl refl refl
      (λ h q. elim q [
        | inl current ↦ inl current
        | inr (inl (p, e)) ↦ absurd (p z)
        | inr (inr old) ↦ inr (inr old)
      ])

pub after : (s t u : Clients) → max_clients t ≡ max_clients s → Kept t u → Kept s u
after s t u e (i, m) = (i, m ∙ e)

pub assign_ip-Kept :
    (memory : Memory) (k ip : ℕ) (s : Clients)
    → IsTabled s
    → k < max_clients s
    → Kept s (assign_ip memory k ip s)
unfolding assign_ip
assign_ip-Kept memory k ip s t l =
    let c : Client = client_at s k in
    let (u, e) = loses k (record c { pending_ip = 0 }) s t l (pending-KeysOf c 0 refl) in
    if_elim (Kept s) (c.cur.valid && not (c.ip == 0) && not (ip == c.ip)) _ _
      (λ _.
        if_elim (Kept s) (c.pending_ip == ip) s _ (λ _. (t, refl))
          (λ _.
            enters by_ip memory (hash_u32 ip) k (record c { pending_ip = ip }) s t l
              (pending-KeysBut c ip)))
      (λ _.
        after s (set_pending k 0 s) _ e
          (set_ip-Kept memory k ip (set_pending k 0 s) u (omega (arith, e, l))))

again :
    (w : Which) (memory : Memory) (h k : ℕ) (s : Clients)
    → IsTabled s
    → k < max_clients s
    → Kept s (index_add w memory h k s)
again w memory h k s t l = (
  index_add-IsTabled w memory h k s (IsTabled-IsLacking w h k s l t),
  ap length (index_add-table w memory h k s),
)

pub restore_ip-Kept :
    (memory : ℕ → Memory) (k ip pending : ℕ) (s : Clients)
    → IsTabled s
    → k < max_clients s
    → Kept s (restore_ip memory k ip pending s)
unfolding restore_ip
restore_ip-Kept memory k ip pending s t l =
    let s1 : Clients = set_ip (memory 0) k ip s in
    let (t1, m1) = set_ip-Kept (memory 0) k ip s t l in
    let c : Client = client_at s1 k in
    let a : Clients = set_pending k pending s1 in
    let m2 : max_clients a ≡ max_clients s =
      length-set s1.table k (record c { pending_ip = pending }) ∙ m1 in
    let lacks : IsLacking by_ip (hash_u32 pending) k a =
      put_client-IsLacking by_ip (hash_u32 pending) k (record c { pending_ip = pending }) s1 t1
        (omega (arith, l, m1)) (pending-KeysBut c pending) in
    let b : Clients = if ip == 0 then a else index_add by_ip (memory 1) (hash_u32 ip) k a in
    let lacks_b : IsLacking by_ip (hash_u32 pending) k b =
      if_elim (IsLacking by_ip (hash_u32 pending) k) (ip == 0) a _ (λ _. lacks)
        (λ _. index_add-IsLacking by_ip (memory 1) (hash_u32 pending) (hash_u32 ip) k a lacks) in
    let m3 : max_clients b ≡ max_clients s =
      if_elim (λ x. max_clients x ≡ max_clients s) (ip == 0) a _ (λ _. m2)
        (λ _. ap length (index_add-table by_ip (memory 1) (hash_u32 ip) k a) ∙ m2) in
    if_elim (Kept s) (pending == 0) b _
      (λ z.
        let off : pending ≡ 0 = (==_iff pending 0).0 z in
        let (u, e) =
          loses k (record c { pending_ip = pending }) s1 t1 (omega (arith, l, m1))
            (pending-KeysOf c pending off) in
        if_elim (Kept s) (ip == 0) a _ (λ _. (u, m2))
          (λ _. after s a _ m2 (again by_ip (memory 1) (hash_u32 ip) k a u (omega (arith, l, m2)))))
      (λ _. (
        index_add-IsTabled by_ip (memory 2) (hash_u32 pending) k b lacks_b,
        ap length (index_add-table by_ip (memory 2) (hash_u32 pending) k b) ∙ m3,
      ))
