-- ===== src/Server/Leases/Ledger.antt =====
-- At most one lease for an address and one for an ID, and a count that is right: dropping leases.
use camex.Base.{
  ℕ, zero, suc, ◌^◌, ◌≤◌, ◌≡◌, ◌≢◌, refl, sym, ap, ◌∙◌, false, Option, none, some, List, [], ◌∷◌,
  map, get_or, set, ◌==◌, if_elim, arith, get_or-set_ne, length-map, ℕ_discrete, yes, no, ==_iff,
}
use camex.Slotidx.{to_lower}
use camex.Slotidx.Room.{occupied, occupied-clear, occupied-le}
use camex.Server.Leases.{Lease, no_lease, Leases, lease_at, cap, lease_drop}

abbrev pub ip_of : Lease → ℕ
ip_of l = l.ip

abbrev pub ips : List Lease → List ℕ
ips table = map ip_of table

-- A lease that a returning client gets back: not the address of a previous session.
abbrev pub IsOwn : Lease → Type 0
IsOwn l = (l.ip ≢ 0) × (l.prev ≡ false)

abbrev pub lower : List ℕ → List ℕ
lower text = map to_lower text

pub record IsLedger (s : Leases) : Type 0 where
  pub counted : s.used ≡ occupied (ips s.table)
  pub one_per_ip : (i j : ℕ) → (lease_at s i).ip ≢ 0 → (lease_at s i).ip ≡ (lease_at s j).ip → i ≡ j
  pub one_per_id :
      (i j : ℕ)
      → IsOwn (lease_at s i)
      → IsOwn (lease_at s j)
      → lower (lease_at s i).id ≡ lower (lease_at s j).id
      → i ≡ j

pub get_or-ips :
    (table : List Lease) (i : ℕ) → get_or (ips table) i 0 ≡ (get_or table i no_lease).ip
get_or-ips [] i = refl
get_or-ips (l ∷ table) zero = refl
get_or-ips (l ∷ table) (suc i) = get_or-ips table i

pub ips-set :
    (table : List Lease) (k : ℕ) (l : Lease) → ips (set table k l) ≡ set (ips table) k l.ip
ips-set [] k l = refl
ips-set (a ∷ table) zero l = refl
ips-set (a ∷ table) (suc k) l = ap (◌∷◌ a.ip) (ips-set table k l)

cleared : (table : List Lease) (k : ℕ) → get_or (set table k no_lease) k no_lease ≡ no_lease
cleared [] k = refl
cleared (l ∷ table) zero = refl
cleared (l ∷ table) (suc k) = cleared table k

-- A lease that a drop leaves.
left :
    (table : List Lease) (k i : ℕ)
    → (get_or (set table k no_lease) i no_lease).ip ≢ 0
    → (k ≢ i) × (get_or (set table k no_lease) i no_lease ≡ get_or table i no_lease)
left table k i p = elim (ℕ_discrete k i) [
  | yes e ↦ absurd (
      p (
        ap (λ n. (get_or (set table k no_lease) n no_lease).ip) (sym e)
        ∙ ap ip_of (cleared table k)))
  | no n ↦ (n, get_or-set_ne table k i no_lease no_lease n)
]

IsOwn-path : (a b : Lease) → a ≡ b → IsOwn a → IsOwn b
IsOwn-path a b e p = rw (← e) p

pub lease_drop-IsLedger :
    (o : Option ℕ) (s : Leases) → cap s ≤ 2 ^ 20 → IsLedger s → IsLedger (lease_drop o s)
unfolding lease_drop
lease_drop-IsLedger none s few g = g
lease_drop-IsLedger (some k) s few g =
    if_elim IsLedger ((lease_at s k).ip == 0) s _ (λ _. g)
      (λ used.
        let taken : get_or (ips s.table) k 0 ≢ 0 =
          λ z. ground (arith, used, sym (get_or-ips s.table k) ∙ z) in
        let fewer : suc (occupied (set (ips s.table) k 0)) ≡ occupied (ips s.table) =
          occupied-clear (ips s.table) k taken in
        let few' : occupied (ips s.table) ≤ cap s =
          omega (arith, occupied-le (ips s.table), length-map ip_of s.table) in
        record {
          counted =
              omega (arith, g.counted, fewer, few', few, ap occupied (ips-set s.table k no_lease));
          one_per_ip = λ i j p e.
              let (ni, ki) = left s.table k i p in
              let (nj, kj) = left s.table k j (λ z. p (e ∙ z)) in
              g.one_per_ip i j (λ z. p (ap ip_of ki ∙ z)) (sym (ap ip_of ki) ∙ (e ∙ ap ip_of kj));
          one_per_id = λ i j p q e.
              let (ni, ki) = left s.table k i p.0 in
              let (nj, kj) = left s.table k j q.0 in
              g.one_per_id i j (IsOwn-path _ _ ki p) (IsOwn-path _ _ kj q)
                (sym (ap (λ l. lower l.id) ki) ∙ (e ∙ ap (λ l. lower l.id) kj));
        })

-- A lease that a drop leaves was there before it.
pub lease_drop-left :
    (o : Option ℕ) (s : Leases) (i : ℕ)
    → (lease_at (lease_drop o s) i).ip ≢ 0
    → lease_at (lease_drop o s) i ≡ lease_at s i
unfolding lease_drop
lease_drop-left none s i p = refl
lease_drop-left (some k) s i p =
    if_elim (λ t. (lease_at t i).ip ≢ 0 → lease_at t i ≡ lease_at s i) ((lease_at s k).ip == 0) s _
      (λ _ q. refl) (λ _ q. (left s.table k i q).1) p

-- The slot that a drop names is free afterwards.
pub lease_drop-free : (k : ℕ) (s : Leases) → (lease_at (lease_drop (some k) s) k).ip ≡ 0
unfolding lease_drop
lease_drop-free k s =
    if_elim (λ t. (lease_at t k).ip ≡ 0) ((lease_at s k).ip == 0) s _
      (λ free. (==_iff (lease_at s k).ip 0).0 free) (λ _. ap ip_of (cleared s.table k))
