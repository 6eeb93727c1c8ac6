-- ===== src/Server/Leases/Keep.antt =====
-- Keeping an address: what `server_lease_add` as a whole does to the leases and to later lookups.
use camex.Base.{
  ℕ, ◌≤◌, ◌<◌, ◌≡◌, ◌≢◌, refl, sym, ap, ◌∙◌, inl, inr, Bool, true, false, ◌||◌, Option, none, some,
  List, length, get_or, ◌==◌, if_true, if_false, if_elim, arith, length-set, take, take_all,
  get_or-set_self, Option-cases, Bool-cases,
}
use camex.Slotidx.Room.{occupied}
use camex.Slotidx.Find.{IsLeast}
use camex.Server.Pool.{Pool}
use camex.Server.Leases.{
  Lease, no_lease, Leases, lease_at, cap, Memory, Clock, Chosen, choose, is_empty, lease_by_ip,
  lease_by_id, lease_drop, id_max, match_lease_ip, lease_allows, allowed, same_name,
}
use camex.Server.Leases.Add.{make_room, make_way, write_lease, index_lease, lease_add, moment}
use camex.Server.Leases.Indexed.{IsIndexed}
use camex.Server.Leases.Rebuild.{IsSameTable}
use camex.Server.Leases.Lookup.{lease_by_ip-IsLeast, match_lease_ip-true, match_lease_ip-holds}
use camex.Server.Leases.Added.{lease_drop-IsIndexed, index_lease-Rebuilt}
use camex.Server.Leases.Room.{
  IsChoice, choose-IsChoice, IsRoom, make_room-IsRoom, write_lease-IsPending,
}
use camex.Server.Leases.Ledger.{
  IsLedger, IsOwn, lower, ip_of, ips, lease_drop-IsLedger, lease_drop-left,
}
use camex.Server.Leases.Clear.{drop_ip-clear, drop_id-clear, taken-inside}
use camex.Server.Leases.Written.{IsClear, room-IsClear, write_lease-IsLedger}

-- Leases as the program has them.
pub record IsLeases (s : Leases) : Type 0 where
  pub indexed : IsIndexed s
  pub ledger : IsLedger s

pub lease_drop-cap : (o : Option ℕ) (s : Leases) → cap (lease_drop o s) ≡ cap s
unfolding lease_drop
lease_drop-cap none s = refl
lease_drop-cap (some k) s =
    if_elim (λ t. cap t ≡ cap s) ((lease_at s k).ip == 0) s _ (λ _. refl)
      (λ _. length-set s.table k no_lease)

pub lease_drop-IsLeases : (o : Option ℕ) (s : Leases) → IsLeases s → IsLeases (lease_drop o s)
lease_drop-IsLeases o s i = record {
  indexed = lease_drop-IsIndexed o s i.indexed;
  ledger = lease_drop-IsLedger o s i.indexed.few i.ledger;
}

-- The table without what the new lease replaces.
record IsWay (id : List ℕ) (ip : ℕ) (prev : Bool) (s t : Leases) : Type 0 where
  pub leases : IsLeases t
  pub clear : IsClear id ip prev t
  pub same_cap : cap t ≡ cap s

IsWay-drop :
    (id : List ℕ) (ip : ℕ) (prev : Bool) (s own : Leases)
    → IsLeases own
    → cap own ≡ cap s
    → ip ≢ 0
    → (prev ≡ false → (i : ℕ) → IsOwn (lease_at own i) → lower (lease_at own i).id ≢ lower id)
    → IsWay id ip prev s (lease_drop (lease_by_ip own ip) own)
IsWay-drop id ip prev s own i c p free =
    let o : Option ℕ = lease_by_ip own ip in
    let j : IsLeases (lease_drop o own) = lease_drop-IsLeases o own i in
    record {
      leases = j;
      clear = record {
        ledger = j.ledger;
        no_ip = λ k. drop_ip-clear own ip k i.indexed i.ledger p;
        no_id = λ e k q.
            let kept : lease_at (lease_drop o own) k ≡ lease_at own k =
              lease_drop-left o own k q.0 in
            rw kept (free e k (rw (← kept) q));
      };
      same_cap = lease_drop-cap o own ∙ c;
    }

make_way-IsWay :
    (id : List ℕ) (ip : ℕ) (prev : Bool) (s : Leases)
    → IsLeases s
    → ip ≢ 0
    → is_empty id ≡ false
    → IsWay id ip prev s (make_way id ip prev s)
unfolding make_way
make_way-IsWay id ip true s i p n = IsWay-drop id ip true s s i refl p (λ e. absurd (cc e))
make_way-IsWay id ip false s i p n =
    let o : Option ℕ = lease_by_id s id in
    IsWay-drop id ip false s (lease_drop o s) (lease_drop-IsLeases o s i) (lease_drop-cap o s) p
      (λ _ k. drop_id-clear s id k i.indexed i.ledger n)

-- What an addition gives.
pub record IsAdded (clock : Clock) (id : List ℕ) (ip : ℕ) (prev : Bool) (t : Leases) : Type 0 where
  pub leases : IsLeases t
  pub slot : ℕ
  pub new : lease_at t slot ≡ record { id = id; ip = ip; since = moment clock; prev = prev }

pub IsSameTable-IsLedger : (s t : Leases) → IsSameTable s t → IsLedger s → IsLedger t
IsSameTable-IsLedger s t e g = record {
  counted = e.used ∙ (g.counted ∙ sym (ap (λ x. occupied (ips x)) e.table));
  one_per_ip = rw e.table g.one_per_ip;
  one_per_id = rw e.table g.one_per_id;
}

IsAdded-write :
    (memory : Memory) (clock : Clock) (id : List ℕ) (ip : ℕ) (prev : Bool) (w : Leases) (c : Chosen)
    → IsClear id ip prev w
    → IsRoom w c
    → length id ≤ id_max
    → ip ≢ 0
    → IsAdded clock id ip prev (index_lease memory c.slot (write_lease clock id ip prev c))
unfolding write_lease
IsAdded-write memory clock id ip prev w c q r short p =
    let t : Leases = write_lease clock id ip prev c in
    let g : IsLedger t =
      write_lease-IsLedger clock id ip prev c short p r.indexed.few r.inside
        (room-IsClear id ip prev w c r q) in
    let (i, e) =
      index_lease-Rebuilt memory c.slot t
        (write_lease-IsPending clock id ip prev c r.indexed r.inside) in
    let name : take id_max id ≡ id = take_all id_max id short in
    let l : Lease = record { id = take id_max id; ip = ip; since = moment clock; prev = prev } in
    record {
      leases = record { indexed = i; ledger = IsSameTable-IsLedger t _ e g };
      slot = c.slot;
      new =
          ap (λ x. get_or x c.slot no_lease) e.table
          ∙ (get_or-set_self c.leases.table c.slot l no_lease r.inside
              ∙ ap (λ n. record { id = n; ip = ip; since = moment clock; prev = prev }) name);
    }

pub lease_add-IsAdded :
    (memory : Memory) (pool : Pool) (clock : Clock) (id : List ℕ) (ip : ℕ) (prev : Bool)
    (s : Leases)
    → IsLeases s
    → 0 < cap s
    → ip ≢ 0
    → is_empty id ≡ false
    → length id ≤ id_max
    → IsAdded clock id ip prev (lease_add memory pool clock id ip prev s)
unfolding lease_add
lease_add-IsAdded memory pool clock id ip prev s i h p n short =
    let w : Leases = make_way id ip prev s in
    let way : IsWay id ip prev s w = make_way-IsWay id ip prev s i p n in
    let choice : IsChoice w (choose w) =
      choose-IsChoice w way.leases.indexed (omega (arith, way.same_cap, h)) in
    let c : Chosen = make_room memory pool clock (choose w) in
    rw (if_false (cap s == 0 || ip == 0 || is_empty id) s _ (ground (arith, n))) (
      IsAdded-write memory clock id ip prev w c way.clear
        (make_room-IsRoom memory pool clock w (choose w) choice) short p)

-- Whatever the allocations find, an addition for an ID of at most 31 bytes leaves the leases with an
-- index, while it is used, that covers every lease, at most one lease for an address, at most one own
-- address for an ID in any case, and a count that is the number of leases.
pub lease_add-IsLeases :
    (memory : Memory) (pool : Pool) (clock : Clock) (id : List ℕ) (ip : ℕ) (prev : Bool)
    (s : Leases)
    → IsLeases s
    → length id ≤ id_max
    → IsLeases (lease_add memory pool clock id ip prev s)
unfolding lease_add
lease_add-IsLeases memory pool clock id ip prev s i short =
    let idle : Bool = cap s == 0 || ip == 0 || is_empty id in
    elim (Bool-cases idle) [
      | inl e ↦ rw (if_true idle s _ e) i
      | inr e ↦
          (lease_add-IsAdded memory pool clock id ip prev s i (ground (arith, e))
            (ground (arith, e)) (ground (arith, e)) short).leases
    ]

least_at : (P : Option ℕ → Type 0) {a b : Option ℕ} → a ≡ b → P a → P b
least_at P e p = rw (← e) p

-- The lookup of an address gives the slot that has it.
found-slot :
    (s : Leases) (ip k : ℕ)
    → IsLeases s
    → ip ≢ 0
    → (lease_at s k).ip ≡ ip
    → match_lease_ip s ip k ≡ true
    → lease_by_ip s ip ≡ some k
found-slot s ip k i p e m =
    let least = lease_by_ip-IsLeast s ip i.indexed p in
    let P : Option ℕ → Type 0 = λ o. IsLeast (λ n. match_lease_ip s ip n ≡ true) o in
    elim (Option-cases (lease_by_ip s ip)) [
      | inl q ↦ absurd (least_at P q least k m)
      | inr (b, q) ↦
          let (z, l, mine) = match_lease_ip-true s ip b (least_at P q least).0 in
          q ∙ ap some (i.ledger.one_per_ip b k (λ y. p (sym mine ∙ y)) (mine ∙ sym e))
    ]

-- Once an address is kept for an ID of 1 to 31 bytes it is allowed to clients of that ID, in any case,
-- and to no other client, nor to one without an ID.
pub lease_add-lease_allows :
    (memory : Memory) (pool : Pool) (clock : Clock) (id : List ℕ) (ip : ℕ) (prev : Bool)
    (s : Leases) (other : List ℕ)
    → IsLeases s
    → 0 < cap s
    → ip ≢ 0
    → is_empty id ≡ false
    → length id ≤ id_max
    → (lease_allows (lease_add memory pool clock id ip prev s) ip (some other) ≡ same_name id other)
      × (lease_allows (lease_add memory pool clock id ip prev s) ip none ≡ false)
unfolding lease_allows
lease_add-lease_allows memory pool clock id ip prev s other i h p n short =
    let t : Leases = lease_add memory pool clock id ip prev s in
    let a : IsAdded clock id ip prev t =
      lease_add-IsAdded memory pool clock id ip prev s i h p n short in
    let its : (lease_at t a.slot).ip ≡ ip = ap ip_of a.new in
    let used : (lease_at t a.slot).ip ≢ 0 = λ z. p (sym its ∙ z) in
    let found : lease_by_ip t ip ≡ some a.slot =
      found-slot t ip a.slot a.leases p its
        (match_lease_ip-holds t ip a.slot p (taken-inside t.table a.slot used) its) in
    (
      ap (allowed t (some other)) found ∙ ap (λ l. same_name l.id other) a.new,
      ap (allowed t none) found,
    )
