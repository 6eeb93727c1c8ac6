-- ===== src/Server/Leases/Written.antt =====
-- The write of the new lease keeps the ledger when nothing stands in its way.
use camex.Base.{
  ℕ, zero, suc, ◌+◌, ◌^◌, ◌≤◌, ◌<◌, ◌≡◌, ◌≢◌, refl, sym, ap, ◌∙◌, ◌⊎◌, inl, inr, Bool, false, List,
  [], ◌∷◌, ◌++◌, length, get_or, set, replicate, ◌==◌, take, if◌then◌else◌, if_true, if_false, u64,
  arith, get_or-set_ne, get_or-set_self, length-map, get_or-replicate, take_all, ℕ_discrete, yes,
  no, ==_iff, Bool-cases,
}
use camex.Slotidx.Room.{occupied, occupied-set, occupied-over, occupied-le}
use camex.Server.Leases.{Lease, no_lease, Leases, lease_at, cap, Clock, Chosen, id_max}
use camex.Server.Leases.Add.{write_lease, moment}
use camex.Server.Leases.Ledger.{IsLedger, IsOwn, lower, ips, ip_of, get_or-ips, ips-set}
use camex.Server.Leases.Room.{IsRoom}

pad :
    (table : List Lease) (n i : ℕ)
    → get_or (table ++ replicate n no_lease) i no_lease ≡ get_or table i no_lease
pad [] n i = get_or-replicate n i no_lease
pad (l ∷ table) n zero = refl
pad (l ∷ table) n (suc i) = pad table n i

occupied-cons :
    (v : ℕ) (a b : List ℕ) → occupied a ≡ occupied b → occupied (v ∷ a) ≡ occupied (v ∷ b)
occupied-cons zero a b e = e
occupied-cons (suc v) a b e = ap suc e

occupied-pad :
    (table : List Lease) (n : ℕ)
    → occupied (ips (table ++ replicate n no_lease)) ≡ occupied (ips table)
occupied-pad [] zero = refl
occupied-pad [] (suc n) = occupied-pad [] n
occupied-pad (l ∷ table) n =
    occupied-cons l.ip (ips (table ++ replicate n no_lease)) (ips table) (occupied-pad table n)

-- Nothing stands in the way of a lease of `ip` to `id`.
pub record IsClear (id : List ℕ) (ip : ℕ) (prev : Bool) (s : Leases) : Type 0 where
  pub ledger : IsLedger s
  pub no_ip : (i : ℕ) → (lease_at s i).ip ≢ ip
  pub no_id : prev ≡ false → (i : ℕ) → IsOwn (lease_at s i) → lower (lease_at s i).id ≢ lower id

pub room-IsClear :
    (id : List ℕ) (ip : ℕ) (prev : Bool) (s : Leases) (c : Chosen)
    → IsRoom s c
    → IsClear id ip prev s
    → IsClear id ip prev c.leases
room-IsClear id ip prev s c r q =
    let same : (i : ℕ) → lease_at c.leases i ≡ lease_at s i =
      λ i. ap (λ t. get_or t i no_lease) r.table ∙ pad s.table r.added i in
    record {
      ledger = record {
        counted =
            r.used
            ∙ (q.ledger.counted
                ∙ sym (ap (λ t. occupied (ips t)) r.table ∙ occupied-pad s.table r.added));
        one_per_ip = λ i j. rw (same i, same j) (q.ledger.one_per_ip i j);
        one_per_id = λ i j. rw (same i, same j) (q.ledger.one_per_id i j);
      };
      no_ip = λ i. rw (same i) (q.no_ip i);
      no_id = λ e i. rw (same i) (q.no_id e i);
    }

-- A slot after the write holds the new lease or what it held.
written :
    (table : List Lease) (k i : ℕ) (l : Lease)
    → k < length table
    → ((i ≡ k) × (get_or (set table k l) i no_lease ≡ l))
      ⊎ ((k ≢ i) × (get_or (set table k l) i no_lease ≡ get_or table i no_lease))
written table k i l h = elim (ℕ_discrete k i) [
  | yes e ↦ inl (
    sym e,
    ap (λ n. get_or (set table k l) n no_lease) (sym e) ∙ get_or-set_self table k l no_lease h,
  )
  | no n ↦ inr (n, get_or-set_ne table k i l no_lease n)
]

count-write :
    (used k : ℕ) (slots : List ℕ) (v : ℕ)
    → used ≡ occupied slots
    → length slots ≤ 2 ^ 20
    → k < length slots
    → v ≢ 0
    → (if get_or slots k 0 == 0 then u64 (used + 1) else used) ≡ occupied (set slots k v)
count-write used k slots v e few h p = elim (Bool-cases (get_or slots k 0 == 0)) [
  | inl free ↦
      if_true (get_or slots k 0 == 0) (u64 (used + 1)) used free
      ∙ omega (
        arith,
        e,
        occupied-le slots,
        occupied-set slots k v h ((==_iff (get_or slots k 0) 0).0 free) p,
      )
  | inr full ↦
      if_false (get_or slots k 0 == 0) (u64 (used + 1)) used full
      ∙ omega (arith, e, occupied-over slots k v (ground (arith, full)) p)
]

IsOwn-path : (a b : Lease) → a ≡ b → IsOwn a → IsOwn b
IsOwn-path a b e p = rw (← e) p

pub write_lease-IsLedger :
    (clock : Clock) (id : List ℕ) (ip : ℕ) (prev : Bool) (c : Chosen)
    → length id ≤ id_max
    → ip ≢ 0
    → cap c.leases ≤ 2 ^ 20
    → c.slot < cap c.leases
    → IsClear id ip prev c.leases
    → IsLedger (write_lease clock id ip prev c)
unfolding write_lease
write_lease-IsLedger clock id ip prev c short p few h q =
    let s : Leases = c.leases in
    let l : Lease = record { id = take id_max id; ip = ip; since = moment clock; prev = prev } in
    let named : lower l.id ≡ lower id = ap lower (take_all id_max id short) in
    let same = written s.table c.slot in
    let len : length (ips s.table) ≡ cap s = length-map ip_of s.table in
    record {
      counted =
          ap (λ v. if v == 0 then u64 (s.used + 1) else s.used) (sym (get_or-ips s.table c.slot))
          ∙ (count-write s.used c.slot (ips s.table) ip q.ledger.counted (omega (arith, len))
                (omega (arith, len, h)) p
              ∙ sym (ap occupied (ips-set s.table c.slot l)));
      one_per_ip = λ i j a e. elim (same i l h) [
        | inl (at_i, li) ↦ elim (same j l h) [
          | inl (at_j, lj) ↦ at_i ∙ sym at_j
          | inr (n, lj) ↦ absurd (q.no_ip j (sym (ap ip_of lj) ∙ (sym e ∙ ap ip_of li)))
        ]
        | inr (n, li) ↦ elim (same j l h) [
          | inl (at_j, lj) ↦ absurd (q.no_ip i (sym (ap ip_of li) ∙ (e ∙ ap ip_of lj)))
          | inr (m, lj) ↦
              q.ledger.one_per_ip i j (λ z. a (ap ip_of li ∙ z))
                (sym (ap ip_of li) ∙ (e ∙ ap ip_of lj))
        ]
      ];
      one_per_id = λ i j a b e.
          let name : Lease → List ℕ = λ x. lower x.id in
          elim (same i l h) [
            | inl (at_i, li) ↦ elim (same j l h) [
              | inl (at_j, lj) ↦ at_i ∙ sym at_j
              | inr (n, lj) ↦ absurd (
                  q.no_id (sym (ap (λ x. x.prev) li) ∙ a.1) j (IsOwn-path _ _ lj b)
                    (sym (ap name lj) ∙ (sym e ∙ (ap name li ∙ named))))
            ]
            | inr (n, li) ↦ elim (same j l h) [
              | inl (at_j, lj) ↦ absurd (
                  q.no_id (sym (ap (λ x. x.prev) lj) ∙ b.1) i (IsOwn-path _ _ li a)
                    (sym (ap name li) ∙ (e ∙ (ap name lj ∙ named))))
              | inr (m, lj) ↦
                  q.ledger.one_per_id i j (IsOwn-path _ _ li a) (IsOwn-path _ _ lj b)
                    (sym (ap name li) ∙ (e ∙ ap name lj))
            ]
          ];
    }
