-- ===== src/Server/Leases/Clear.antt =====
-- After the drops of `server_lease_add` no lease stands in the way of the new one.
use camex.Base.{
  ℕ, zero, suc, ◌<◌, ◌≡◌, ◌≢◌, refl, sym, ap, ◌∙◌, inl, inr, true, false, Option, some, List, [],
  ◌∷◌, length, get_or, arith, bytes_eq, bytes_eq_refl, bytes_eq→eq, Option-cases,
}
use camex.Slotidx.Find.{IsLeast}
use camex.Server.Leases.{
  Lease, no_lease, Leases, lease_at, lease_drop, lease_by_ip, lease_by_id, match_lease_ip,
  match_lease_id, same_name, is_empty,
}
use camex.Server.Leases.Indexed.{IsIndexed}
use camex.Server.Leases.Lookup.{
  match_lease_ip-true, match_lease_ip-holds, match_lease_id-holds, match_lease_id-true,
  lease_by_ip-IsLeast, lease_by_id-IsLeast,
}
use camex.Server.Leases.Ledger.{IsLedger, IsOwn, lower, ip_of, lease_drop-left, lease_drop-free}

pub subst_least : (P : Option ℕ → Type 0) {a b : Option ℕ} → a ≡ b → P a → P b
subst_least P e p = rw (← e) p

same_name-lower : (a b : List ℕ) → lower a ≡ lower b → same_name a b ≡ true
unfolding same_name
same_name-lower a b e = ap (λ t. bytes_eq t (lower b)) e ∙ bytes_eq_refl (lower b)

lower-same_name : (a b : List ℕ) → same_name a b ≡ true → lower a ≡ lower b
unfolding same_name
lower-same_name a b m = bytes_eq→eq (lower a) (lower b) m

pub taken-inside :
    (table : List Lease) (i : ℕ) → (get_or table i no_lease).ip ≢ 0 → i < length table
taken-inside [] i p = absurd (p refl)
taken-inside (l ∷ table) zero p = omega arith
taken-inside (l ∷ table) (suc i) p = omega (arith, taken-inside table i p)

-- The slot that a drop names holds no lease afterwards.
gone : (s : Leases) (k i : ℕ) → k ≡ i → (lease_at (lease_drop (some k) s) i).ip ≡ 0
gone s k i e = ap (λ n. (lease_at (lease_drop (some k) s) n).ip) (sym e) ∙ lease_drop-free k s

dropped_ip :
    (s : Leases) (ip i : ℕ) (o : Option ℕ)
    → IsLedger s
    → ip ≢ 0
    → IsLeast (λ k. match_lease_ip s ip k ≡ true) o
    → (lease_at (lease_drop o s) i).ip ≢ ip
dropped_ip s ip i o g p least z =
    let there : (lease_at (lease_drop o s) i).ip ≢ 0 = λ q. p (sym z ∙ q) in
    let its : (lease_at s i).ip ≡ ip = sym (ap ip_of (lease_drop-left o s i there)) ∙ z in
    let hit : match_lease_ip s ip i ≡ true =
      match_lease_ip-holds s ip i p (taken-inside s.table i (λ q. p (sym its ∙ q))) its in
    elim (Option-cases o) [
      | inl e ↦ subst_least (λ r. IsLeast (λ k. match_lease_ip s ip k ≡ true) r) e least i hit
      | inr (k, e) ↦
          let first : match_lease_ip s ip k ≡ true =
            (subst_least (λ r. IsLeast (λ k. match_lease_ip s ip k ≡ true) r) e least).0 in
          let (q, l, mine) = match_lease_ip-true s ip k first in
          there (
            ap (λ r. (lease_at (lease_drop r s) i).ip) e
            ∙ gone s k i (g.one_per_ip k i (λ y. p (sym mine ∙ y)) (mine ∙ sym its)))
    ]

dropped_id :
    (s : Leases) (id : List ℕ) (i : ℕ) (o : Option ℕ)
    → IsLedger s
    → IsLeast (λ k. match_lease_id s id k ≡ true) o
    → IsOwn (lease_at (lease_drop o s) i)
    → lower (lease_at (lease_drop o s) i).id ≢ lower id
dropped_id s id i o g least own z =
    let kept : lease_at (lease_drop o s) i ≡ lease_at s i = lease_drop-left o s i own.0 in
    let own' : IsOwn (lease_at s i) =
      (λ q. own.0 (ap ip_of kept ∙ q), sym (ap (λ l. l.prev) kept) ∙ own.1) in
    let its : lower (lease_at s i).id ≡ lower id = sym (ap (λ l. lower l.id) kept) ∙ z in
    let hit : match_lease_id s id i ≡ true =
      match_lease_id-holds s id i (taken-inside s.table i own'.0) own'.0 own'.1
        (same_name-lower (lease_at s i).id id its) in
    elim (Option-cases o) [
      | inl e ↦ subst_least (λ r. IsLeast (λ k. match_lease_id s id k ≡ true) r) e least i hit
      | inr (k, e) ↦
          let first : match_lease_id s id k ≡ true =
            (subst_least (λ r. IsLeast (λ k. match_lease_id s id k ≡ true) r) e least).0 in
          let (l, p, q, m) = match_lease_id-true s id k first in
          let mine : lower (lease_at s k).id ≡ lower id = lower-same_name (lease_at s k).id id m in
          own.0 (
            ap (λ r. (lease_at (lease_drop r s) i).ip) e
            ∙ gone s k i (g.one_per_id k i (p, q) own' (mine ∙ sym its)))
    ]

-- After the lease of an address is dropped, no lease has it.
pub drop_ip-clear :
    (s : Leases) (ip i : ℕ)
    → IsIndexed s
    → IsLedger s
    → ip ≢ 0
    → (lease_at (lease_drop (lease_by_ip s ip) s) i).ip ≢ ip
drop_ip-clear s ip i x g p = dropped_ip s ip i (lease_by_ip s ip) g p (lease_by_ip-IsLeast s ip x p)

-- After the lease of an ID is dropped, no lease but those of previous sessions has it.
pub drop_id-clear :
    (s : Leases) (id : List ℕ) (i : ℕ)
    → IsIndexed s
    → IsLedger s
    → is_empty id ≡ false
    → IsOwn (lease_at (lease_drop (lease_by_id s id) s) i)
    → lower (lease_at (lease_drop (lease_by_id s id) s) i).id ≢ lower id
drop_id-clear s id i x g p = dropped_id s id i (lease_by_id s id) g (lease_by_id-IsLeast s id x p)
