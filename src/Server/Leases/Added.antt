-- ===== src/Server/Leases/Added.antt =====
-- Every step of `server_lease_add` leaves indexes that cover the leases.
use camex.Base.{
  ℕ, ◌+◌, ◌-◌, ◌*◌, ◌^◌, ◌≤◌, ◌<◌, ◌≡◌, ◌≢◌, refl, sym, ap, ◌∙◌, inl, inr, Bool, true, not, ◌||◌,
  Option, none, some, List, length, get_or, set, ◌==◌, if_elim, arith, length-set, get_or-set_self,
  get_or-set_ne, ℕ_discrete, yes, no,
}
use camex.Slotidx.{Index, insert, hash_u32, hash_nocase, crowded}
use camex.Slotidx.Cover.{Keys, IsCover, IsCover-insert, IsCover-fewer, insert-small, IsSmall}
use camex.Server.Leases.{
  Lease, no_lease, Leases, lease_at, cap, Memory, lease_drop, lease_index_rebuild,
}
use camex.Server.Leases.Add.{added_id, added_ip, index_lease}
use camex.Server.Leases.Indexed.{keys_below, ip_key, id_key, IsIndexed}
use camex.Server.Leases.Rebuild.{Rebuilt, lease_index_rebuild-Rebuilt}

-- A slot that is emptied takes its keys away.
emptied :
    (key : Lease → ℕ) (table : List Lease) (k n slot h : ℕ)
    → n ≡ length table
    → keys_below key (set table k no_lease) n slot h
    → keys_below key table n slot h
emptied key table k n slot h len (l, p, e) = elim (ℕ_discrete k slot) [
  | yes same ↦ absurd (
      p (
        ap (λ i. (get_or (set table k no_lease) i no_lease).ip) (sym same)
        ∙ ap (λ x. x.ip) (get_or-set_self table k no_lease no_lease (omega (arith, len, l, same)))))
  | no n' ↦
      let kept = get_or-set_ne table k slot no_lease no_lease n' in
      (l, λ z. p (ap (λ x. x.ip) kept ∙ z), e ∙ ap key kept)
]

pub lease_drop-IsIndexed : (o : Option ℕ) (s : Leases) → IsIndexed s → IsIndexed (lease_drop o s)
unfolding lease_drop
lease_drop-IsIndexed none s i = i
lease_drop-IsIndexed (some k) s i =
    if_elim IsIndexed ((lease_at s k).ip == 0) s _ (λ _. i)
      (λ _.
        let same : length (set s.table k no_lease) ≡ cap s = length-set s.table k no_lease in
        let fewer : (key : Lease → ℕ) (x : Index)
            → IsCover (keys_below key s.table (cap s)) x
            → IsCover (keys_below key (set s.table k no_lease) (length (set s.table k no_lease)))
                x =
          λ key x c. IsCover-fewer _ _ x c (λ slot h (l, p, e).
            emptied key s.table k (cap s) slot h refl (omega (arith, l, same), p, e)) in
        record {
          few = omega (arith, i.few, same);
          by_ip = i.by_ip;
          by_id = i.by_id;
          covers =
              λ ok. (fewer ip_key s.by_ip (i.covers ok).0, fewer id_key s.by_id (i.covers ok).1);
        })

-- The keys of all slots but `k`.
abbrev pub Others : ℕ → (Lease → ℕ) → Leases → Keys
Others k key s slot h = (slot ≢ k) × keys_below key s.table (cap s) slot h

-- The lease in slot `k` is not indexed yet.
pub record IsPending (k : ℕ) (s : Leases) : Type 0 where
  pub few : cap s ≤ 2 ^ 20
  pub inside : k < cap s
  pub by_ip : IsSmall s.by_ip
  pub by_id : IsSmall s.by_id
  pub covers :
      s.idx_ok ≡ true → IsCover (Others k ip_key s) s.by_ip × IsCover (Others k id_key s) s.by_id

complete :
    (key : Lease → ℕ) (s : Leases) (k : ℕ) (memory : Bool) (x y : Index)
    → IsCover (Others k key s) x
    → x.mask < 2 ^ 30
    → k < 2 ^ 32 - 1
    → insert memory x (key (lease_at s k)) k ≡ some y
    → IsCover (keys_below key s.table (cap s)) y
complete key s k memory x y c small fits e =
    IsCover-insert (Others k key s) (keys_below key s.table (cap s)) memory x y (key (lease_at s k))
      k c small fits e
      (λ slot h (l, p, q). elim (ℕ_discrete slot k) [
        | yes same ↦ inl (q ∙ ap (λ n. key (lease_at s n)) same, same)
        | no n ↦ inr (n, (l, p, q))
      ])

added_id-Rebuilt :
    (memory : Memory) (k : ℕ) (s : Leases) (o : Option Index)
    → cap s ≤ 2 ^ 20
    → k < cap s
    → IsSmall s.by_ip
    → IsSmall s.by_id
    → s.by_id.used ≤ 2 ^ 26
    → IsCover (keys_below ip_key s.table (cap s)) s.by_ip
    → IsCover (Others k id_key s) s.by_id
    → insert (memory 2) s.by_id (hash_nocase (lease_at s k).id) k ≡ o
    → Rebuilt s (added_id memory s o)
added_id-Rebuilt memory k s none few inside a b u ca cb e =
    lease_index_rebuild-Rebuilt memory s few b
added_id-Rebuilt memory k s (some y) few inside a b u ca cb e =
    let cy : IsCover (keys_below id_key s.table (cap s)) y =
      complete id_key s k (memory 2) s.by_id y cb b.1 (omega (arith, inside)) e in
    let small =
      insert-small (memory 2) s.by_id y (hash_nocase (lease_at s k).id) k b.0 b.1 u
        (omega (arith, inside)) e in
    (
      record { few = few; by_ip = a; by_id = (cy.index, small.0); covers = λ ok. (ca, cy) },
      record { table = refl; used = refl; cursor = refl },
    )

added_ip-Rebuilt :
    (memory : Memory) (k : ℕ) (s : Leases) (o : Option Index)
    → IsPending k s
    → s.idx_ok ≡ true
    → s.by_ip.used ≤ 2 ^ 26
    → s.by_id.used ≤ 2 ^ 26
    → insert (memory 1) s.by_ip (hash_u32 (lease_at s k).ip) k ≡ o
    → Rebuilt s (added_ip memory k s o)
added_ip-Rebuilt memory k s none p ok u v e = lease_index_rebuild-Rebuilt memory s p.few p.by_id
added_ip-Rebuilt memory k s (some x) p ok u v e =
    let fits : k < 2 ^ 32 - 1 = omega (arith, p.inside, p.few) in
    let cx : IsCover (keys_below ip_key s.table (cap s)) x =
      complete ip_key s k (memory 1) s.by_ip x (p.covers ok).0 p.by_ip.1 fits e in
    let small =
      insert-small (memory 1) s.by_ip x (hash_u32 (lease_at s k).ip) k p.by_ip.0 p.by_ip.1 u fits
        e in
    let (i, t) =
      added_id-Rebuilt memory k (record s { by_ip = x }) _ p.few p.inside (cx.index, small.0)
        p.by_id v cx (p.covers ok).1 refl in
    (i, record { table = t.table; used = t.used; cursor = t.cursor })

pub index_lease-Rebuilt :
    (memory : Memory) (k : ℕ) (s : Leases) → IsPending k s → Rebuilt s (index_lease memory k s)
unfolding index_lease crowded
index_lease-Rebuilt memory k s p =
    let crowd : Bool = not s.idx_ok || crowded s.by_ip (cap s) || crowded s.by_id (cap s) in
    if_elim (Rebuilt s) crowd (lease_index_rebuild memory s) _
      (λ _. lease_index_rebuild-Rebuilt memory s p.few p.by_id)
      (λ c.
        let u : s.by_ip.used ≤ cap s * 2 + 16 = ground (arith, c) in
        let v : s.by_id.used ≤ cap s * 2 + 16 = ground (arith, c) in
        let ok : s.idx_ok ≡ true = ground (arith, c) in
        added_ip-Rebuilt memory k s _ p ok (omega (arith, u, p.few)) (omega (arith, v, p.few)) refl)
