-- ===== src/Server/Clients/Resets.antt =====
-- `server_index_rebuild` as a whole, when some of its allocations fail.
use camex.Base.{
  ℕ, ◌^◌, ◌≤◌, ◌≡◌, refl, sym, ◌∙◌, Bool, true, false, Option, none, some, List, if_elim, arith,
}
use camex.Slotidx.{Index, reset}
use camex.Slotidx.Cover.{
  IsCover, IsPart, IsPart-fewer, IsPart-reset, IsSmall, IsPart-IsSmall, no_table-IsSmall, no_keys,
}
use camex.Server.Leases.{Memory}
use camex.Server.Clients.{
  Client, Which, by_ip, by_id, by_addr, Indexes, index_of, with_index, Clients, max_clients,
  enter_clients, resets, reset_index, index_rebuild,
}
use camex.Server.Clients.Indexed.{client_keys}
use camex.Server.Clients.Rebuild.{Part, Small, IsPhase, enter_clients-IsPhase}

-- While the indexes are used they have every active entry under each of its addresses, its ID and
-- its peer address.
pub record IsTabled (s : Clients) : Type 0 where
  pub few : max_clients s ≤ 2 ^ 20
  pub small_ip : IsSmall s.indexes.ip
  pub small_id : IsSmall s.indexes.id
  pub small_addr : IsSmall s.indexes.addr
  pub covers :
      s.indexes.ok ≡ true
      → (w : Which) → IsCover (client_keys w s.table (max_clients s)) (index_of w s.indexes)

-- An index that was reset, or one that could not be.
record IsReset (x : Indexes) (done : Which → Bool) : Type 0 where
  small : Small x
  fresh : x.ok ≡ true → (w : Which) → done w ≡ true → IsPart no_keys 0 (index_of w x)

resets-Small :
    (w : Which) (y : Index) (x : Indexes) → IsSmall y → Small x → Small (with_index w y x)
resets-Small by_ip y x i s = (i, s.1, s.2)
resets-Small by_id y x i s = (s.0, i, s.2)
resets-Small by_addr y x i s = (s.0, s.1, i)

-- Whether `v` comes up to `w` in the order of the resets.
abbrev up_to : Which → Which → Bool
up_to by_ip by_ip = true
up_to by_ip v = false
up_to by_id by_addr = false
up_to by_id v = true
up_to by_addr v = true

abbrev before : Which → Which → Bool
before by_ip v = false
before by_id v = up_to by_ip v
before by_addr v = up_to by_id v

index_of-with_index :
    (w v : Which) (y : Index) (x : Indexes)
    → up_to w v ≡ true
    → IsPart no_keys 0 y
    → (before w v ≡ true → IsPart no_keys 0 (index_of v x))
    → IsPart no_keys 0 (index_of v (with_index w y x))
index_of-with_index by_ip by_ip y x e p q = p
index_of-with_index by_ip by_id y x e p q = absurd (cc e)
index_of-with_index by_ip by_addr y x e p q = absurd (cc e)
index_of-with_index by_id by_ip y x e p q = q refl
index_of-with_index by_id by_id y x e p q = p
index_of-with_index by_id by_addr y x e p q = absurd (cc e)
index_of-with_index by_addr by_ip y x e p q = q refl
index_of-with_index by_addr by_id y x e p q = q refl
index_of-with_index by_addr by_addr y x e p q = p

resets-IsReset :
    (w : Which) (memory : Bool) (n : ℕ) (x : Indexes) (o : Option Index)
    → n ≤ 2 ^ 20
    → x.ok ≡ true
    → IsReset x (before w)
    → reset memory (index_of w x) n ≡ o
    → IsReset (resets w o x) (up_to w)
resets-IsReset w memory n x none few ok r e = record {
  small = failed w x r.small;
  fresh = λ k. absurd (cc k);
}
  where
    failed : (w : Which) (x : Indexes) → Small x → Small (resets w none x)
    failed by_ip x s = (no_table-IsSmall, s.1, s.2)
    failed by_id x s = (s.0, no_table-IsSmall, s.2)
    failed by_addr x s = (s.0, s.1, no_table-IsSmall)
resets-IsReset w memory n x (some y) few ok r e =
    let p : IsPart no_keys 0 y = IsPart-reset memory (index_of w x) y n (omega arith) e in
    record {
      small = resets-Small w y x (IsPart-IsSmall no_keys 0 y p) r.small;
      fresh = λ k v q. index_of-with_index w v y x q p (λ b. r.fresh ok v b);
    }

reset_index-IsReset :
    (w : Which) (memory : Bool) (n : ℕ) (x : Indexes)
    → n ≤ 2 ^ 20
    → IsReset x (before w)
    → IsReset (reset_index w memory n x) (up_to w)
reset_index-IsReset w memory n x few r =
    if_elim (λ y. IsReset y (up_to w)) x.ok (resets w (reset memory (index_of w x) n) x) x
      (λ ok. resets-IsReset w memory n x _ few ok r refl)
      (λ bad. record { small = r.small; fresh = λ k. absurd (cc (sym bad ∙ k)) })

nothing : (w : Which) (table : List Client) (x : Index) → IsPart no_keys 0 x → Part w table 0 x
nothing w table x p =
    IsPart-fewer no_keys (client_keys w table 0) 0 x p
      (λ slot h (u, a, k). absurd (omega (arith, u)))

pub index_rebuild-IsTabled :
    (memory : Memory) (s : Clients)
    → max_clients s ≤ 2 ^ 20
    → IsSmall s.indexes.ip
    → IsSmall s.indexes.id
    → IsSmall s.indexes.addr
    → IsTabled (index_rebuild memory s)
unfolding index_rebuild
index_rebuild-IsTabled memory s few a b d =
    let n : ℕ = max_clients s in
    let x0 : Indexes = record s.indexes { ok = true } in
    let r0 : IsReset x0 (before by_ip) = record {
      small = (a, b, d);
      fresh = λ ok w e. absurd (cc e);
    } in
    let r1 = reset_index-IsReset by_ip (memory 1) n x0 few r0 in
    let x1 : Indexes = reset_index by_ip (memory 1) n x0 in
    let r2 = reset_index-IsReset by_id (memory 2) n x1 few r1 in
    let x2 : Indexes = reset_index by_id (memory 2) n x1 in
    let r3 = reset_index-IsReset by_addr (memory 3) n x2 few r2 in
    let x3 : Indexes = reset_index by_addr (memory 3) n x2 in
    let p : IsPhase s.table n n n (enter_clients memory s.table n 0 x3) =
      enter_clients-IsPhase memory s.table n 0 n x3 (omega arith) few (record {
        small = r3.small;
        parts = λ ok. (
          nothing by_ip s.table x3.ip (r3.fresh ok by_ip refl),
          nothing by_id s.table x3.id (r3.fresh ok by_id refl),
          nothing by_addr s.table x3.addr (r3.fresh ok by_addr refl),
        );
      }) in
    record {
      few = few;
      small_ip = p.small.0;
      small_id = p.small.1;
      small_addr = p.small.2;
      covers = λ ok w. covered (enter_clients memory s.table n 0 x3) (p.parts ok) w;
    }
  where
    covered :
        (x : Indexes)
        → Part by_ip s.table (max_clients s) x.ip
          × Part by_id s.table (max_clients s) x.id
          × Part by_addr s.table (max_clients s) x.addr
        → (w : Which) → IsCover (client_keys w s.table (max_clients s)) (index_of w x)
    covered x q by_ip = q.0.cover
    covered x q by_id = q.1.cover
    covered x q by_addr = q.2.cover
