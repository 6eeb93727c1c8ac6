-- ===== src/Server/Leases/Rebuild.antt =====
-- `server_lease_index_rebuild`: the loop over the table, and the calls that may fail before it.
use camex.Base.{
  ℕ, zero, suc, ◌+◌, ◌*◌, ◌^◌, ◌≤◌, ◌≡◌, refl, sym, ap, ◌∙◌, true, false, Option, none, some,
  length, ◌==◌, if_elim, arith,
}
use camex.Slotidx.{Index, insert, reset, hash_u32}
use camex.Slotidx.Cover.{
  IsPart, IsPart-fewer, IsPart-reset, IsSmall, IsPart-IsSmall, no_table-IsSmall, no_keys,
}
use camex.Server.Leases.{
  Leases, lease_at, cap, Memory, entered_id, entered_ip, enter_lease, enter_all, rebuilt_id,
  rebuilt_ip, lease_index_rebuild,
}
use camex.Server.Leases.Indexed.{
  keys_below, ip_key, id_key, IsPartly, IsIndexed, unusable, enter_lease-IsPartly,
}

-- The parts of the state that the indexes are not.
pub record IsSameTable (s t : Leases) : Type 0 where
  pub table : t.table ≡ s.table
  pub used : t.used ≡ s.used
  pub cursor : t.cursor ≡ s.cursor

pub same_table : (s : Leases) → IsSameTable s s
same_table s = record { table = refl; used = refl; cursor = refl }

pub IsSameTable-trans : (s t u : Leases) → IsSameTable s t → IsSameTable t u → IsSameTable s u
IsSameTable-trans s t u p q = record {
  table = q.table ∙ p.table;
  used = q.used ∙ p.used;
  cursor = q.cursor ∙ p.cursor;
}

entered_id-IsSameTable : (s : Leases) (o : Option Index) → IsSameTable s (entered_id s o)
entered_id-IsSameTable s none = record { table = refl; used = refl; cursor = refl }
entered_id-IsSameTable s (some y) = record { table = refl; used = refl; cursor = refl }

entered_ip-IsSameTable :
    (memory : Memory) (i : ℕ) (s : Leases) (o : Option Index)
    → IsSameTable s (entered_ip memory i s o)
entered_ip-IsSameTable memory i s none = record { table = refl; used = refl; cursor = refl }
entered_ip-IsSameTable memory i s (some x) =
    let t = entered_id-IsSameTable (record s { by_ip = x }) _ in
    record { table = t.table; used = t.used; cursor = t.cursor }

enter_lease-IsSameTable :
    (memory : Memory) (i : ℕ) (s : Leases) → IsSameTable s (enter_lease memory i s)
enter_lease-IsSameTable memory i s =
    if_elim (IsSameTable s) ((lease_at s i).ip == 0) s
      (entered_ip memory i s (insert (memory (5 + 2 * i)) s.by_ip (hash_u32 (lease_at s i).ip) i))
      (λ _. same_table s) (λ _. entered_ip-IsSameTable memory i s _)

enter_all-IsSameTable :
    (memory : Memory) (rounds i : ℕ) (s : Leases) → IsSameTable s (enter_all memory rounds i s)
unfolding enter_all
enter_all-IsSameTable memory zero i s = same_table s
enter_all-IsSameTable memory (suc rounds) i s =
    let next : Leases = enter_lease memory i s in
    if_elim (IsSameTable s) s.idx_ok (enter_all memory rounds (i + 1) next) s
      (λ _.
        IsSameTable-trans s next (enter_all memory rounds (i + 1) next)
          (enter_lease-IsSameTable memory i s) (enter_all-IsSameTable memory rounds (i + 1) next))
      (λ _. same_table s)

enter_all-IsPartly :
    (memory : Memory) (rounds i n : ℕ) (s : Leases)
    → i + rounds ≡ n
    → n ≤ 2 ^ 20
    → IsPartly i s
    → IsPartly n (enter_all memory rounds i s)
unfolding enter_all
enter_all-IsPartly memory zero i n s e few p = let same : i ≡ n = omega (arith, e) in rw (← same) p
enter_all-IsPartly memory (suc rounds) i n s e few p =
    let next : Leases = enter_lease memory i s in
    if_elim (IsPartly n) s.idx_ok (enter_all memory rounds (i + 1) next) s
      (λ ok.
        enter_all-IsPartly memory rounds (i + 1) n next (omega (arith, e)) few
          (enter_lease-IsPartly memory i s (omega (arith, e)) ok p))
      (λ stopped. unusable n s stopped p.by_ip p.by_id)

-- All that the client of a rebuild needs.
abbrev pub Rebuilt : Leases → Leases → Type 0
Rebuilt s t = IsIndexed t × IsSameTable s t

whole : (n : ℕ) (s : Leases) → n ≡ cap s → n ≤ 2 ^ 20 → IsPartly n s → IsIndexed s
whole n s e few p = record {
  few = omega (arith, e);
  by_ip = p.by_ip;
  by_id = p.by_id;
  covers = λ ok. let (a, b) = p.parts ok in rw (← e) (a.cover, b.cover);
}

stopped-IsIndexed :
    (s : Leases)
    → cap s ≤ 2 ^ 20
    → s.idx_ok ≡ false
    → IsSmall s.by_ip
    → IsSmall s.by_id
    → IsIndexed s
stopped-IsIndexed s few e a b = record {
  few = few;
  by_ip = a;
  by_id = b;
  covers = λ k. absurd (cc (sym e ∙ k));
}

rebuilt_id-Rebuilt :
    (memory : Memory) (s : Leases) (o : Option Index)
    → cap s ≤ 2 ^ 20
    → IsPart no_keys 0 s.by_ip
    → reset (memory 4) s.by_id (cap s) ≡ o
    → Rebuilt s (rebuilt_id memory s o)
rebuilt_id-Rebuilt memory s none few a e = (
  stopped-IsIndexed (rebuilt_id memory s none) few refl (IsPart-IsSmall no_keys 0 s.by_ip a)
      no_table-IsSmall,
  record { table = refl; used = refl; cursor = refl },
)
rebuilt_id-Rebuilt memory s (some y) few a e =
    let b : IsPart no_keys 0 y = IsPart-reset (memory 4) s.by_id y (cap s) (omega arith) e in
    let start : Leases = record s { by_id = y; idx_ok = true } in
    let begun : IsPartly 0 start = record {
      by_ip = IsPart-IsSmall no_keys 0 s.by_ip a;
      by_id = IsPart-IsSmall no_keys 0 y b;
      parts = λ k. (
        IsPart-fewer no_keys (keys_below ip_key s.table 0) 0 s.by_ip a
            (λ slot h (u, p, q). absurd (omega (arith, u))),
        IsPart-fewer no_keys (keys_below id_key s.table 0) 0 y b
            (λ slot h (u, p, q). absurd (omega (arith, u))),
      );
    } in
    let t = enter_all-IsSameTable memory (cap s) 0 start in
    (
      whole (cap s) (enter_all memory (cap s) 0 start) (ap length (sym t.table)) few
          (enter_all-IsPartly memory (cap s) 0 (cap s) start (omega arith) few begun),
      record { table = t.table; used = t.used; cursor = t.cursor },
    )

rebuilt_ip-Rebuilt :
    (memory : Memory) (s : Leases) (o : Option Index)
    → cap s ≤ 2 ^ 20
    → IsSmall s.by_id
    → reset (memory 3) s.by_ip (cap s) ≡ o
    → Rebuilt s (rebuilt_ip memory s o)
rebuilt_ip-Rebuilt memory s none few b e = (
  stopped-IsIndexed (rebuilt_ip memory s none) few refl no_table-IsSmall b,
  record { table = refl; used = refl; cursor = refl },
)
rebuilt_ip-Rebuilt memory s (some x) few b e =
    let (i, t) =
      rebuilt_id-Rebuilt memory (record s { by_ip = x }) (reset (memory 4) s.by_id (cap s)) few
        (IsPart-reset (memory 3) s.by_ip x (cap s) (omega arith) e) refl in
    (i, record { table = t.table; used = t.used; cursor = t.cursor })

-- A rebuild leaves the table as it is and indexes that cover it, also when an allocation fails.
pub lease_index_rebuild-Rebuilt :
    (memory : Memory) (s : Leases)
    → cap s ≤ 2 ^ 20
    → IsSmall s.by_id
    → Rebuilt s (lease_index_rebuild memory s)
unfolding lease_index_rebuild
lease_index_rebuild-Rebuilt memory s few b = rebuilt_ip-Rebuilt memory s _ few b refl
