-- ===== src/Server/Clients/Added.antt =====
-- `server_index_add` enters the key that the indexes lack.
use camex.Base.{
  ℕ, ◌+◌, ◌*◌, ◌^◌, ◌≤◌, ◌<◌, ◌≡◌, ◌≢◌, refl, inl, inr, Bool, true, not, Option, none, some,
  if_elim, arith, ℕ_discrete, yes, no, ltb_false→le,
}
use camex.Slotidx.{Index, insert, crowded}
use camex.Slotidx.Cover.{Keys, IsCover, IsCover-insert, IsCover-fewer, IsSmall, insert-small}
use camex.Server.Leases.{Memory}
use camex.Server.Clients.{
  Which, by_ip, by_id, by_addr, Indexes, index_of, with_index, Clients, max_clients, index_added,
  index_add, index_rebuild, crowd,
}
use camex.Server.Clients.Indexed.{client_keys}
use camex.Server.Clients.Resets.{IsTabled, index_rebuild-IsTabled}
use camex.Server.Clients.Add.{Lacking, IsLacking}

IsSmall-index_of :
    (v : Which) (h k : ℕ) (s : Clients)
    → IsLacking v h k s
    → (w : Which) → IsSmall (index_of w s.indexes)
IsSmall-index_of v h k s t by_ip = t.small_ip
IsSmall-index_of v h k s t by_id = t.small_id
IsSmall-index_of v h k s t by_addr = t.small_addr

rebuilt :
    (v : Which) (memory : Memory) (h k : ℕ) (s : Clients)
    → IsLacking v h k s
    → IsTabled (index_rebuild memory s)
rebuilt v memory h k s t = index_rebuild-IsTabled memory s t.few t.small_ip t.small_id t.small_addr

-- The index that got the key, and the others.
with_index-covers :
    (v w : Which) (K : Which → Keys) (x : Indexes) (y : Index)
    → ((u : Which) → u ≢ v → IsCover (K u) (index_of u x))
    → IsCover (K v) y
    → IsCover (K w) (index_of w (with_index v y x))
with_index-covers by_ip by_ip K x y o c = c
with_index-covers by_ip by_id K x y o c = o by_id (λ e. cc e)
with_index-covers by_ip by_addr K x y o c = o by_addr (λ e. cc e)
with_index-covers by_id by_ip K x y o c = o by_ip (λ e. cc e)
with_index-covers by_id by_id K x y o c = c
with_index-covers by_id by_addr K x y o c = o by_addr (λ e. cc e)
with_index-covers by_addr by_ip K x y o c = o by_ip (λ e. cc e)
with_index-covers by_addr by_id K x y o c = o by_id (λ e. cc e)
with_index-covers by_addr by_addr K x y o c = c

others :
    (v : Which) (h k : ℕ) (s : Clients)
    → IsLacking v h k s
    → s.indexes.ok ≡ true
    → (u : Which) → u ≢ v
    → IsCover (client_keys u s.table (max_clients s)) (index_of u s.indexes)
others v h k s t ok u n =
    IsCover-fewer _ _ (index_of u s.indexes) (t.covers ok u) (λ slot g m. (λ q. n q.0, m))

with_index-IsTabled :
    (v : Which) (h k : ℕ) (s : Clients) (y : Index)
    → IsLacking v h k s
    → s.indexes.ok ≡ true
    → IsSmall y
    → IsCover (client_keys v s.table (max_clients s)) y
    → IsTabled (record s { indexes = with_index v y s.indexes })
with_index-IsTabled by_ip h k s y t ok small c = record {
  few = t.few;
  small_ip = small;
  small_id = t.small_id;
  small_addr = t.small_addr;
  covers = λ _ w.
      with_index-covers by_ip w (λ u. client_keys u s.table (max_clients s)) s.indexes y
        (others by_ip h k s t ok) c;
}
with_index-IsTabled by_id h k s y t ok small c = record {
  few = t.few;
  small_ip = t.small_ip;
  small_id = small;
  small_addr = t.small_addr;
  covers = λ _ w.
      with_index-covers by_id w (λ u. client_keys u s.table (max_clients s)) s.indexes y
        (others by_id h k s t ok) c;
}
with_index-IsTabled by_addr h k s y t ok small c = record {
  few = t.few;
  small_ip = t.small_ip;
  small_id = t.small_id;
  small_addr = small;
  covers = λ _ w.
      with_index-covers by_addr w (λ u. client_keys u s.table (max_clients s)) s.indexes y
        (others by_addr h k s t ok) c;
}

complete :
    (v : Which) (memory : Bool) (h k : ℕ) (s : Clients) (y : Index)
    → IsLacking v h k s
    → s.indexes.ok ≡ true
    → insert memory (index_of v s.indexes) h k ≡ some y
    → IsCover (client_keys v s.table (max_clients s)) y
complete v memory h k s y t ok e =
    IsCover-insert (Lacking v h k s v) (client_keys v s.table (max_clients s)) memory
      (index_of v s.indexes) y h k (t.covers ok v) (IsSmall-index_of v h k s t v).1
      (omega (arith, t.inside, t.few)) e
      (λ slot g m. elim (ℕ_discrete slot k) [
        | no n ↦ inr ((λ q. n q.1), m)
        | yes p ↦ elim (ℕ_discrete g h) [ yes q ↦ inl (q, p) | no n ↦ inr ((λ q. n q.2), m) ]
      ])

added-IsTabled :
    (v : Which) (memory : Memory) (h k : ℕ) (s : Clients) (o : Option Index)
    → IsLacking v h k s
    → s.indexes.ok ≡ true
    → (index_of v s.indexes).used ≤ 2 ^ 26
    → insert (memory 0) (index_of v s.indexes) h k ≡ o
    → IsTabled (index_added v memory s o)
added-IsTabled v memory h k s none t ok few e = rebuilt v memory h k s t
added-IsTabled v memory h k s (some y) t ok few e =
    let c = complete v (memory 0) h k s y t ok e in
    let x : IsSmall (index_of v s.indexes) = IsSmall-index_of v h k s t v in
    let n =
      insert-small (memory 0) (index_of v s.indexes) y h k x.0 x.1 few
        (omega (arith, t.inside, t.few)) e in
    with_index-IsTabled v h k s y t ok (c.index, n.0) c

crowd-le : (v : Which) (n : ℕ) → n ≤ 2 ^ 20 → crowd v n ≤ 2 ^ 22
crowd-le by_ip n l = omega (arith, l)
crowd-le by_id n l = omega (arith, l)
crowd-le by_addr n l = omega (arith, l)

pub index_add-IsTabled :
    (v : Which) (memory : Memory) (h k : ℕ) (s : Clients)
    → IsLacking v h k s
    → IsTabled (index_add v memory h k s)
unfolding index_add crowded
index_add-IsTabled v memory h k s t =
    let x : Index = index_of v s.indexes in
    if_elim IsTabled (not s.indexes.ok) s _
      (λ off. record {
        few = t.few;
        small_ip = t.small_ip;
        small_id = t.small_id;
        small_addr = t.small_addr;
        covers = λ ok. absurd (ground (arith, off, ok));
      })
      (λ on.
        if_elim IsTabled (crowded x (crowd v (max_clients s))) (index_rebuild memory s) _
          (λ _. rebuilt v memory h k s t)
          (λ c.
            let few : x.used ≤ crowd v (max_clients s) * 2 + 16 =
              ltb_false→le (crowd v (max_clients s) * 2 + 16) x.used c in
            added-IsTabled v memory h k s _ t (ground (arith, on))
              (omega (arith, few, crowd-le v (max_clients s) t.few)) refl))

pub IsTabled-IsLacking :
    (v : Which) (h k : ℕ) (s : Clients) → k < max_clients s → IsTabled s → IsLacking v h k s
IsTabled-IsLacking v h k s l t = record {
  few = t.few;
  inside = l;
  small_ip = t.small_ip;
  small_id = t.small_id;
  small_addr = t.small_addr;
  covers = λ ok w. IsCover-fewer _ _ (index_of w s.indexes) (t.covers ok w) (λ slot g m. m.1);
}

rebuilt_inside :
    (memory : Memory) (s : Clients) (k : ℕ)
    → k < max_clients s
    → k < max_clients (index_rebuild memory s)
unfolding index_rebuild
rebuilt_inside memory s k l = l

with_ip-IsLacking :
    (v : Which) (memory : Memory) (h g k : ℕ) (s : Clients) (o : Option Index)
    → IsLacking v h k s
    → s.indexes.ok ≡ true
    → s.indexes.ip.used ≤ 2 ^ 26
    → insert (memory 0) s.indexes.ip g k ≡ o
    → IsLacking v h k (index_added by_ip memory s o)
with_ip-IsLacking v memory h g k s none t ok few e =
    IsTabled-IsLacking v h k (index_rebuild memory s) (rebuilt_inside memory s k t.inside)
      (rebuilt v memory h k s t)
with_ip-IsLacking v memory h g k s (some y) t ok few e =
    let c : IsCover (Lacking v h k s by_ip) y =
      IsCover-insert (Lacking v h k s by_ip) (Lacking v h k s by_ip) (memory 0) s.indexes.ip y g k
        (t.covers ok by_ip) t.small_ip.1 (omega (arith, t.inside, t.few)) e (λ slot f m. inr m) in
    let n =
      insert-small (memory 0) s.indexes.ip y g k t.small_ip.0 t.small_ip.1 few
        (omega (arith, t.inside, t.few)) e in
    record {
      few = t.few;
      inside = t.inside;
      small_ip = (c.index, n.0);
      small_id = t.small_id;
      small_addr = t.small_addr;
      covers =
          λ _ w. with_index-covers by_ip w (Lacking v h k s) s.indexes y (λ u _. t.covers ok u) c;
    }

-- Another key of the same entry may be entered first.
pub index_add-IsLacking :
    (v : Which) (memory : Memory) (h g k : ℕ) (s : Clients)
    → IsLacking v h k s
    → IsLacking v h k (index_add by_ip memory g k s)
unfolding index_add crowded
index_add-IsLacking v memory h g k s t =
    let x : Index = s.indexes.ip in
    if_elim (IsLacking v h k) (not s.indexes.ok) s _ (λ _. t)
      (λ on.
        if_elim (IsLacking v h k) (crowded x (max_clients s * 3)) (index_rebuild memory s) _
          (λ _.
            IsTabled-IsLacking v h k (index_rebuild memory s) (rebuilt_inside memory s k t.inside)
              (rebuilt v memory h k s t))
          (λ c.
            let few : x.used ≤ max_clients s * 3 * 2 + 16 =
              ltb_false→le (max_clients s * 3 * 2 + 16) x.used c in
            with_ip-IsLacking v memory h g k s _ t (ground (arith, on)) (omega (arith, few, t.few))
              refl))
