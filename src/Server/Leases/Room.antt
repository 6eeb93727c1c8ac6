-- ===== src/Server/Leases/Room.antt =====
-- Where a new lease goes: into a slot of the table, which grows up to its limit.
use camex.Base.{
  ℕ, zero, suc, ◌+◌, ◌-◌, ◌^◌, ◌%◌, ◌≤◌, ◌<◌, ◌≡◌, ◌≢◌, refl, sym, ap, ◌∙◌, Bool, not, ◌&&◌, Option,
  none, some, List, [], ◌∷◌, ◌++◌, length, set, replicate, ltb, ◌==◌, if◌then◌else◌, if_elim, arith,
  length-append, length-replicate, length-set, get_or-set_ne, take,
}
use native.Mathlib.Nat.{mod-lt}
use camex.Slotidx.Cover.{IsCover-fewer}
use camex.Server.Pool.{Pool}
use camex.Server.Leases.{
  Lease, no_lease, Leases, lease_at, cap, Memory, Clock, Chosen, chosen_slot, choose, free_slot,
  oldest, older, slot_or, young, id_max,
}
use camex.Server.Leases.Add.{make_room, grown_cap, write_lease, moment}
use camex.Server.Leases.Indexed.{keys_below, ip_key, id_key, IsIndexed}
use camex.Server.Leases.Added.{IsPending}

-- A slot of the table, if there is one.
abbrev Inside : ℕ → Option ℕ → Type 0
Inside n none = Unit
Inside n (some k) = k < n

free_slot-Inside : (rounds i : ℕ) (s : Leases) → 0 < cap s → Inside (cap s) (free_slot rounds i s)
unfolding free_slot
free_slot-Inside zero i s h = tt
free_slot-Inside (suc rounds) i s h =
    let k : ℕ = (s.cursor + i) % cap s in
    if_elim (Inside (cap s)) ((lease_at s k).ip == 0) (some k) (free_slot rounds (i + 1) s)
      (λ _. mod-lt (s.cursor + i) {m = cap s} h) (λ _. free_slot-Inside rounds (i + 1) s h)

oldest-Inside :
    (rounds i n : ℕ) (table : List Lease) (o : Option ℕ)
    → i + rounds ≡ n
    → Inside n o
    → Inside n (oldest rounds i table o)
unfolding oldest
oldest-Inside zero i n table o e p = p
oldest-Inside (suc rounds) i n table o e p =
    oldest-Inside rounds (i + 1) n table (if older table i o then some i else o) (omega (arith, e))
      (if_elim (Inside n) (older table i o) (some i) o (λ _. omega (arith, e)) (λ _. p))

slot_or-Inside : (n : ℕ) (o : Option ℕ) → 0 < n → Inside n o → slot_or o < n
slot_or-Inside n none h p = h
slot_or-Inside n (some k) h p = p

-- What the choice of a slot leaves as it was.
pub record IsChoice (s : Leases) (c : Chosen) : Type 0 where
  pub table : c.leases.table ≡ s.table
  pub used : c.leases.used ≡ s.used
  pub indexed : IsIndexed c.leases
  pub inside : c.slot < cap s

chosen_slot-IsChoice :
    (s : Leases) (o : Option ℕ)
    → IsIndexed s
    → 0 < cap s
    → Inside (cap s) o
    → IsChoice s (chosen_slot s o)
chosen_slot-IsChoice s none i h p = record {
  table = refl;
  used = refl;
  indexed = i;
  inside =
      slot_or-Inside (cap s) (oldest (cap s) 0 s.table none) h
        (oldest-Inside (cap s) 0 (cap s) s.table none (omega arith) tt);
}
chosen_slot-IsChoice s (some k) i h p = record {
  table = refl;
  used = refl;
  indexed = record { few = i.few; by_ip = i.by_ip; by_id = i.by_id; covers = i.covers };
  inside = p;
}

pub choose-IsChoice : (s : Leases) → IsIndexed s → 0 < cap s → IsChoice s (choose s)
unfolding choose
choose-IsChoice s i h =
    chosen_slot-IsChoice s (if ltb s.used (cap s) then free_slot (cap s) 0 s else none) i h (
      if_elim (Inside (cap s)) (ltb s.used (cap s)) (free_slot (cap s) 0 s) none
        (λ _. free_slot-Inside (cap s) 0 s h) (λ _. tt))

pub grown_cap-le : (pool : Pool) (n : ℕ) → grown_cap pool n ≤ 2 ^ 20
grown_cap-le pool n = ground arith

-- The table afterwards is the one before, or that with free slots added.
pub record IsRoom (s : Leases) (c : Chosen) : Type 0 where
  pub added : ℕ
  pub table : c.leases.table ≡ s.table ++ replicate added no_lease
  pub used : c.leases.used ≡ s.used
  pub indexed : IsIndexed c.leases
  pub inside : c.slot < cap c.leases

append_nil : (t : List Lease) → t ++ [] ≡ t
append_nil [] = refl
append_nil (l ∷ t) = ap (◌∷◌ l) (append_nil t)

pub make_room-IsRoom :
    (memory : Memory) (pool : Pool) (clock : Clock) (s : Leases) (c : Chosen)
    → IsChoice s c
    → IsRoom s (make_room memory pool clock c)
unfolding make_room
make_room-IsRoom memory pool clock s c p =
    let t : Leases = c.leases in
    let l : Lease = lease_at t c.slot in
    let n : ℕ = cap t in
    let bigger : ℕ = grown_cap pool n in
    let grows : Bool = not (l.ip == 0) && young clock l.since && ltb n bigger && memory 0 in
    if_elim (IsRoom s) grows _ c
      (λ g.
        let more : n < bigger = ground (arith, g) in
        let len : length (t.table ++ replicate (bigger - n) no_lease) ≡ bigger = omega (
          arith,
          length-append t.table (replicate (bigger - n) no_lease),
          length-replicate (bigger - n) no_lease,
          more,
        ) in
        record {
          added = bigger - n;
          table = ap (λ x. x ++ replicate (bigger - n) no_lease) p.table;
          used = p.used;
          indexed = record {
            few = omega (arith, len, grown_cap-le pool n);
            by_ip = p.indexed.by_ip;
            by_id = p.indexed.by_id;
            covers = λ ok. absurd (cc ok);
          };
          inside = omega (arith, len, more);
        })
      (λ _. record {
        added = 0;
        table = p.table ∙ sym (append_nil s.table);
        used = p.used;
        indexed = p.indexed;
        inside = omega (arith, p.inside, ap length p.table);
      })

pub write_lease-IsPending :
    (clock : Clock) (id : List ℕ) (ip : ℕ) (prev : Bool) (c : Chosen)
    → IsIndexed c.leases
    → c.slot < cap c.leases
    → IsPending c.slot (write_lease clock id ip prev c)
unfolding write_lease
write_lease-IsPending clock id ip prev c i inside =
    let s : Leases = c.leases in
    let l : Lease = record { id = take id_max id; ip = ip; since = moment clock; prev = prev } in
    let len : length (set s.table c.slot l) ≡ cap s = length-set s.table c.slot l in
    let old : (key : Lease → ℕ) (slot h : ℕ)
        → (slot ≢ c.slot)
          × keys_below key (set s.table c.slot l) (length (set s.table c.slot l)) slot h
        → keys_below key s.table (cap s) slot h =
      λ key slot h (n, (u, p, e)).
        let kept = get_or-set_ne s.table c.slot slot l no_lease (λ q. n (sym q)) in
        (omega (arith, u, len), λ z. p (ap (λ x. x.ip) kept ∙ z), e ∙ ap key kept) in
    record {
      few = omega (arith, len, i.few);
      inside = omega (arith, len, inside);
      by_ip = i.by_ip;
      by_id = i.by_id;
      covers = λ ok. (
        IsCover-fewer _ _ s.by_ip (i.covers ok).0 (old ip_key),
        IsCover-fewer _ _ s.by_id (i.covers ok).1 (old id_key),
      );
    }
