-- ===== src/Slotidx/Entries.antt =====
-- The entries of an index as a set, whatever their buckets: what `put` adds to it.
use camex.Base.{
  ℕ, zero, suc, ◌+◌, ◌≤◌, ◌≡◌, sym, ap, ◌∙◌, ◌⊎◌, inl, inr, ◌↔◌, get_or, set, bit_and, u32, arith,
  get_or-set_self, get_or-set_ne, length-set, ℕ_discrete, yes, no,
}
use camex.Slotidx.{Index, Place, empty, there, full, next_bucket, place, store_at, put}
use camex.Slotidx.Chain.{Chain, here, next, Holds}
use camex.Slotidx.Stored.{IsTable, FreeAt, put-Holds, place-FreeAt, masked-le, mask-store_at}
use camex.Slotidx.Room.{occupied, occupied-set, free_bucket}

-- Some bucket holds `slot` under `h`.
abbrev pub Entry : Index → ℕ → ℕ → Type 0
Entry x h slot = (j : ℕ) × (j ≤ x.mask) × (get_or x.slot j 0 ≡ slot + 1) × (get_or x.hash j 0 ≡ h)

-- A table that counts its entries and in which a search reaches every one of them.
pub record IsChained (k : ℕ) (x : Index) : Type 0 where
  pub table : IsTable k x
  pub positive : 1 ≤ x.mask
  pub counted : x.used ≡ occupied x.slot
  pub held : (h slot : ℕ) → Entry x h slot → Holds x h slot

pub Chain→Entry :
    (k : ℕ) (x : Index) (h slot rounds i : ℕ)
    → IsTable k x
    → i ≤ x.mask
    → Chain x h (slot + 1) rounds i
    → Entry x h slot
Chain→Entry k x h slot zero i t inside c = elim c [ ]
Chain→Entry k x h slot (suc rounds) i t inside (here e g) = (i, inside, e, g)
Chain→Entry k x h slot (suc rounds) i t inside (next u c) =
    Chain→Entry k x h slot rounds (next_bucket x i) t (masked-le k x (u32 (i + 1)) t) c

pub Holds→Entry : (k : ℕ) (x : Index) (h slot : ℕ) → IsTable k x → Holds x h slot → Entry x h slot
Holds→Entry k x h slot t c =
    Chain→Entry k x h slot (x.mask + 1) (bit_and h x.mask) t (masked-le k x h t) c

-- A bucket after a store holds what was stored or what it held before.
store_at-Entry :
    (k : ℕ) (x : Index) (h slot h' slot' : ℕ) (pl : Place)
    → IsTable k x
    → FreeAt x pl
    → Entry (store_at x h (slot + 1) pl) h' slot'
    → ((h' ≡ h) × (slot' ≡ slot)) ⊎ Entry x h' slot'
store_at-Entry k x h slot h' slot' there t f e = inr e
store_at-Entry k x h slot h' slot' full t f e = inr e
store_at-Entry k x h slot h' slot' (empty j) t f (i, inside, es, eh) = elim (ℕ_discrete j i) [
  | yes e ↦
      let at_s : get_or (set x.slot j (slot + 1)) i 0 ≡ slot + 1 =
        ap (λ n. get_or (set x.slot j (slot + 1)) n 0) (sym e)
        ∙ get_or-set_self x.slot j (slot + 1) 0 (omega (arith, t.slots, f.0)) in
      let at_h : get_or (set x.hash j h) i 0 ≡ h =
        ap (λ n. get_or (set x.hash j h) n 0) (sym e)
        ∙ get_or-set_self x.hash j h 0 (omega (arith, t.hashes, f.0)) in
      inl (sym eh ∙ at_h, omega (arith, es, at_s))
  | no n ↦ inr (
    i,
    inside,
    sym (get_or-set_ne x.slot j i (slot + 1) 0 n) ∙ es,
    sym (get_or-set_ne x.hash j i h 0 n) ∙ eh,
  )
]

store_at-IsTable :
    (k : ℕ) (x : Index) (h slot1 : ℕ) (pl : Place) → IsTable k x → IsTable k (store_at x h slot1 pl)
store_at-IsTable k x h slot1 there t = t
store_at-IsTable k x h slot1 full t = t
store_at-IsTable k x h slot1 (empty j) t = record {
  power = t.power;
  small = t.small;
  slots = length-set x.slot j slot1 ∙ t.slots;
  hashes = length-set x.hash j h ∙ t.hashes;
}

-- The count after a store, which is at most one more.
abbrev Counts : Index → Index → Type 0
Counts x y = (y.used ≡ occupied y.slot) × (y.used ≤ x.used + 1)

store_at-Counts :
    (k : ℕ) (x : Index) (h slot : ℕ) (pl : Place)
    → IsTable k x
    → FreeAt x pl
    → x.used ≤ x.mask
    → x.used ≡ occupied x.slot
    → Counts x (store_at x h (slot + 1) pl)
store_at-Counts k x h slot there t f l c = (c, omega arith)
store_at-Counts k x h slot full t f l c = (c, omega arith)
store_at-Counts k x h slot (empty j) t f l c =
    let same : u32 (x.used + 1) ≡ x.used + 1 = omega (arith, t.small) in
    let one_more : occupied (set x.slot j (slot + 1)) ≡ suc (occupied x.slot) =
      occupied-set x.slot j (slot + 1) (omega (arith, t.slots, f.0)) f.1
        (λ e. absurd (omega (arith, e))) in
    (omega (arith, same, one_more, c), omega (arith, same))

-- What putting an entry into a table with room gives.
pub record IsPut (k : ℕ) (x : Index) (h slot : ℕ) (y : Index) : Type 0 where
  pub chained : IsChained k y
  pub same_mask : y.mask ≡ x.mask
  pub one_more : y.used ≤ x.used + 1
  pub entries : (h' slot' : ℕ) → Entry y h' slot' ↔ (((h' ≡ h) × (slot' ≡ slot)) ⊎ Entry x h' slot')

pub put-IsPut :
    (k : ℕ) (x : Index) (h slot : ℕ)
    → IsChained k x
    → x.used ≤ x.mask
    → IsPut k x h slot (put x h (slot + 1))
unfolding put
put-IsPut k x h slot c room =
    let t : IsTable k x = c.table in
    let pl : Place = place (x.mask + 1) x h (slot + 1) (bit_and h x.mask) in
    let f : FreeAt x pl =
      place-FreeAt (x.mask + 1) k x h (slot + 1) (bit_and h x.mask) t (masked-le k x h t) in
    let y : Index = store_at x h (slot + 1) pl in
    let ty : IsTable k y = store_at-IsTable k x h (slot + 1) pl t in
    let free = free_bucket x.slot (omega (arith, c.counted, t.slots)) in
    let puts = put-Holds k x h slot free.0 t (omega (arith, free.1, t.slots)) free.2 in
    let n = store_at-Counts k x h slot pl t f room c.counted in
    let m : y.mask ≡ x.mask = mask-store_at x h (slot + 1) pl in
    let reach : (h' slot' : ℕ) → ((h' ≡ h) × (slot' ≡ slot)) ⊎ Entry x h' slot' → Holds y h' slot' =
      λ h' slot' a. elim a [
        | inl (eh, es) ↦ rw (eh, es) puts.0
        | inr e ↦ puts.1 h' slot' (c.held h' slot' e)
      ] in
    record {
      chained = record {
        table = ty;
        positive = omega (arith, m, c.positive);
        counted = n.0;
        held = λ h' slot' e. reach h' slot' (store_at-Entry k x h slot h' slot' pl t f e);
      };
      same_mask = m;
      one_more = n.1;
      entries = λ h' slot'. (
        store_at-Entry k x h slot h' slot' pl t f,
        λ a. Holds→Entry k y h' slot' ty (reach h' slot' a),
      );
    }
