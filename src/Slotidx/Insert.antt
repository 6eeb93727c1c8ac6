-- ===== src/Slotidx/Insert.antt =====
-- `slotidx_insert` as an operation on the set of entries.
use camex.Base.{
  ℕ, suc, ◌+◌, ◌-◌, ◌*◌, ◌^◌, ◌≤◌, ◌<◌, ◌≡◌, refl, sym, ap, ◌∙◌, ◌⊎◌, inl, inr, ◌↔◌, Bool, true,
  false, ◌||◌, Option, some, ltb, ◌==◌, if◌then◌else◌, if_true, if_false, u32, arith, Bool-cases,
  ltb_false→le, or_false,
}
use native.Mathlib.Nat.{pow-succ'}
use camex.Slotidx.{
  Index, no_table, put, rehash, rehashed, with_room, alloc_table, put_into, insert, min_buckets,
}
use camex.Slotidx.Stored.{IsTable}
use camex.Slotidx.Room.{taken, taken-occupied}
use camex.Slotidx.Entries.{Entry, IsChained, IsPut, put-IsPut}
use camex.Slotidx.Growth.{
  fresh_table, fresh-no_Entry, fresh-IsChained, EntryFrom, IsCopy, rehash-IsCopy,
}

-- A table that is half full at most.
pub record IsHalf (k : ℕ) (x : Index) : Type 0 where
  pub chained : IsChained k x
  pub half : x.used * 2 ≤ x.mask + 1

-- An index of the program: without a table, or with one.
abbrev pub IsIndex : Index → Type 0
IsIndex x = (x ≡ no_table) ⊎ ((k : ℕ) × IsHalf k x)

-- The same entries, with room for one more.
record IsGrown (x y : Index) : Type 0 where
  pub size : ℕ
  pub chained : IsChained size y
  pub roomy : (y.used + 1) * 2 ≤ y.mask + 1
  pub counted : y.used ≤ x.used
  pub bounded : (y.mask ≤ x.mask) ⊎ (y.mask < (x.used + 4) * 4)
  pub entries : (h slot : ℕ) → Entry y h slot ↔ Entry x h slot

-- A call that succeeds with such an index.
abbrev Grows : Index → Option Index → Type 0
Grows x o = (y : Index) × (o ≡ some y) × IsGrown x y

no_table-no_Entry : (h slot : ℕ) → Entry no_table h slot → ⊥
no_table-no_Entry h slot (j, inside, e, g) = absurd (omega (arith, e))

EntryFrom-all : (x : Index) (h slot : ℕ) → EntryFrom (x.mask + 1) 0 x h slot ↔ Entry x h slot
EntryFrom-all x h slot = (
  λ (j, l, u, es, eh). (j, omega (arith, u), es, eh),
  λ (j, l, es, eh). (j, omega arith, omega (arith, l), es, eh),
)

double-IsGrown :
    (k : ℕ) (x : Index)
    → IsHalf k x
    → x.mask < 2 ^ 30
    → x.mask + 1 < (x.used + 1) * 2
    → IsGrown x (rehash (x.mask + 1) 0 x (fresh_table ((x.mask + 1) * 2)))
double-IsGrown k x half small full =
    let t : IsTable k x = half.chained.table in
    let n : ℕ = (x.mask + 1) * 2 in
    let p : n ≡ 2 ^ (suc k) = omega (arith, t.power, pow-succ' 2 k) in
    let f : IsChained (suc k) (fresh_table n) =
      fresh-IsChained (suc k) n p (omega arith) (omega arith) in
    let c : IsCopy (suc k) (x.mask + 1) 0 x (fresh_table n)
        (rehash (x.mask + 1) 0 x (fresh_table n)) =
      rehash-IsCopy (suc k) (x.mask + 1) 0 x (fresh_table n) f (omega arith) in
    let all : taken (x.mask + 1) 0 x.slot ≡ x.used =
      ap (λ m. taken m 0 x.slot) (sym t.slots)
      ∙ (taken-occupied x.slot ∙ sym half.chained.counted) in
    record {
      size = suc k;
      chained = c.chained;
      roomy = omega (arith, c.same_mask, c.counted, all, half.half, half.chained.positive);
      counted = omega (arith, c.counted, all);
      bounded = inr (omega (arith, c.same_mask, full));
      entries = λ h slot. (
        λ e. elim ((c.entries h slot).0 e) [
          | inl b ↦ absurd (fresh-no_Entry n h slot b)
          | inr a ↦ (EntryFrom-all x h slot).0 a
        ],
        λ e. (c.entries h slot).1 (inr ((EntryFrom-all x h slot).1 e)),
      );
    }

no_table-Grows : Grows no_table (with_room true no_table)
unfolding with_room alloc_table
no_table-Grows = (
  fresh_table min_buckets,
  refl,
  record {
    size = 4;
    chained = fresh-IsChained 4 min_buckets refl (omega arith) (omega arith);
    roomy = omega arith;
    counted = omega arith;
    bounded = inr (omega arith);
    entries = λ h slot. (
      λ e. absurd (fresh-no_Entry min_buckets h slot e),
      λ e. absurd (no_table-no_Entry h slot e),
    );
  },
)

with_room-Grows : (k : ℕ) (x : Index) → IsHalf k x → x.mask < 2 ^ 30 → Grows x (with_room true x)
unfolding with_room alloc_table
with_room-Grows k x half small =
    let n : ℕ = (x.mask + 1) * 2 in
    let table : (x.mask == 0) ≡ false = ground (arith, half.chained.positive) in
    let crowded : Bool = x.mask == 0 || ltb (x.mask + 1) ((x.used + 1) * 2) in
    let new : Option Index =
      rehashed x (alloc_table true (if x.mask == 0 then min_buckets else n)) in
    let y : Index = rehash (x.mask + 1) 0 x (fresh_table n) in
    elim (Bool-cases crowded) [
      | inl c ↦ (
        y,
        if_true crowded new (some x) c
            ∙ (ap (λ m. rehashed x (some (fresh_table m)))
                  (if_false (x.mask == 0) min_buckets n table)
                ∙ if_false (x.mask == 0) (some (fresh_table n)) (some y) table),
        double-IsGrown k x half small (ground (arith, c, table)),
      )
      | inr c ↦ (
        x,
        if_false crowded new (some x) c,
        record {
          size = k;
          chained = half.chained;
          roomy =
              ltb_false→le (x.mask + 1) ((x.used + 1) * 2)
                (or_false (x.mask == 0) (ltb (x.mask + 1) ((x.used + 1) * 2)) c).1;
          counted = omega arith;
          bounded = inl (omega arith);
          entries = λ h slot. (λ e. e, λ e. e);
        },
      )
    ]

IsIndex-Grows : (x : Index) → IsIndex x → x.mask < 2 ^ 30 → Grows x (with_room true x)
IsIndex-Grows x (inl e) small = rw e no_table-Grows
IsIndex-Grows x (inr (k, half)) small = with_room-Grows k x half small

-- With memory at hand and a table of less than 2^30 buckets, an insertion into an index succeeds. What
-- it leaves is an index again, with a table that counts its entries, is half full at most and lets a
-- search reach every one of them, and its entries are the new one and those that were there.
pub insert-Entry :
    (x : Index) (h slot : ℕ)
    → IsIndex x
    → x.mask < 2 ^ 30
    → slot < 2 ^ 32 - 1
    → (y : Index) × (insert true x h slot ≡ some y)
      × IsIndex y
      × ((h' slot' : ℕ) → Entry y h' slot' ↔ (((h' ≡ h) × (slot' ≡ slot)) ⊎ Entry x h' slot'))
unfolding insert
insert-Entry x h slot i small fits =
    let (g, its, grown) = IsIndex-Grows x i small in
    let same : u32 (slot + 1) ≡ slot + 1 = omega arith in
    let p : IsPut grown.size g h slot (put g h (slot + 1)) =
      put-IsPut grown.size g h slot grown.chained (omega (arith, grown.roomy)) in
    (
      put g h (slot + 1),
      ap (put_into h slot) its ∙ ap (λ n. some (put g h n)) same,
      inr (
        grown.size,
        record { chained = p.chained; half = omega (arith, grown.roomy, p.one_more, p.same_mask) },
      ),
      λ h' slot'. (
        λ e. elim ((p.entries h' slot').0 e) [
          | inl new ↦ inl new
          | inr old ↦ inr ((grown.entries h' slot').0 old)
        ],
        λ a.
            (p.entries h' slot').1
              (elim a [ inl new ↦ inl new | inr old ↦ inr ((grown.entries h' slot').1 old) ]),
      ),
    )

-- An insertion adds at most one entry to the count, and the table it leaves is the one it found or of
-- a size that the count bounds.
pub insert-used :
    (x y : Index) (h slot : ℕ)
    → IsIndex x
    → x.mask < 2 ^ 30
    → slot < 2 ^ 32 - 1
    → insert true x h slot ≡ some y
    → (y.used ≤ x.used + 1) × ((y.mask ≤ x.mask) ⊎ (y.mask < (x.used + 4) * 4))
unfolding insert
insert-used x y h slot i small fits e =
    let (g, its, grown) = IsIndex-Grows x i small in
    let same : u32 (slot + 1) ≡ slot + 1 = omega arith in
    let p : IsPut grown.size g h slot (put g h (slot + 1)) =
      put-IsPut grown.size g h slot grown.chained (omega (arith, grown.roomy)) in
    let y' : put g h (slot + 1) ≡ y =
      cc (sym (ap (put_into h slot) its ∙ ap (λ n. some (put g h n)) same) ∙ e) in
    rw (← y') (
      omega (arith, p.one_more, grown.counted),
      elim grown.bounded [
        | inl l ↦ inl (omega (arith, p.same_mask, l))
        | inr l ↦ inr (omega (arith, p.same_mask, l))
      ],
    )
