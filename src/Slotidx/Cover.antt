-- ===== src/Slotidx/Cover.antt =====
-- An index that covers the keys of its owner: what an insertion, which may fail, and a reset do to
-- it, and that a lookup through it is a scan of the owner's table.
use camex.Base.{
  ℕ, ◌+◌, ◌-◌, ◌*◌, ◌^◌, ◌≤◌, ◌<◌, ◌≡◌, refl, sym, ap, ◌∙◌, ◌⊎◌, inl, inr, Bool, true, false, ◌||◌,
  Option, none, some, ltb, ◌==◌, if_true, if_false, arith, Bool-cases,
}
use camex.Slotidx.{
  Index, no_table, with_room, alloc_table, put_into, insert, min_buckets, reset, buckets_for,
}
use camex.Slotidx.Entries.{Entry, IsChained}
use camex.Slotidx.Growth.{fresh_table, fresh-IsChained}
use camex.Slotidx.Insert.{IsIndex, insert-Entry, insert-used}
use camex.Slotidx.Reset.{IsSize, buckets_for-IsSize, reset-fresh}

-- A set of keys: which slots belong under which hashes.
abbrev pub Keys : Type 1
Keys = ℕ → ℕ → Type 0

-- Memory that is there when it is needed changes nothing else.
with_room-memory :
    (memory : Bool) (x y : Index) → with_room memory x ≡ some y → with_room true x ≡ some y
unfolding with_room alloc_table
with_room-memory true x y e = e
with_room-memory false x y e =
    let crowded : Bool = x.mask == 0 || ltb (x.mask + 1) ((x.used + 1) * 2) in
    elim (Bool-cases crowded) [
      | inl c ↦ absurd (cc (sym (if_true crowded none (some x) c) ∙ e))
      | inr c ↦ if_false crowded _ (some x) c ∙ (sym (if_false crowded none (some x) c) ∙ e)
    ]

put_into-some :
    (h slot : ℕ) (o : Option Index) (y : Index)
    → put_into h slot o ≡ some y
    → (g : Index) × (o ≡ some g) × (put_into h slot (some g) ≡ some y)
put_into-some h slot none y e = absurd (cc e)
put_into-some h slot (some g) y e = (g, refl, e)

pub insert-memory :
    (memory : Bool) (x y : Index) (h slot : ℕ)
    → insert memory x h slot ≡ some y
    → insert true x h slot ≡ some y
unfolding insert
insert-memory memory x y h slot e =
    let (g, its, p) = put_into-some h slot (with_room memory x) y e in
    ap (put_into h slot) (with_room-memory memory x g its) ∙ p

-- An index of the program that every key of `keys` is entered in.
pub record IsCover (keys : Keys) (x : Index) : Type 0 where
  pub index : IsIndex x
  pub covers : (slot h : ℕ) → keys slot h → Entry x h slot

pub IsCover-insert :
    (keys more : Keys) (memory : Bool) (x y : Index) (h slot : ℕ)
    → IsCover keys x
    → x.mask < 2 ^ 30
    → slot < 2 ^ 32 - 1
    → insert memory x h slot ≡ some y
    → ((slot' h' : ℕ) → more slot' h' → ((h' ≡ h) × (slot' ≡ slot)) ⊎ keys slot' h')
    → IsCover more y
IsCover-insert keys more memory x y h slot c small fits e m =
    let (z, its, i, entries) = insert-Entry x h slot c.index small fits in
    let same : z ≡ y = cc (sym its ∙ insert-memory memory x y h slot e) in
    rw (← same) (record {
      index = i;
      covers = λ slot' h' k.
          (entries h' slot').1
            (elim (m slot' h' k) [ inl new ↦ inl new | inr old ↦ inr (c.covers slot' h' old) ]);
    })

-- What an insertion does to the sizes, for indexes of up to 2^26 entries.
pub insert-small :
    (memory : Bool) (x y : Index) (h slot : ℕ)
    → IsIndex x
    → x.mask < 2 ^ 30
    → x.used ≤ 2 ^ 26
    → slot < 2 ^ 32 - 1
    → insert memory x h slot ≡ some y
    → (y.mask < 2 ^ 30) × (y.used ≤ x.used + 1)
insert-small memory x y h slot i small few fits e =
    let (u, m) = insert-used x y h slot i small fits (insert-memory memory x y h slot e) in
    (elim m [ inl l ↦ omega (arith, l) | inr l ↦ omega (arith, l) ], u)

-- Keys that go leave entries behind, which does no harm.
pub IsCover-fewer :
    (keys fewer : Keys) (x : Index)
    → IsCover keys x
    → ((slot h : ℕ) → fewer slot h → keys slot h)
    → IsCover fewer x
IsCover-fewer keys fewer x c f = record {
  index = c.index;
  covers = λ slot h k. c.covers slot h (f slot h k);
}

abbrev pub no_keys : Keys
no_keys slot h = ⊥

pub IsCover-reset :
    (memory : Bool) (x y : Index) (entries : ℕ)
    → entries ≤ 2 ^ 28
    → reset memory x entries ≡ some y
    → IsCover no_keys y × (y.mask < 2 ^ 30) × (y.used ≡ 0)
IsCover-reset memory x y entries few e =
    let n : ℕ = buckets_for entries in
    let s : IsSize min_buckets entries n = buckets_for-IsSize entries (omega arith) in
    let big : n ≤ 2 ^ 30 = elim s.tight [ inl t ↦ omega (arith, t) | inr t ↦ omega (arith, t) ] in
    let c : IsChained s.exponent (fresh_table n) =
      fresh-IsChained s.exponent n s.power (omega (arith, s.least)) (omega arith) in
    rw (reset-fresh memory x y entries e) (
      record {
        index = inr (s.exponent, record { chained = c; half = omega arith });
        covers = λ slot h k. absurd k;
      },
      omega (arith, s.least),
      refl,
    )

-- A cover of a bounded size.
pub record IsPart (keys : Keys) (n : ℕ) (x : Index) : Type 0 where
  pub cover : IsCover keys x
  pub small : x.mask < 2 ^ 30
  pub counted : x.used ≤ n

pub IsPart-insert :
    (keys more : Keys) (n : ℕ) (memory : Bool) (x y : Index) (h slot : ℕ)
    → IsPart keys n x
    → n ≤ 2 ^ 26
    → slot < 2 ^ 32 - 1
    → insert memory x h slot ≡ some y
    → ((slot' h' : ℕ) → more slot' h' → ((h' ≡ h) × (slot' ≡ slot)) ⊎ keys slot' h')
    → IsPart more (n + 1) y
IsPart-insert keys more n memory x y h slot p few fits e m =
    let (small, counted) =
      insert-small memory x y h slot p.cover.index p.small (omega (arith, p.counted)) fits e in
    record {
      cover = IsCover-insert keys more memory x y h slot p.cover p.small fits e m;
      small = small;
      counted = omega (arith, counted, p.counted);
    }

pub IsPart-fewer :
    (keys fewer : Keys) (n : ℕ) (x : Index)
    → IsPart keys n x
    → ((slot h : ℕ) → fewer slot h → keys slot h)
    → IsPart fewer n x
IsPart-fewer keys fewer n x p f = record {
  cover = IsCover-fewer keys fewer x p.cover f;
  small = p.small;
  counted = p.counted;
}

pub IsPart-reset :
    (memory : Bool) (x y : Index) (entries : ℕ)
    → entries ≤ 2 ^ 28
    → reset memory x entries ≡ some y
    → IsPart no_keys 0 y
IsPart-reset memory x y entries few e =
    let (cover, small, counted) = IsCover-reset memory x y entries few e in
    record { cover = cover; small = small; counted = omega (arith, counted) }

-- An index of the program of less than 2^30 buckets.
abbrev pub IsSmall : Index → Type 0
IsSmall x = IsIndex x × (x.mask < 2 ^ 30)

pub IsPart-IsSmall : (keys : Keys) (n : ℕ) (x : Index) → IsPart keys n x → IsSmall x
IsPart-IsSmall keys n x p = (p.cover.index, p.small)

pub no_table-IsSmall : IsSmall no_table
no_table-IsSmall = (inl refl, omega arith)
