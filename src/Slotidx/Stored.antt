-- ===== src/Slotidx/Stored.antt =====
-- Inserting into a table with a free bucket: the walk reaches one, and the entry is found afterwards.
use camex.Base.{
  ℕ, zero, suc, ◌+◌, ◌-◌, ◌^◌, ◌%◌, ◌≤◌, ◌<◌, ◌≡◌, ◌≢◌, refl, sym, ap, ◌∙◌, ◌⊎◌, inl, inr, Bool,
  true, false, ◌&&◌, length, get_or, ◌==◌, if◌then◌else◌, if_true, if_false, if_elim, ==_iff,
  bit_and, u32, arith, bit_and-mask, Bool-cases, dec_lt, yes, no,
}
use native.Mathlib.Nat.{mod-lt, mod-eq_of_lt, mod_self}
use camex.Slotidx.{Index, Place, empty, there, full, next_bucket, place, store_at, put, find}
use camex.Slotidx.Chain.{Chain, Holds, place-Chain, keeps-Chain, subst_place, AtMost, find-Holds}

-- A table of `2 ^ k` buckets, all of whose lists have that length.
pub record IsTable (k : ℕ) (x : Index) : Type 0 where
  pub power : x.mask + 1 ≡ 2 ^ k
  pub small : x.mask < 2 ^ 31
  pub slots : length x.slot ≡ x.mask + 1
  pub hashes : length x.hash ≡ x.mask + 1

masked : (k : ℕ) (x : Index) (a : ℕ) → IsTable k x → bit_and a x.mask ≡ a % 2 ^ k
masked k x a t =
    let m : x.mask ≡ 2 ^ k - 1 = omega (arith, t.power) in
    ap (λ n. bit_and a n) m ∙ bit_and-mask k a

pub masked-le : (k : ℕ) (x : Index) (a : ℕ) → IsTable k x → bit_and a x.mask ≤ x.mask
masked-le k x a t =
    omega (arith, masked k x a t, mod-lt a {m = 2 ^ k} (omega (arith, t.power)), t.power)

next-inside : (k : ℕ) (x : Index) (i : ℕ) → IsTable k x → i < x.mask → next_bucket x i ≡ i + 1
next-inside k x i t h =
    let same : u32 (i + 1) ≡ i + 1 = omega (arith, t.small) in
    ap (λ n. bit_and n x.mask) same ∙ (masked k x (i + 1) t ∙ mod-eq_of_lt (omega (arith, t.power)))

next-around : (k : ℕ) (x : Index) → IsTable k x → next_bucket x x.mask ≡ 0
next-around k x t =
    let same : u32 (x.mask + 1) ≡ 2 ^ k = omega (arith, t.small, t.power) in
    ap (λ n. bit_and n x.mask) same ∙ (masked k x (2 ^ k) t ∙ mod_self (2 ^ k))

-- `d` buckets after `i`, around the end, comes `j`.
abbrev Ahead : Index → ℕ → ℕ → ℕ → Type 0
Ahead x i d j = (i + d ≡ j) ⊎ (i + d ≡ j + x.mask + 1)

Ahead-next_bucket :
    (k : ℕ) (x : Index) (i d j : ℕ)
    → IsTable k x
    → i ≤ x.mask
    → j ≤ x.mask
    → Ahead x i (suc d) j
    → Ahead x (next_bucket x i) d j
Ahead-next_bucket k x i d j t h g a = elim (dec_lt i x.mask) [
  | yes l ↦ elim a [
    | inl e ↦ inl (omega (arith, next-inside k x i t l))
    | inr e ↦ inr (omega (arith, next-inside k x i t l))
  ]
  | no n ↦
      let last : x.mask ≡ i = omega (arith, n) in
      let first : next_bucket x i ≡ 0 = ap (next_bucket x) (sym last) ∙ next-around k x t in
      elim a [ inl e ↦ absurd (omega (arith, last)) | inr e ↦ inl (omega (arith, last, first)) ]
]

-- A walk of more than `d` buckets does not miss a free bucket `d` ahead.
place-room :
    (rounds k : ℕ) (x : Index) (h slot1 i d j : ℕ)
    → IsTable k x
    → i ≤ x.mask
    → j ≤ x.mask
    → get_or x.slot j 0 ≡ 0
    → d < rounds
    → Ahead x i d j
    → place rounds x h slot1 i ≢ full
unfolding place
place-room zero k x h slot1 i d j t inside g free l a = absurd (omega arith)
place-room (suc rounds) k x h slot1 i d j t inside g free l a =
    let s : ℕ = get_or x.slot i 0 in
    let walk : Place = place rounds x h slot1 (next_bucket x i) in
    let mine : Bool = s == slot1 && get_or x.hash i 0 == h in
    let P : Place → Type 0 = λ pl. pl ≢ full in
    elim (Bool-cases (s == 0)) [
      | inl here ↦
          subst_place P (sym (if_true (s == 0) (empty i) (if mine then there else walk) here))
            (λ q. cc q)
      | inr used ↦ elim (Bool-cases mine) [
        | inl its ↦
            subst_place P
              (sym (
                if_false (s == 0) (empty i) (if mine then there else walk) used
                ∙ if_true mine there walk its))
              (λ q. cc q)
        | inr other ↦
            subst_place P
              (sym (
                if_false (s == 0) (empty i) (if mine then there else walk) used
                ∙ if_false mine there walk other))
              (go
                (λ d' l' a'.
                  place-room rounds k x h slot1 (next_bucket x i) d' j t
                    (masked-le k x (u32 (i + 1)) t) g free l' a')
                d l a used)
      ]
    ]
  where
    go :
        ((d : ℕ)
          → d < rounds
          → Ahead x (next_bucket x i) d j
          → place rounds x h slot1 (next_bucket x i) ≢ full)
        → (d : ℕ) → d < suc rounds
        → Ahead x i d j
        → (get_or x.slot i 0 == 0) ≡ false
        → place rounds x h slot1 (next_bucket x i) ≢ full
    go onward zero l (inl e) used =
        let same : j ≡ i = omega (arith, e) in
        absurd (ground (arith, used, sym (ap (λ n. get_or x.slot n 0) same) ∙ free))
    go onward zero l (inr e) used = absurd (omega (arith, e, inside))
    go onward (suc d) l a used = onward d (omega arith) (Ahead-next_bucket k x i d j t inside g a)

-- A walk ends only at free buckets of the table.
abbrev pub FreeAt : Index → Place → Type 0
FreeAt x there = Unit
FreeAt x full = Unit
FreeAt x (empty j) = (j ≤ x.mask) × (get_or x.slot j 0 ≡ 0)

pub place-FreeAt :
    (rounds k : ℕ) (x : Index) (h slot1 i : ℕ)
    → IsTable k x
    → i ≤ x.mask
    → FreeAt x (place rounds x h slot1 i)
unfolding place
place-FreeAt zero k x h slot1 i t inside = tt
place-FreeAt (suc rounds) k x h slot1 i t inside =
    let s : ℕ = get_or x.slot i 0 in
    let walk : Place = place rounds x h slot1 (next_bucket x i) in
    let mine : Bool = s == slot1 && get_or x.hash i 0 == h in
    let onward =
      place-FreeAt rounds k x h slot1 (next_bucket x i) t (masked-le k x (u32 (i + 1)) t) in
    if_elim (FreeAt x) (s == 0) (empty i) (if mine then there else walk)
      (λ free. (inside, (==_iff s 0).0 free))
      (λ _. if_elim (FreeAt x) mine there walk (λ _. tt) (λ _. onward))

hold-from :
    (x : Index) (h slot1 : ℕ) (pl : Place) (h' slot' : ℕ)
    → Chain (store_at x h slot1 pl) h' (slot' + 1) (x.mask + 1) (bit_and h' x.mask)
    → Holds (store_at x h slot1 pl) h' slot'
hold-from x h slot1 there h' slot' c = c
hold-from x h slot1 full h' slot' c = c
hold-from x h slot1 (empty j) h' slot' c = c

keeps-Holds :
    (k : ℕ) (x : Index) (h slot : ℕ) (pl : Place) (h' slot' : ℕ)
    → IsTable k x
    → FreeAt x pl
    → Holds x h' slot'
    → Holds (store_at x h (slot + 1) pl) h' slot'
keeps-Holds k x h slot there h' slot' t f c = c
keeps-Holds k x h slot full h' slot' t f c = c
keeps-Holds k x h slot (empty j) h' slot' t f c =
    keeps-Chain x h (slot + 1) j (λ e. absurd (omega arith)) h' (slot' + 1) (x.mask + 1)
      (bit_and h' x.mask) (omega (arith, t.slots, f.0)) f.1 (λ e. absurd (omega arith)) c

pub put-Holds :
    (k : ℕ) (x : Index) (h slot j : ℕ)
    → IsTable k x
    → j ≤ x.mask
    → get_or x.slot j 0 ≡ 0
    → Holds (put x h (slot + 1)) h slot
      × ((h' slot' : ℕ) → Holds x h' slot' → Holds (put x h (slot + 1)) h' slot')
unfolding put
put-Holds k x h slot j t g free =
    let i : ℕ = bit_and h x.mask in
    let inside : i ≤ x.mask = masked-le k x h t in
    let p : slot + 1 ≢ 0 = λ e. absurd (omega arith) in
    let room : place (x.mask + 1) x h (slot + 1) i ≢ full = elim (dec_lt j i) [
      | yes l ↦
          place-room (x.mask + 1) k x h (slot + 1) i (j + x.mask + 1 - i) j t inside g free
            (omega (arith, l)) (inr (omega (arith, inside)))
      | no n ↦
          place-room (x.mask + 1) k x h (slot + 1) i (j - i) j t inside g free (omega (arith, g))
            (inl (omega (arith, n)))
    ] in
    let pl : Place = place (x.mask + 1) x h (slot + 1) i in
    (
      hold-from x h (slot + 1) pl h slot (
          place-Chain (x.mask + 1) x h (slot + 1) i p
            (t.slots, t.hashes, λ n. masked-le k x (u32 (n + 1)) t) inside room),
      λ h' slot' c.
          keeps-Holds k x h slot pl h' slot' t
            (place-FreeAt (x.mask + 1) k x h (slot + 1) i t inside) c,
    )

pub mask-store_at : (x : Index) (h slot1 : ℕ) (pl : Place) → (store_at x h slot1 pl).mask ≡ x.mask
mask-store_at x h slot1 there = refl
mask-store_at x h slot1 full = refl
mask-store_at x h slot1 (empty j) = refl

-- A slot that has been put into a table with a free bucket under some hash is found there, or a
-- lower one is, and the same holds of every slot that the table held before, where the caller's
-- match accepts the slot.
pub find-put :
    (match : ℕ → Bool) (k : ℕ) (x : Index) (h slot j h' slot' : ℕ)
    → IsTable k x
    → 0 < x.mask
    → j ≤ x.mask
    → get_or x.slot j 0 ≡ 0
    → ((h' ≡ h) × (slot' ≡ slot)) ⊎ Holds x h' slot'
    → match slot' ≡ true
    → AtMost slot' (find match (put x h (slot + 1)) h')
unfolding put
find-put match k x h slot j h' slot' t positive g free stored m =
    let pl : Place = place (x.mask + 1) x h (slot + 1) (bit_and h x.mask) in
    let new : Index = store_at x h (slot + 1) pl in
    let held = put-Holds k x h slot j t g free in
    let table : (new.mask == 0) ≡ false =
      ap (λ n. n == 0) (mask-store_at x h (slot + 1) pl) ∙ ground arith in
    find-Holds match new h' slot' table
      (elim stored [ inl (eh, es) ↦ rw (eh, es) held.0 | inr c ↦ held.1 h' slot' c ]) m
