-- ===== src/Slotidx/Growth.antt =====
-- A table that grows keeps its entries and stays half full at most.
use camex.Base.{
  ℕ, zero, suc, ◌+◌, ◌-◌, ◌^◌, ◌≤◌, ◌<◌, ◌≡◌, ◌≢◌, refl, sym, ap, ◌∙◌, ◌⊎◌, inl, inr, ◌↔◌, get_or,
  replicate, ◌==◌, arith, get_or-replicate, length-replicate, ==_iff, if_elim, ℕ_discrete, yes, no,
}
use camex.Slotidx.{Index, put, rehash}
use camex.Slotidx.Room.{occupied-replicate, taken, taken_at}
use camex.Slotidx.Entries.{Entry, IsChained, IsPut, put-IsPut}

-- What `calloc` gives: `2 ^ k` free buckets.
abbrev pub fresh_table : ℕ → Index
fresh_table n = record { hash = replicate n 0; slot = replicate n 0; mask = n - 1; used = 0 }

pub fresh-no_Entry : (n h slot : ℕ) → Entry (fresh_table n) h slot → ⊥
fresh-no_Entry n h slot (j, inside, e, g) =
    absurd (omega (arith, e, get_or-replicate {A = ℕ} n j 0))

pub fresh-IsChained : (k n : ℕ) → n ≡ 2 ^ k → 2 ≤ n → n ≤ 2 ^ 31 → IsChained k (fresh_table n)
fresh-IsChained k n p many small = record {
  table = record {
    power = omega (arith, p);
    small = omega arith;
    slots = omega (arith, length-replicate {A = ℕ} n 0);
    hashes = omega (arith, length-replicate {A = ℕ} n 0);
  };
  positive = omega arith;
  counted = sym (occupied-replicate n);
  held = λ h slot e. absurd (fresh-no_Entry n h slot e);
}

-- Bucket `j` of `rounds` buckets from bucket `i` on holds the entry.
abbrev pub EntryFrom : ℕ → ℕ → Index → ℕ → ℕ → Type 0
EntryFrom rounds i x h slot =
    (j : ℕ) × (i ≤ j) × (j < i + rounds) × (get_or x.slot j 0 ≡ slot + 1) × (get_or x.hash j 0 ≡ h)

-- What copying those buckets into `bigger` gives.
pub record IsCopy (k rounds i : ℕ) (x bigger y : Index) : Type 0 where
  pub chained : IsChained k y
  pub same_mask : y.mask ≡ bigger.mask
  pub counted : y.used ≤ bigger.used + taken rounds i x.slot
  pub entries : (h slot : ℕ) → Entry y h slot ↔ (Entry bigger h slot ⊎ EntryFrom rounds i x h slot)

skip-IsCopy :
    (k rounds i : ℕ) (x bigger y : Index)
    → get_or x.slot i 0 ≡ 0
    → IsCopy k rounds (i + 1) x bigger y
    → IsCopy k (suc rounds) i x bigger y
skip-IsCopy k rounds i x bigger y free c = record {
  chained = c.chained;
  same_mask = c.same_mask;
  counted = omega (arith, c.counted);
  entries = λ h slot. (
    λ e. elim ((c.entries h slot).0 e) [
      | inl b ↦ inl b
      | inr (j, l, u, es, eh) ↦ inr (j, omega (arith, l), omega (arith, u), es, eh)
    ],
    λ a. elim a [
      | inl b ↦ (c.entries h slot).1 (inl b)
      | inr (j, l, u, es, eh) ↦
          let apart : i ≢ j =
            λ e. absurd (omega (arith, es, sym (ap (λ n. get_or x.slot n 0) e) ∙ free)) in
          let later : i + 1 ≤ j = ground (arith, l, apart) in
          (c.entries h slot).1 (inr (j, later, omega (arith, u), es, eh))
    ],
  );
}

filled-IsCopy :
    (k rounds i slot' : ℕ) (x bigger mid y : Index)
    → get_or x.slot i 0 ≡ slot' + 1
    → IsPut k bigger (get_or x.hash i 0) slot' mid
    → IsCopy k rounds (i + 1) x mid y
    → IsCopy k (suc rounds) i x bigger y
filled-IsCopy k rounds i slot' x bigger mid y its p c = record {
  chained = c.chained;
  same_mask = c.same_mask ∙ p.same_mask;
  counted =
      let one : get_or x.slot i 0 ≡ suc slot' = omega (arith, its) in
      omega (arith, c.counted, p.one_more, ap taken_at one);
  entries = λ h slot. (
    λ e. elim ((c.entries h slot).0 e) [
      | inl b ↦ elim ((p.entries h slot).0 b) [
        | inl (eh, es) ↦ inr (i, omega arith, omega arith, omega (arith, its, es), sym eh)
        | inr old ↦ inl old
      ]
      | inr (j, l, u, es, eh) ↦ inr (j, omega (arith, l), omega (arith, u), es, eh)
    ],
    λ a. elim a [
      | inl b ↦ (c.entries h slot).1 (inl ((p.entries h slot).1 (inr b)))
      | inr (j, l, u, es, eh) ↦ elim (ℕ_discrete i j) [
        | yes e ↦
            let same_s : get_or x.slot i 0 ≡ slot + 1 = ap (λ n. get_or x.slot n 0) e ∙ es in
            let same_h : get_or x.hash i 0 ≡ h = ap (λ n. get_or x.hash n 0) e ∙ eh in
            (c.entries h slot).1
              (inl ((p.entries h slot).1 (inl (sym same_h, omega (arith, its, same_s)))))
        | no n ↦
            let later : i + 1 ≤ j = ground (arith, l, n) in
            (c.entries h slot).1 (inr (j, later, omega (arith, u), es, eh))
      ]
    ],
  );
}

pub rehash-IsCopy :
    (k rounds i : ℕ) (x bigger : Index)
    → IsChained k bigger
    → bigger.used + rounds ≤ bigger.mask
    → IsCopy k rounds i x bigger (rehash rounds i x bigger)
unfolding rehash
rehash-IsCopy k zero i x bigger c room = record {
  chained = c;
  same_mask = refl;
  counted = omega arith;
  entries = λ h slot. (
    λ e. inl e,
    λ a. elim a [ inl e ↦ e | inr (j, l, u, es, eh) ↦ absurd (omega (arith, l, u)) ],
  );
}
rehash-IsCopy k (suc rounds) i x bigger c room =
    let s : ℕ = get_or x.slot i 0 in
    let h : ℕ = get_or x.hash i 0 in
    let onward : Index → Type 0 =
      λ b. IsCopy k (suc rounds) i x bigger (rehash rounds (i + 1) x b) in
    if_elim onward (s == 0) bigger (put bigger h s)
      (λ free.
        skip-IsCopy k rounds i x bigger (rehash rounds (i + 1) x bigger) ((==_iff s 0).0 free)
          (rehash-IsCopy k rounds (i + 1) x bigger c (omega arith)))
      (λ used.
        let its : s ≡ s - 1 + 1 = ground arith in
        let p : IsPut k bigger h (s - 1) (put bigger h s) =
          rw (ap (put bigger h) its) (put-IsPut k bigger h (s - 1) c (omega arith)) in
        filled-IsCopy k rounds i (s - 1) x bigger (put bigger h s)
          (rehash rounds (i + 1) x (put bigger h s)) its p
          (rehash-IsCopy k rounds (i + 1) x (put bigger h s) p.chained
            (omega (arith, p.one_more, p.same_mask))))
