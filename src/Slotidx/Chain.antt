-- ===== src/Slotidx/Chain.antt =====
-- Entries and the chains of buckets that lead to them.
use camex.Base.{
  ℕ, zero, suc, ◌+◌, ◌-◌, ◌≤◌, ◌<◌, ◌≡◌, ◌≢◌, refl, sym, ap, ◌∙◌, inl, inr, Bool, true, false, ◌&&◌,
  Option, none, some, length, get_or, set, ◌==◌, ==_iff, if◌then◌else◌, if_true, if_false, if_elim,
  bit_and, arith, get_or-set_self, get_or-set_ne, ℕ_discrete, yes, no, Bool-cases, ltb→lt,
  ltb_false→le,
}
use camex.Slotidx.{
  Index, Place, empty, there, full, next_bucket, place, store_at, improves, scan, find,
}

-- From bucket `i`, at most `rounds` buckets, none of them free, lead to the entry of `slot1`
-- under `h`.
pub data Chain (x : Index) (h slot1 : ℕ) : ℕ → ℕ → Type 0 where
  here :
      {rounds i : ℕ}
      → get_or x.slot i 0 ≡ slot1
      → get_or x.hash i 0 ≡ h
      → Chain x h slot1 (suc rounds) i
  next :
      {rounds i : ℕ}
      → get_or x.slot i 0 ≢ 0
      → Chain x h slot1 rounds (next_bucket x i)
      → Chain x h slot1 (suc rounds) i

-- The index holds `slot` under `h`, where a search finds it.
abbrev pub Holds : Index → ℕ → ℕ → Type 0
Holds x h slot = Chain x h (slot + 1) (x.mask + 1) (bit_and h x.mask)

-- A slot that is `slot` or lower.
abbrev pub AtMost : ℕ → Option ℕ → Type 0
AtMost slot o = (b : ℕ) × (o ≡ some b) × (b ≤ slot)

not_zero : (a : ℕ) → a ≢ 0 → (a == 0) ≡ false
not_zero a h = ground arith

improves-lower :
    (best : Option ℕ) (s slot : ℕ) → AtMost slot best → improves best s ≡ true → s ≤ slot
improves-lower none s slot (b, e, h) i = absurd (cc e)
improves-lower (some a) s slot (b, e, h) i =
    let same : a ≡ b = cc e in omega (arith, same, ltb→lt s a i)

AtMost-kept : (best : Option ℕ) (s : ℕ) → improves best s ≡ false → AtMost s best
AtMost-kept none s i = absurd (cc i)
AtMost-kept (some a) s i = (a, refl, ltb_false→le s a i)

-- A search never gives up a slot for a higher one.
scan-AtMost :
    (match : ℕ → Bool) (rounds : ℕ) (x : Index) (h i slot : ℕ) (best : Option ℕ)
    → AtMost slot best
    → AtMost slot (scan match rounds x h i best)
unfolding scan
scan-AtMost match zero x h i slot best b = b
scan-AtMost match (suc rounds) x h i slot best b =
    let s : ℕ = get_or x.slot i 0 - 1 in
    let hit : Bool = get_or x.hash i 0 == h && improves best s && match s in
    let best' : Option ℕ = if hit then some s else best in
    if_elim (AtMost slot) (get_or x.slot i 0 == 0) best
      (scan match rounds x h (next_bucket x i) best') (λ _. b)
      (λ _. scan-AtMost match rounds x h (next_bucket x i) slot best' (
        if_elim (AtMost slot) hit (some s) best
          (λ k. (s, refl, improves-lower best s slot b (ground arith))) (λ _. b)))

missed : {a b c : Bool} → a ≡ true → c ≡ true → (a && b && c) ≡ false → b ≡ false
missed {a} {b} {c} p q k = ground arith

scan-Chain :
    (match : ℕ → Bool) (rounds : ℕ) (x : Index) (h i slot : ℕ) (best : Option ℕ)
    → match slot ≡ true
    → Chain x h (slot + 1) rounds i
    → AtMost slot (scan match rounds x h i best)
unfolding scan
scan-Chain match zero x h i slot best m c = elim c [ ]
scan-Chain match (suc rounds) x h i slot best m (here e g) =
    let used : (get_or x.slot i 0 == 0) ≡ false =
      not_zero (get_or x.slot i 0) (λ z. absurd (omega (arith, e, z))) in
    let s : ℕ = get_or x.slot i 0 - 1 in
    let hit : Bool = get_or x.hash i 0 == h && improves best s && match s in
    let same : s ≡ slot = omega (arith, e) in
    let accepted : match s ≡ true = ap match same ∙ m in
    let its_hash : (get_or x.hash i 0 == h) ≡ true = (==_iff (get_or x.hash i 0) h).1 g in
    rw used (
      scan-AtMost match rounds x h (next_bucket x i) slot (if hit then some s else best) (
        if_elim (AtMost slot) hit (some s) best (λ _. (s, refl, omega (arith, same)))
          (λ k.
            let worse : improves best s ≡ false = missed its_hash accepted k in
            let kept : AtMost s best = AtMost-kept best s worse in
            (kept.0, kept.1, omega (arith, kept.2, same)))))
scan-Chain match (suc rounds) x h i slot best m (next u c) =
    rw (not_zero (get_or x.slot i 0) u) (scan-Chain match rounds x h (next_bucket x i) slot _ m c)

-- A slot that the index holds under a hash, and that the caller's match accepts, is found there, or
-- a lower one is.
pub find-Holds :
    (match : ℕ → Bool) (x : Index) (h slot : ℕ)
    → (x.mask == 0) ≡ false
    → Holds x h slot
    → match slot ≡ true
    → AtMost slot (find match x h)
unfolding find
find-Holds match x h slot table c m =
    rw table (scan-Chain match (x.mask + 1) x h (bit_and h x.mask) slot none m c)

-- Storing at a free bucket.
module _ (x : Index) (h slot1 j : ℕ) (positive : slot1 ≢ 0) where
  abbrev stored : Index
  stored = store_at x h slot1 (empty j)

  used-stored :
      (i : ℕ)
      → (j ≡ i → j < length x.slot)
      → get_or x.slot i 0 ≢ 0
      → get_or (set x.slot j slot1) i 0 ≢ 0
  used-stored i fits u = elim (ℕ_discrete j i) [
    | yes e ↦ λ z. positive (
        sym (get_or-set_self x.slot j slot1 0 (fits e))
        ∙ (ap (λ k. get_or (set x.slot j slot1) k 0) e ∙ z))
    | no n ↦ λ z. u (sym (get_or-set_ne x.slot j i slot1 0 n) ∙ z)
  ]

  -- The chains that were there before are still there.
  pub keeps-Chain :
      (h' slot' rounds i : ℕ)
      → j < length x.slot
      → get_or x.slot j 0 ≡ 0
      → slot' ≢ 0
      → Chain x h' slot' rounds i
      → Chain stored h' slot' rounds i
  keeps-Chain h' slot' zero i fits free p c = elim c [ ]
  keeps-Chain h' slot' (suc rounds) i fits free p (here e g) =
      let apart : j ≢ i = λ q. p (sym e ∙ (ap (λ k. get_or x.slot k 0) (sym q) ∙ free)) in
      here (get_or-set_ne x.slot j i slot1 0 apart ∙ e) (get_or-set_ne x.hash j i h 0 apart ∙ g)
  keeps-Chain h' slot' (suc rounds) i fits free p (next u c) =
      next (used-stored i (λ _. fits) u)
        (keeps-Chain h' slot' rounds (next_bucket x i) fits free p c)

-- Where a walk ends it puts the entry at the end of a chain.
abbrev InTable : Index → Type 0
InTable x =
    (length x.slot ≡ x.mask + 1)
    × (length x.hash ≡ x.mask + 1)
    × ((i : ℕ) → next_bucket x i ≤ x.mask)

pub subst_place : (P : Place → Type 0) {a b : Place} → a ≡ b → P a → P b
subst_place P e p = rw (← e) p

used-store_at :
    (x : Index) (h slot1 i : ℕ) (pl : Place)
    → slot1 ≢ 0
    → i < length x.slot
    → get_or x.slot i 0 ≢ 0
    → get_or (store_at x h slot1 pl).slot i 0 ≢ 0
used-store_at x h slot1 i there p fits u = u
used-store_at x h slot1 i full p fits u = u
used-store_at x h slot1 i (empty j) p fits u = used-stored x h slot1 j p i (λ e. omega (arith, e)) u

next-store_at :
    (x : Index) (h slot1 i : ℕ) (pl : Place)
    → next_bucket x i ≡ next_bucket (store_at x h slot1 pl) i
next-store_at x h slot1 i there = refl
next-store_at x h slot1 i full = refl
next-store_at x h slot1 i (empty j) = refl

pub place-Chain :
    (rounds : ℕ) (x : Index) (h slot1 i : ℕ)
    → slot1 ≢ 0
    → InTable x
    → i ≤ x.mask
    → place rounds x h slot1 i ≢ full
    → Chain (store_at x h slot1 (place rounds x h slot1 i)) h slot1 rounds i
unfolding place
place-Chain zero x h slot1 i p t inside room = absurd (room refl)
place-Chain (suc rounds) x h slot1 i p t inside room =
    let s : ℕ = get_or x.slot i 0 in
    let walk : Place = place rounds x h slot1 (next_bucket x i) in
    let mine : Bool = s == slot1 && get_or x.hash i 0 == h in
    let new : Place → Type 0 = λ pl. Chain (store_at x h slot1 pl) h slot1 (suc rounds) i in
    elim (Bool-cases (s == 0)) [
      | inl free ↦
          subst_place new (sym (if_true (s == 0) (empty i) (if mine then there else walk) free)) (
            here (get_or-set_self x.slot i slot1 0 (omega (arith, t.0)))
              (get_or-set_self x.hash i h 0 (omega (arith, t.1))))
      | inr used ↦ elim (Bool-cases mine) [
        | inl its ↦
            subst_place new
              (sym (
                if_false (s == 0) (empty i) (if mine then there else walk) used
                ∙ if_true mine there walk its))
              (here (ground arith) (ground arith))
        | inr other ↦
            let onward : place (suc rounds) x h slot1 i ≡ walk =
              if_false (s == 0) (empty i) (if mine then there else walk) used
              ∙ if_false mine there walk other in
            let rest =
              place-Chain rounds x h slot1 (next_bucket x i) p t (t.2 i) (λ q. room (onward ∙ q)) in
            subst_place new (sym onward) (
              next (used-store_at x h slot1 i walk p (omega (arith, t.0)) (ground arith))
                (rw (← next-store_at x h slot1 i walk) rest))
      ]
    ]
