-- ===== src/Slotidx/Find.antt =====
-- `slotidx_find` as a question about the set of entries.
use camex.Base.{
  ℕ, zero, suc, ◌+◌, ◌-◌, ◌≤◌, ◌≡◌, inl, inr, Bool, true, false, ◌&&◌, Option, none, some, get_or,
  ◌==◌, if◌then◌else◌, if_elim, bit_and, u32, arith,
}
use camex.Slotidx.{Index, next_bucket, improves, scan, find}
use camex.Slotidx.Chain.{AtMost, find-Holds}
use camex.Slotidx.Stored.{IsTable, masked-le}
use camex.Slotidx.Entries.{Entry, IsChained}
use camex.Slotidx.Insert.{IsIndex}

-- The least of the numbers that `P` holds of, or `none` when there is none.
abbrev pub IsLeast : (ℕ → Type 0) → Option ℕ → Type 0
IsLeast P none = (s : ℕ) → ¬ P s
IsLeast P (some b) = P b × ((s : ℕ) → P s → b ≤ s)

-- The slots under `h` that the caller's match accepts.
abbrev pub Matching : (ℕ → Bool) → Index → ℕ → ℕ → Type 0
Matching match x h slot = Entry x h slot × (match slot ≡ true)

abbrev AllOf : (ℕ → Type 0) → Option ℕ → Type 0
AllOf P none = Unit
AllOf P (some b) = P b

scan-AllOf :
    (match : ℕ → Bool) (rounds k : ℕ) (x : Index) (h i : ℕ) (best : Option ℕ)
    → IsTable k x
    → i ≤ x.mask
    → AllOf (Matching match x h) best
    → AllOf (Matching match x h) (scan match rounds x h i best)
unfolding scan
scan-AllOf match zero k x h i best t inside b = b
scan-AllOf match (suc rounds) k x h i best t inside b =
    let s : ℕ = get_or x.slot i 0 - 1 in
    let hit : Bool = get_or x.hash i 0 == h && improves best s && match s in
    let best' : Option ℕ = if hit then some s else best in
    let later : Option ℕ = scan match rounds x h (next_bucket x i) best' in
    if_elim (AllOf (Matching match x h)) (get_or x.slot i 0 == 0) best later (λ _. b)
      (λ used.
        scan-AllOf match rounds k x h (next_bucket x i) best' t (masked-le k x (u32 (i + 1)) t) (
          if_elim (AllOf (Matching match x h)) hit (some s) best
            (λ its. ((i, inside, ground arith, ground arith), ground arith)) (λ _. b)))

AllOf-IsLeast :
    (P : ℕ → Type 0) (o : Option ℕ) → AllOf P o → ((s : ℕ) → P s → AtMost s o) → IsLeast P o
AllOf-IsLeast P none a m = λ s p. let (b, e, l) = m s p in absurd (cc e)
AllOf-IsLeast P (some b) a m =
    (a, λ s p. let (b', e, l) = m s p in let same : b ≡ b' = cc e in omega (arith, same, l))

table-IsLeast :
    (match : ℕ → Bool) (k : ℕ) (x : Index) (h : ℕ)
    → IsChained k x
    → IsLeast (Matching match x h) (find match x h)
unfolding find
table-IsLeast match k x h c =
    let table : (x.mask == 0) ≡ false = ground (arith, c.positive) in
    AllOf-IsLeast (Matching match x h) (find match x h)
      (if_elim (AllOf (Matching match x h)) (x.mask == 0) none
        (scan match (x.mask + 1) x h (bit_and h x.mask) none) (λ _. tt)
        (λ _.
          scan-AllOf match (x.mask + 1) k x h (bit_and h x.mask) none c.table
            (masked-le k x h c.table) tt))
      (λ s (e, m). find-Holds match x h s table (c.held h s e) m)

-- In an index `slotidx_find` gives the least of the slots that are entered under the hash and that
-- the caller's match accepts, and -1 when there is none.
pub find-IsLeast :
    (match : ℕ → Bool) (x : Index) (h : ℕ)
    → IsIndex x
    → IsLeast (Matching match x h) (find match x h)
unfolding find
find-IsLeast match x h (inl e) = rw e (λ s ((j, inside, its, g), m). absurd (omega (arith, its)))
find-IsLeast match x h (inr (k, half)) = table-IsLeast match k x h half.chained
