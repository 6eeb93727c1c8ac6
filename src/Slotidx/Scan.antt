-- ===== src/Slotidx/Scan.antt =====
-- Lookups: through an index that covers the keys of its owner, and by a scan of the owner's table.
use camex.Base.{
  ℕ, zero, suc, ◌+◌, ◌≤◌, ◌<◌, ◌≡◌, refl, sym, ap, ◌∙◌, inl, inr, Bool, true, false, Option, none,
  some, if◌then◌else◌, if_true, if_false, arith, Bool-cases, ℕ_discrete, yes, no,
}
use camex.Slotidx.{Index, find}
use camex.Slotidx.Find.{IsLeast, Matching, find-IsLeast}
use camex.Slotidx.Cover.{Keys, IsCover}

IsLeast-unique : (P : ℕ → Type 0) (a b : Option ℕ) → IsLeast P a → IsLeast P b → a ≡ b
IsLeast-unique P none none p q = refl
IsLeast-unique P none (some b) p q = absurd (p b q.0)
IsLeast-unique P (some a) none p q = absurd (q a p.0)
IsLeast-unique P (some a) (some b) p q = ap some (omega (arith, p.1 b q.0, q.1 a p.0))

-- `for (i = 0; i < n; ++i) if (match(i, key)) return i`, from slot `i` on.
unfoldable pub first_match : (ℕ → Bool) → ℕ → ℕ → Option ℕ
first_match match zero i = none
first_match match (suc rounds) i =
    let later = first_match match rounds (i + 1) in if match i then some i else later

later : (match : ℕ → Bool) (i s : ℕ) → i ≤ s → match i ≡ false → match s ≡ true → i + 1 ≤ s
later match i s l m k = elim (ℕ_discrete i s) [
  | yes e ↦ absurd (cc (sym m ∙ (ap match e ∙ k)))
  | no n ↦ ground (arith, l, n)
]

-- A range that starts with a slot that does not match.
skipped :
    (match : ℕ → Bool) (rounds i : ℕ) (o : Option ℕ)
    → match i ≡ false
    → IsLeast (λ s. (i + 1 ≤ s) × (s < i + 1 + rounds) × (match s ≡ true)) o
    → IsLeast (λ s. (i ≤ s) × (s < i + suc rounds) × (match s ≡ true)) o
skipped match rounds i none m p = λ s (l, u, k). p s (later match i s l m k, omega (arith, u), k)
skipped match rounds i (some b) m p = (
  (omega (arith, p.0.0), omega (arith, p.0.1), p.0.2),
  λ s (l, u, k). p.1 s (later match i s l m k, omega (arith, u), k),
)

first_match-IsLeast :
    (match : ℕ → Bool) (rounds i : ℕ)
    → IsLeast (λ s. (i ≤ s) × (s < i + rounds) × (match s ≡ true)) (first_match match rounds i)
unfolding first_match
first_match-IsLeast match zero i = λ s (l, u, m). absurd (omega (arith, l, u))
first_match-IsLeast match (suc rounds) i = elim (Bool-cases (match i)) [
  | inl m ↦
      rw (if_true (match i) (some i) (first_match match rounds (i + 1)) m)
        ((omega arith, omega arith, m), λ s p. p.0)
  | inr m ↦ rw (if_false (match i) (some i) (first_match match rounds (i + 1)) m) (
      skipped match rounds i (first_match match rounds (i + 1)) m
        (first_match-IsLeast match rounds (i + 1)))
]

everywhere :
    (match : ℕ → Bool) (n : ℕ) (o : Option ℕ)
    → ((slot : ℕ) → match slot ≡ true → slot < n)
    → IsLeast (λ s. (0 ≤ s) × (s < 0 + n) × (match s ≡ true)) o
    → IsLeast (λ s. match s ≡ true) o
everywhere match n none hit p = λ s m. p s (omega arith, omega (arith, hit s m), m)
everywhere match n (some b) hit p = (p.0.2, λ s m. p.1 s (omega arith, omega (arith, hit s m), m))

-- A scan of `n` slots, when only those match.
pub first_match-all :
    (match : ℕ → Bool) (n : ℕ)
    → ((slot : ℕ) → match slot ≡ true → slot < n)
    → IsLeast (λ s. match s ≡ true) (first_match match n 0)
first_match-all match n hit =
    everywhere match n (first_match match n 0) hit (first_match-IsLeast match n 0)

-- Where the index covers every slot that matches under the hash of the key, and a match is one of the
-- table's slots, the lookup through the index gives what a scan of the table gives.
pub find-first_match :
    (keys : Keys) (match : ℕ → Bool) (x : Index) (h n : ℕ)
    → IsCover keys x
    → ((slot : ℕ) → match slot ≡ true → (slot < n) × keys slot h)
    → find match x h ≡ first_match match n 0
find-first_match keys match x h n c hit =
    IsLeast-unique (λ s. match s ≡ true) (find match x h) (first_match match n 0)
      (only (find match x h) (find-IsLeast match x h c.index))
      (first_match-all match n (λ slot m. (hit slot m).0))
  where
    only : (o : Option ℕ) → IsLeast (Matching match x h) o → IsLeast (λ s. match s ≡ true) o
    only none p = λ s m. p s (c.covers s h (hit s m).1, m)
    only (some b) p = (p.0.1, λ s m. p.1 s (c.covers s h (hit s m).1, m))
