-- ===== src/Slotidx/Room.antt =====
-- How many buckets of a table are taken, which `used` counts, and the free bucket of a table that is
-- not full.
use camex.Base.{
  ℕ, zero, suc, ◌+◌, ◌≤◌, ◌<◌, ◌≡◌, ◌≢◌, refl, ap, List, [], ◌∷◌, length, get_or, set, replicate,
  arith,
}

-- The taken buckets.
abbrev pub occupied : List ℕ → ℕ
occupied [] = 0
occupied (zero ∷ slots) = occupied slots
occupied (suc s ∷ slots) = suc (occupied slots)

pub occupied-le : (slots : List ℕ) → occupied slots ≤ length slots
occupied-le [] = omega arith
occupied-le (zero ∷ slots) = omega (arith, occupied-le slots)
occupied-le (suc s ∷ slots) = omega (arith, occupied-le slots)

pub occupied-replicate : (n : ℕ) → occupied (replicate n 0) ≡ 0
occupied-replicate zero = refl
occupied-replicate (suc n) = occupied-replicate n

pub free_bucket :
    (slots : List ℕ)
    → occupied slots < length slots
    → (j : ℕ) × (j < length slots) × (get_or slots j 0 ≡ 0)
free_bucket [] h = absurd (omega arith)
free_bucket (zero ∷ slots) h = (0, omega arith, refl)
free_bucket (suc s ∷ slots) h =
    let rest = free_bucket slots (omega arith) in (suc rest.0, omega (arith, rest.1), rest.2)

pub occupied-set :
    (slots : List ℕ) (j v : ℕ)
    → j < length slots
    → get_or slots j 0 ≡ 0
    → v ≢ 0
    → occupied (set slots j v) ≡ suc (occupied slots)
occupied-set [] j v h free p = absurd (omega arith)
occupied-set (zero ∷ slots) zero zero h free p = absurd (p refl)
occupied-set (zero ∷ slots) zero (suc v) h free p = refl
occupied-set (suc s ∷ slots) zero v h free p = absurd (omega (arith, free))
occupied-set (zero ∷ slots) (suc j) v h free p = occupied-set slots j v (omega arith) free p
occupied-set (suc s ∷ slots) (suc j) v h free p =
    omega (arith, occupied-set slots j v (omega arith) free p)

abbrev pub taken_at : ℕ → ℕ
taken_at zero = 0
taken_at (suc s) = 1

-- The taken ones of `rounds` buckets from bucket `i` on.
abbrev pub taken : ℕ → ℕ → List ℕ → ℕ
taken zero i slots = 0
taken (suc rounds) i slots = taken_at (get_or slots i 0) + taken rounds (i + 1) slots

taken-cons :
    (rounds i s : ℕ) (slots : List ℕ) → taken rounds (suc i) (s ∷ slots) ≡ taken rounds i slots
taken-cons zero i s slots = refl
taken-cons (suc rounds) i s slots =
    let e : suc i + 1 ≡ suc (i + 1) = omega arith in
    omega (arith, taken-cons rounds (i + 1) s slots, ap (λ n. taken rounds n (s ∷ slots)) e)

pub taken-occupied : (slots : List ℕ) → taken (length slots) 0 slots ≡ occupied slots
taken-occupied [] = refl
taken-occupied (zero ∷ slots) =
    omega (arith, taken-cons (length slots) 0 0 slots, taken-occupied slots)
taken-occupied (suc s ∷ slots) =
    omega (arith, taken-cons (length slots) 0 (suc s) slots, taken-occupied slots)

pub occupied-clear :
    (slots : List ℕ) (j : ℕ)
    → get_or slots j 0 ≢ 0
    → suc (occupied (set slots j 0)) ≡ occupied slots
occupied-clear [] j p = absurd (p refl)
occupied-clear (zero ∷ slots) zero p = absurd (p refl)
occupied-clear (suc s ∷ slots) zero p = refl
occupied-clear (zero ∷ slots) (suc j) p = occupied-clear slots j p
occupied-clear (suc s ∷ slots) (suc j) p = omega (arith, occupied-clear slots j p)

pub occupied-over :
    (slots : List ℕ) (j v : ℕ)
    → get_or slots j 0 ≢ 0
    → v ≢ 0
    → occupied (set slots j v) ≡ occupied slots
occupied-over [] j v p q = refl
occupied-over (zero ∷ slots) zero v p q = absurd (p refl)
occupied-over (suc s ∷ slots) zero zero p q = absurd (q refl)
occupied-over (suc s ∷ slots) zero (suc v) p q = refl
occupied-over (zero ∷ slots) (suc j) v p q = occupied-over slots j v p q
occupied-over (suc s ∷ slots) (suc j) v p q = ap suc (occupied-over slots j v p q)
