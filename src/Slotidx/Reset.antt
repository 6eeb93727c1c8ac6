-- ===== src/Slotidx/Reset.antt =====
-- The size that `slotidx_reset` chooses, and the empty table it leaves.
use camex.Base.{
  ℕ, zero, suc, ◌+◌, ◌-◌, ◌*◌, ◌^◌, ◌≤◌, ◌<◌, ◌≡◌, refl, sym, ap, ◌∙◌, ◌⊎◌, inl, inr, Bool, not,
  ◌&&◌, some, ltb, ◌==◌, if_true, if_false, u32, ◌<<◌, arith, if_elim, Bool-cases, dec_lt, yes, no,
}
use native.Mathlib.Nat.{pow-succ', pow-le-pow_right}
use camex.Slotidx.{Index, min_buckets, grow, buckets_for, alloc_table, reset}
use camex.Slotidx.Growth.{fresh_table}

-- A power of two that is enough for the entries to fill half of it at most, and no more than that.
pub record IsSize (start entries n : ℕ) : Type 0 where
  pub exponent : ℕ
  pub power : n ≡ 2 ^ exponent
  pub least : start ≤ n
  pub enough : entries * 2 ≤ n
  pub tight : (n ≡ start) ⊎ (n < entries * 4)

doubled : (k start : ℕ) → start ≡ 2 ^ k → start < 2 ^ 30 → start * 2 ≤ 2 ^ 30
doubled k start p below = elim (dec_lt k 30) [
  | yes l ↦ omega (
    arith,
    p,
    pow-succ' 2 k,
    pow-le-pow_right {n = 2} (omega arith) {i = suc k} {j = 30} (omega arith),
  )
  | no n ↦
      absurd
        (omega (arith, p, pow-le-pow_right {n = 2} (omega arith) {i = 30} {j = k} (omega arith)))
]

grow-IsSize :
    (rounds k start entries : ℕ)
    → start ≡ 2 ^ k
    → rounds + k ≡ 34
    → entries ≤ 2 ^ 29
    → start ≤ 2 ^ 30
    → IsSize start entries (grow rounds start entries)
unfolding grow
grow-IsSize zero k start entries p e few small =
    let same : k ≡ 34 = omega (arith, e) in
    let big : 2 ^ k ≡ 17179869184 = ap (λ (n : ℕ). 2 ^ n) same in absurd (omega (arith, p, big))
grow-IsSize (suc rounds) k start entries p e few small =
    let next : ℕ = grow rounds (u32 (start << 1)) entries in
    let more : Bool = ltb start (entries * 2) && ltb start 1073741824 in
    if_elim (IsSize start entries) more next start
      (λ m.
        let below : start < 1073741824 = ground arith in
        let short : start < entries * 2 = ground arith in
        let twice : u32 (start << 1) ≡ start * 2 = omega arith in
        let s : IsSize (u32 (start << 1)) entries next =
          grow-IsSize rounds (suc k) (u32 (start << 1)) entries
            (omega (arith, twice, p, pow-succ' 2 k)) (omega (arith, e)) few
            (omega (arith, twice, doubled k start p below)) in
        record {
          exponent = s.exponent;
          power = s.power;
          least = omega (arith, s.least, twice);
          enough = s.enough;
          tight = inr (elim s.tight [ inl t ↦ omega (arith, t, twice, short) | inr t ↦ t ]);
        })
      (λ m. record {
        exponent = k;
        power = p;
        least = omega arith;
        enough = ground arith;
        tight = inl refl;
      })

-- For at most 2^29 entries the loop of `buckets_for` ends with a power of two of buckets, at least
-- 16, that the entries fill at most half of, and unless 16 are enough they fill more than a quarter.
pub buckets_for-IsSize :
    (entries : ℕ) → entries ≤ 2 ^ 29 → IsSize min_buckets entries (buckets_for entries)
unfolding buckets_for
buckets_for-IsSize entries few = grow-IsSize 30 4 min_buckets entries refl refl few (omega arith)

-- A reset that succeeds leaves no entry and the chosen size.
pub reset-fresh :
    (memory : Bool) (x y : Index) (entries : ℕ)
    → reset memory x entries ≡ some y
    → y ≡ fresh_table (buckets_for entries)
unfolding reset alloc_table
reset-fresh memory x y entries e =
    let n : ℕ = buckets_for entries in
    let same : Bool = not (x.mask == 0) && x.mask + 1 == n in
    elim (Bool-cases same) [
      | inl s ↦ let mask : x.mask ≡ n - 1 = ground arith in cc (sym (if_true same _ _ s) ∙ e, mask)
      | inr s ↦ elim (Bool-cases memory) [
        | inl m ↦ cc (sym (if_true memory _ _ m) ∙ (sym (if_false same _ _ s) ∙ e))
        | inr m ↦ absurd (cc (sym (if_false memory _ _ m) ∙ (sym (if_false same _ _ s) ∙ e)))
      ]
    ]
