-- ===== src/Session/Replay/Track.antt =====
-- The window as a set: it tracks which counters were seen, exactly, as far back as its ring
-- reaches.
use camex.Base.{
  ℕ, ◌+◌, ◌-◌, ◌/◌, ◌%◌, ◌≤◌, ◌<◌, ◌≡◌, ◌≢◌, refl, sym, ap, ◌∙◌, Bool, true, false, not, ◌||◌, ◌&&◌,
  inl, inr, List, length, get_or, replicate, arith, ltb, leb, ◌==◌, if◌then◌else◌, Bool-cases,
  leb→le, leb_false→lt, ltb→lt, ==_iff, ==_refl, length-set, get_or-replicate, test_bit-zero,
  test_bit, ℕ_discrete, dec_lt,
}
use camex.Session.Replay.{
  Window, words, word_bits, fresh, reject_after_msgs, replay_check, clear, move_to, mark,
  replay_record,
}
use camex.Session.Replay.Digits.{
  digit, length-clear, clear-hit, clear-miss, check-digit, digit-mark_self, digit-mark_ne,
}

abbrev pub to_nat : Bool → ℕ
to_nat true = 1
to_nat false = 0

-- `n` lies behind the ring.
abbrev pub is_stale : Window → ℕ → Bool
is_stale r n = r.any && not (ltb r.max n) && leb words (r.max / word_bits - n / word_bits)

pub record Tracks (r : Window) (seen : ℕ → Bool) : Type 0 where
  pub size : length r.bits ≡ words
  pub none_yet : (n : ℕ) → r.any ≡ false → seen n ≡ false
  pub top : (n : ℕ) → seen n ≡ true → n ≤ r.max
  pub digits :
      (n : ℕ)
      → r.any ≡ true
      → n / word_bits ≤ r.max / word_bits
      → r.max / word_bits < n / word_bits + words
      → digit r.bits n ≡ to_nat (seen n)

pub fresh-Tracks : Tracks fresh (λ n. false)
fresh-Tracks = record {
  size = refl;
  none_yet = λ n h. refl;
  top = λ n h. absurd (cc h);
  digits = λ n h. absurd (cc h);
}

-- The check accepts exactly the counters below the limit that are not behind the ring and were
-- not seen.
pub replay_check-eq :
    {r : Window} {seen : ℕ → Bool} (n : ℕ)
    → Tracks r seen
    → replay_check r n ≡ (ltb n reject_after_msgs && not (is_stale r n) && not (seen n))
unfolding replay_check
replay_check-eq {r} {seen} n t =
    ground (arith, check-digit r.bits n, t.none_yet n, t.top n, t.digits n)

-- Adding one counter to a set.
abbrev pub insert : ℕ → (ℕ → Bool) → ℕ → Bool
insert n seen m = n == m || seen m

all_clear : (i k : ℕ) → test_bit (get_or (replicate words 0) i 0) k ≡ 0
all_clear i k = ap (λ w. test_bit w k) (get_or-replicate words i 0) ∙ test_bit-zero k

unseen : {b : Bool} → b ≢ true → b ≡ false
unseen {b = true} h = absurd (h refl)
unseen {b = false} h = refl

module _ {r : Window} {seen : ℕ → Bool} (t : Tracks r seen) (n : ℕ) where
  -- Above the old maximum nothing was seen.
  above : (m : ℕ) → r.max < m → seen m ≡ false
  above m h = unseen (λ s. absurd (omega (arith, t.top m s)))

  -- The ring after the window has moved up to `n`.
  abbrev moved_bits : List ℕ
  moved_bits =
      if leb words (n / word_bits - r.max / word_bits)
      then replicate words 0
      else clear (n / word_bits - r.max / word_bits) (r.max / word_bits + 1) r.bits

  moved_digit :
      (m : ℕ)
      → r.any ≡ true
      → r.max < n
      → m / word_bits ≤ n / word_bits
      → n / word_bits < m / word_bits + words
      → digit moved_bits m ≡ to_nat (seen m)
  moved_digit m used new low high =
      let cur = r.max / word_bits in
      let gap = n / word_bits - cur in
      elim (Bool-cases (leb words gap)) [
        | inl far ↦
            rw (far, above m (omega (arith, leb→le words gap far)))
              (all_clear (m / word_bits % words) (m % word_bits))
        | inr near ↦ elim (dec_lt cur (m / word_bits)) [
          | yes h ↦
              rw
                (
                  near,
                  above m (omega arith),
                  clear-hit gap (cur + 1) r.bits (m / word_bits) t.size (omega arith) (omega arith),
                )
                (test_bit-zero (m % word_bits))
          | no h ↦
              rw
                (
                  near,
                  clear-miss gap (cur + 1) r.bits (m / word_bits) (omega arith)
                      (omega (arith, leb_false→lt words gap near)),
                )
                (t.digits m used (omega arith) (omega arith))
        ]
      ]

  length-moved : length moved_bits ≡ words
  length-moved = ground (
    arith,
    length-clear (n / word_bits - r.max / word_bits) (r.max / word_bits + 1) r.bits,
    t.size,
  )

  stays : r.any ≡ true → ltb r.max n ≡ false → move_to r n ≡ r
  unfolding move_to
  stays used old = ground arith

  -- Moving up to `n` changes the maximum, not the set.
  move_to-Tracks : Tracks (move_to r n) seen
  unfolding move_to
  move_to-Tracks = elim (Bool-cases r.any) [
    | inr empty ↦
        rw (empty, move_to)
          (record {
            size = refl;
            none_yet = λ m h. t.none_yet m empty;
            top = λ m h. absurd (cc (t.none_yet m empty));
            digits = λ m _ _ _.
                rw (t.none_yet m empty) (all_clear (m / word_bits % words) (m % word_bits));
          })
    | inl used ↦ elim (Bool-cases (ltb r.max n)) [
      | inl new ↦
          rw (used, new, move_to)
            (record {
              size = length-moved;
              none_yet = λ m h. absurd (cc h);
              top = λ m h. omega (arith, t.top m h, ltb→lt r.max n new);
              digits = λ m _ low high. moved_digit m used (ltb→lt r.max n new) low high;
            })
      | inr old ↦ rw (stays used old) t
    ]
  ]

-- What the window is like where the code sets a digit: `n` lies inside the ring.
record Holds (r : Window) (n : ℕ) : Type 0 where
  used : r.any ≡ true
  reached : n ≤ r.max
  inside : r.max / word_bits < n / word_bits + words

insert-ne : (n m : ℕ) (seen : ℕ → Bool) → n ≢ m → insert n seen m ≡ seen m
insert-ne n m seen h = ground arith

div_mono : (a b : ℕ) → a ≤ b → a / word_bits ≤ b / word_bits
div_mono a b h = omega arith

mark-Tracks :
    {r : Window} {seen : ℕ → Bool} (n : ℕ)
    → Holds r n
    → Tracks r seen
    → Tracks (mark r n) (insert n seen)
unfolding mark
mark-Tracks {r} {seen} n h t = record {
  size = length-set r.bits (n / word_bits % words) _ ∙ t.size;
  none_yet = λ m e. absurd (cc (h.used));
  top = λ m e. elim (Bool-cases (n == m)) [
    | inl same ↦ omega (arith, h.reached, (==_iff n m).0 same)
    | inr other ↦ t.top m (rw other at e)
  ];
  digits = λ m u low high. elim (ℕ_discrete n m) [
    | yes e ↦ rw (sym e) (rw (==_refl n) (digit-mark_self r n t.size))
    | no e ↦
        digit-mark_ne r n m t.size e (omega (arith, div_mono n r.max, h.reached))
          (omega (arith, h.inside))
        ∙ t.digits m h.used low high
        ∙ ap to_nat (sym (insert-ne n m seen e))
  ];
}

check-Holds : (r : Window) (n : ℕ) → replay_check r n ≡ true → Holds (move_to r n) n
unfolding replay_check move_to
check-Holds r n ok = ground arith

-- A counter that the check accepts is recorded, and nothing else is forgotten or added.
pub replay_record-Tracks :
    {r : Window} {seen : ℕ → Bool} (n : ℕ)
    → Tracks r seen
    → replay_check r n ≡ true
    → Tracks (replay_record r n) (insert n seen)
unfolding replay_record
replay_record-Tracks {r} n t ok = mark-Tracks n (check-Holds r n ok) (move_to-Tracks t n)
