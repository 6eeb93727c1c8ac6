-- ===== src/Net/Recv/Fill.antt =====
-- The loop over `read`: no byte is lost, doubled or moved, and the rounds are enough.
use camex.Base.{
  ℕ, zero, suc, ◌+◌, ◌-◌, ◌≤◌, ◌<◌, ◌≡◌, refl, ap, ◌∙◌, true, false, List, ◌++◌, length, take, drop,
  ltb, arith, append_assoc, length-append, length-take, length-drop, take-append_length, Bool-cases,
  ltb→lt, ltb_false→le, ◌≢◌, ◌⊎◌, inl, inr,
}
use camex.Net.Stream.{Stream, ReadResult, got, again, closed, failed}
use camex.Net.Recv.{LoopEnd, filled, waits, broke, stalled, fill, write_at}

pub length-write_at :
    (buf : List ℕ) (at : ℕ) (xs : List ℕ)
    → at + length xs ≤ length buf
    → length (write_at buf at xs) ≡ length buf
length-write_at buf at xs h = omega (
  arith,
  length-append (take at buf) (xs ++ drop (at + length xs) buf),
  length-append xs (drop (at + length xs) buf),
  length-take at buf,
  length-drop (at + length xs) buf,
)

pub take-write_at :
    (buf : List ℕ) (at : ℕ) (xs : List ℕ)
    → at + length xs ≤ length buf
    → take (at + length xs) (write_at buf at xs) ≡ take at buf ++ xs
take-write_at buf at xs h = rw (← append_assoc) (
    take-append_length (at + length xs) (take at buf ++ xs) (drop (at + length xs) buf)
      (omega (arith, length-append (take at buf) xs, length-take at buf)))

module _ (os : Stream) where
  -- What `fill` leaves: the bytes in front of `have`, followed by those still to come, are what
  -- they were.
  pub record Filled (buf : List ℕ) (have target : ℕ) (s : os.State)
      (r : LoopEnd × List ℕ × ℕ × os.State) : Type 0 where
    pub same_length : length r.1 ≡ length buf
    pub within : r.2 ≤ target
    pub all_bytes : take r.2 r.1 ++ os.coming r.3 ≡ take have buf ++ os.coming s
    pub complete : r.0 ≡ filled → r.2 ≡ target
    pub unfinished : r.0 ≡ waits → r.2 < target
    pub never_stalls : r.0 ≢ stalled
    pub ended : r.0 ≡ broke → os.gone r.3 ≡ true

  stop :
      (buf : List ℕ) (have target : ℕ) (s : os.State)
      → have ≤ target
      → target ≤ have
      → Filled buf have target s (filled, buf, have, s)
  stop buf have target s h g = record {
    same_length = refl;
    within = h;
    all_bytes = refl;
    complete = λ _. omega arith;
    unfinished = λ k. absurd (cc k);
    never_stalls = λ k. cc k;
    ended = λ k. absurd (cc k);
  }

  -- What a `read` returned, with the equation for the state after it.
  abbrev Returned : ℕ → os.State → ReadResult → Type 0
  Returned n s r = ((os.read n s).0 ≡ r) × (os.read n s ≡ (r, (os.read n s).1))

  read-cases :
      (n : ℕ) (s : os.State)
      → ((xs : List ℕ) × Returned n s (got xs))
        ⊎ (Returned n s again
            ⊎ ((os.gone (os.read n s).1 ≡ true) × (Returned n s closed ⊎ Returned n s failed)))
  read-cases n s = go (os.read n s).0 refl
    where
      go :
          (r : ReadResult)
          → (os.read n s).0 ≡ r
          → ((xs : List ℕ) × Returned n s (got xs))
            ⊎ (Returned n s again
                ⊎ ((os.gone (os.read n s).1 ≡ true) × (Returned n s closed ⊎ Returned n s failed)))
      go (got xs) e = inl (xs, (e, ap (λ (r : ReadResult). (r, (os.read n s).1)) e))
      go again e = inr (inl (e, ap (λ (r : ReadResult). (r, (os.read n s).1)) e))
      go closed e = inr (
          inr (
            os.closed_gone n s (os.read n s).1 (ap (λ (r : ReadResult). (r, (os.read n s).1)) e),
            inl (e, ap (λ (r : ReadResult). (r, (os.read n s).1)) e),
          ))
      go failed e = inr (
          inr (
            os.failed_gone n s (os.read n s).1 (ap (λ (r : ReadResult). (r, (os.read n s).1)) e),
            inr (e, ap (λ (r : ReadResult). (r, (os.read n s).1)) e),
          ))

  -- One successful `read`, and then the rest of the loop.
  resume :
      (buf : List ℕ) (have target : ℕ) (s s' : os.State) (xs : List ℕ)
      → have + length xs ≤ target
      → os.coming s ≡ xs ++ os.coming s'
      → have + length xs ≤ length buf
      → (r : LoopEnd × List ℕ × ℕ × os.State)
      → Filled (write_at buf have xs) (have + length xs) target s' r
      → Filled buf have target s r
  resume buf have target s s' xs room e fits r f = record {
    same_length = f.same_length ∙ length-write_at buf have xs fits;
    within = f.within;
    all_bytes =
        f.all_bytes
        ∙ rw (take-write_at buf have xs fits, e) (append_assoc (take have buf) xs (os.coming s'));
    complete = f.complete;
    unfinished = f.unfinished;
    never_stalls = f.never_stalls;
    ended = f.ended;
  }

  ends :
      (buf : List ℕ) (have target : ℕ) (s s' : os.State)
      → have ≤ target
      → os.gone s' ≡ true
      → os.coming s' ≡ os.coming s
      → Filled buf have target s (broke, buf, have, s')
  ends buf have target s s' h g e = record {
    same_length = refl;
    within = h;
    all_bytes = rw e refl;
    complete = λ k. absurd (cc k);
    unfinished = λ k. absurd (cc k);
    never_stalls = λ k. cc k;
    ended = λ _. g;
  }

  pub fill-Filled :
      (rounds : ℕ) (buf : List ℕ) (have target : ℕ) (s : os.State)
      → target ≤ length buf
      → have ≤ target
      → target ≤ have + rounds
      → Filled buf have target s (fill os rounds buf have target s)
  unfolding fill
  fill-Filled zero buf have target s fits h enough =
      let full : ltb have target ≡ false = ground arith in
      rw full (stop buf have target s h (omega arith))
  fill-Filled (suc rounds) buf have target s fits h enough = elim (Bool-cases (ltb have target)) [
    | inr full ↦ rw full (stop buf have target s h (omega (arith, ltb_false→le have target full)))
    | inl more ↦
        let room : have < target = ltb→lt have target more in
        let s' : os.State = (os.read (target - have) s).1 in
        elim (read-cases (target - have) s) [
          | inl (xs, (e, e')) ↦
              let g = os.got_some (target - have) s s' xs (omega arith) e' in
              let fits' : have + length xs ≤ length buf = omega (arith, g.1) in
              rw (more, e)
                (resume buf have target s s' xs (omega (arith, g.1)) g.2 fits'
                  (fill os rounds (write_at buf have xs) (have + length xs) target s')
                  (fill-Filled rounds (write_at buf have xs) (have + length xs) target s'
                    (omega (arith, length-write_at buf have xs fits')) (omega (arith, g.1))
                    (omega (arith, g.0))))
          | inr (inl (e, e')) ↦
              rw (more, e)
                (record {
                  same_length = refl;
                  within = h;
                  all_bytes = rw (os.again_keeps (target - have) s s' e') refl;
                  complete = λ k. absurd (cc k);
                  unfinished = λ _. room;
                  never_stalls = λ k. cc k;
                  ended = λ k. absurd (cc k);
                })
          | inr (inr (g, inl (e, e'))) ↦
              rw (more, e) (ends buf have target s s' h g (os.closed_keeps (target - have) s s' e'))
          | inr (inr (g, inr (e, e'))) ↦
              rw (more, e) (ends buf have target s s' h g (os.failed_keeps (target - have) s s' e'))
        ]
  ]
