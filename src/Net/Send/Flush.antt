-- ===== src/Net/Send/Flush.antt =====
-- A flush hands over a slot's bytes in order: none is lost, doubled or mixed up, however `send`
-- cuts them.
use camex.Base.{
  ℕ, zero, suc, ◌+◌, ◌-◌, ◌≤◌, ◌<◌, ◌≡◌, refl, sym, ap, ap₂, ◌∙◌, ◌⊎◌, inl, inr, false, List, [],
  ◌∷◌, ◌++◌, length, take, drop, ltb, arith, append_assoc, append-nil, length-take, length-drop,
  take-append-drop, Bool-cases, ltb→lt, ltb_false→le, take_all, drop_all,
}
use camex.Net.Sink.{Sink, SendResult, sent, retry, broken_pipe}
use camex.Net.Send.{Pending, Sent, flushed, pending, dropped, flush_slot, bytes_of}

-- What a slot still has to send.
abbrev pub left : Pending → List ℕ
left p = take (p.len - p.offset) (drop p.offset (bytes_of p.buf))

drop-take : (n m : ℕ) (xs : List ℕ) → drop n (take m xs) ≡ take (m - n) (drop n xs)
drop-take zero m xs = let same : m ≡ m - 0 = omega arith in ap (λ k. take k xs) same
drop-take (suc n) zero xs =
    let nothing : 0 ≡ 0 - suc n = omega arith in ap (λ k. take k (drop (suc n) xs)) nothing
drop-take (suc n) (suc m) [] = sym (take_all (suc m - suc n) [] (omega arith))
drop-take (suc n) (suc m) (x ∷ xs) =
    let both : m - n ≡ suc m - suc n = omega arith in
    drop-take n m xs ∙ ap (λ k. take k (drop n xs)) both

drop-drop : (n m : ℕ) (xs : List ℕ) → drop n (drop m xs) ≡ drop (m + n) xs
drop-drop n zero xs = let same : n ≡ 0 + n = omega arith in ap (λ k. drop k xs) same
drop-drop n (suc m) [] = drop_all n [] (omega arith) ∙ sym (drop_all (suc m + n) [] (omega arith))
drop-drop n (suc m) (x ∷ xs) =
    let one_more : suc (m + n) ≡ suc m + n = omega arith in
    drop-drop n m xs ∙ ap (λ k. drop k (x ∷ xs)) one_more

-- The bytes of one `send`, and those that remain.
left-step :
    (p : Pending) (n : ℕ) → take n (left p) ++ left (record p { offset = p.offset + n }) ≡ left p
left-step p n =
    let rest = drop p.offset (bytes_of p.buf) in
    let fewer : p.len - p.offset - n ≡ p.len - (p.offset + n) = omega arith in
    let remaining : left (record p { offset = p.offset + n }) ≡ drop n (left p) = sym (
      drop-take n (p.len - p.offset) rest
      ∙ ap₂ (λ k (ys : List ℕ). take k ys) fewer (drop-drop n p.offset (bytes_of p.buf))) in
    ap (λ ys. take n (left p) ++ ys) remaining ∙ take-append-drop n (left p)

module _ (os : Sink) where
  -- The outcome of a flush in `s` that has the bytes `todo` to send: the connection broke, or the
  -- bytes that the socket took and those that remain are the old ones and `todo` in order, and none
  -- remain once it is flushed.
  pub data Conserves (fd : ℕ) (todo : List ℕ) (s : os.State) (r : Sent × Pending × os.State)
      : Type 0 where
    breaks : r.0 ≡ dropped → Conserves fd todo s r
    empties : r.0 ≡ flushed → os.taken fd r.2 ≡ os.taken fd s ++ todo → Conserves fd todo s r
    remains :
        r.0 ≡ pending
        → 0 < length (left r.1)
        → os.taken fd r.2 ++ left r.1 ≡ os.taken fd s ++ todo
        → Conserves fd todo s r

  abbrev Returned : ℕ → List ℕ → os.State → SendResult → Type 0
  Returned fd xs s r = ((os.send fd xs s).0 ≡ r) × (os.send fd xs s ≡ (r, (os.send fd xs s).1))

  send-cases :
      (fd : ℕ) (xs : List ℕ) (s : os.State)
      → ((n : ℕ) × Returned fd xs s (sent n))
        ⊎ (Returned fd xs s retry ⊎ Returned fd xs s broken_pipe)
  send-cases fd xs s = go (os.send fd xs s).0 refl
    where
      pair : (r : SendResult) → (os.send fd xs s).0 ≡ r → os.send fd xs s ≡ (r, (os.send fd xs s).1)
      pair r e = ap (λ (r : SendResult). (r, (os.send fd xs s).1)) e

      go :
          (r : SendResult)
          → (os.send fd xs s).0 ≡ r
          → ((n : ℕ) × Returned fd xs s (sent n))
            ⊎ (Returned fd xs s retry ⊎ Returned fd xs s broken_pipe)
      go (sent n) e = inl (n, (e, pair (sent n) e))
      go retry e = inr (inl (e, pair retry e))
      go broken_pipe e = inr (inr (e, pair broken_pipe e))

  full-left : (p : Pending) → p.len ≤ length (bytes_of p.buf) → length (left p) ≡ p.len - p.offset
  full-left p h = omega (
    arith,
    length-take (p.len - p.offset) (drop p.offset (bytes_of p.buf)),
    length-drop p.offset (bytes_of p.buf),
  )

  resume :
      (fd n : ℕ) (p : Pending) (s s' : os.State) (r : Sent × Pending × os.State)
      → os.taken fd s' ≡ os.taken fd s ++ take n (left p)
      → Conserves fd (left (record p { offset = p.offset + n })) s' r
      → Conserves fd (left p) s r
  resume fd n p s s' r e k =
      let whole : os.taken fd s' ++ left (record p { offset = p.offset + n })
          ≡ os.taken fd s ++ left p =
        ap (λ z. z ++ left (record p { offset = p.offset + n })) e
        ∙ (append_assoc (os.taken fd s) (take n (left p))
              (left (record p { offset = p.offset + n }))
            ∙ ap (λ z. os.taken fd s ++ z) (left-step p n)) in
      elim k [
        | breaks v ↦ breaks v
        | empties v g ↦ empties v (g ∙ whole)
        | remains v some_left g ↦ remains v some_left (g ∙ whole)
      ]

  nothing-left :
      (fd : ℕ) (p : Pending) (s : os.State)
      → p.len ≤ p.offset
      → os.taken fd s ≡ os.taken fd s ++ left p
  nothing-left fd p s h =
      let none_left : 0 ≡ p.len - p.offset = omega arith in
      sym (append-nil (os.taken fd s))
      ∙ ap (λ k. os.taken fd s ++ take k (drop p.offset (bytes_of p.buf))) none_left

  pub flush_slot-Conserves :
      (rounds fd : ℕ) (p : Pending) (s : os.State)
      → p.len ≤ length (bytes_of p.buf)
      → p.len ≤ p.offset + rounds
      → Conserves fd (left p) s (flush_slot os rounds fd p s)
  unfolding flush_slot
  flush_slot-Conserves zero fd p s fits enough =
      let none_left : ltb p.offset p.len ≡ false = ground arith in
      rw none_left (empties refl (nothing-left fd p s (omega arith)))
  flush_slot-Conserves (suc rounds) fd p s fits enough = elim (Bool-cases (ltb p.offset p.len)) [
    | inr done ↦ rw done (empties refl (nothing-left fd p s (ltb_false→le p.offset p.len done)))
    | inl more ↦
        let some_left : p.offset < p.len = ltb→lt p.offset p.len more in
        let s' : os.State = (os.send fd (left p) s).1 in
        let size = full-left p fits in
        elim (send-cases fd (left p) s) [
          | inl (n, (e, e')) ↦
              let g = os.sent_some fd n (left p) s s' (omega (arith, size)) e' in
              let p' : Pending = record p { offset = p.offset + n } in
              rw (more, e)
                (resume fd n p s s' (flush_slot os rounds fd p' s') g.2
                  (flush_slot-Conserves rounds fd p' s' fits (omega (arith, g.0))))
          | inr (inl (e, e')) ↦
              rw (more, e)
                (remains refl (omega (arith, size))
                  (ap (λ z. z ++ left p) (os.retry_keeps fd (left p) s s' e')))
          | inr (inr (e, e')) ↦ rw (more, e) (breaks refl)
        ]
  ]
