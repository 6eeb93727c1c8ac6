-- ===== src/Session/Replay/History.antt =====
-- A session's receiver over any arrival of authenticated counters: each is checked, and recorded
-- if it is accepted.
use camex.Base.{
  ℕ, ◌+◌, ◌<◌, ◌≡◌, ◌≢◌, refl, Bool, true, false, ◌||◌, inl, inr, List, [], ◌∷◌, All, arith, ◌==◌,
  Bool-cases,
}
use camex.Session.Replay.{Window, fresh, reject_after_msgs, replay_check, replay_record}
use camex.Session.Replay.Track.{
  Tracks, is_stale, insert, fresh-Tracks, replay_check-eq, replay_record-Tracks,
}

-- The counters that are accepted, in the order of their arrival, and the window at the end.
abbrev pub accepted : Window → List ℕ → List ℕ
accepted r [] = []
accepted r (n ∷ ns) = elim (replay_check r n) [
  | true ↦ n ∷ accepted (replay_record r n) ns
  | false ↦ accepted r ns
]

abbrev pub after : Window → List ℕ → Window
after r [] = r
after r (n ∷ ns) = elim (replay_check r n) [
  | true ↦ after (replay_record r n) ns
  | false ↦ after r ns
]

module _ (r : Window) (n : ℕ) (ns : List ℕ) where
  abbrev Takes : Type 0
  Takes =
      (accepted r (n ∷ ns) ≡ n ∷ accepted (replay_record r n) ns)
      × (after r (n ∷ ns) ≡ after (replay_record r n) ns)

  abbrev Refuses : Type 0
  Refuses = (accepted r (n ∷ ns) ≡ accepted r ns) × (after r (n ∷ ns) ≡ after r ns)

  takes : replay_check r n ≡ true → Takes
  takes ok = ground arith

  refuses : replay_check r n ≡ false → Refuses
  refuses bad = ground arith

-- No two elements are the same.
abbrev pub Distinct : List ℕ → Type 0
Distinct [] = Unit
Distinct (x ∷ xs) = All (λ y. x ≢ y) xs × Distinct xs

-- The set `seen` with the elements of a list.
abbrev pub with_all : List ℕ → (ℕ → Bool) → ℕ → Bool
with_all [] seen = seen
with_all (x ∷ xs) seen = with_all xs (insert x seen)

All-weaken : {P Q : ℕ → Type 0} (xs : List ℕ) → ((x : ℕ) → P x → Q x) → All P xs → All Q xs
All-weaken [] f h = tt
All-weaken (x ∷ xs) f h = (f x h.0, All-weaken xs f h.1)

-- What is accepted was not seen before, and is not accepted twice.
accepted-unseen :
    (ns : List ℕ) (r : Window) (seen : ℕ → Bool)
    → Tracks r seen
    → All (λ m. seen m ≡ false) (accepted r ns) × Distinct (accepted r ns)
accepted-unseen [] r seen t = (tt, tt)
accepted-unseen (n ∷ ns) r seen t = elim (Bool-cases (replay_check r n)) [
  | inl ok ↦
      let rest =
        accepted-unseen ns (replay_record r n) (insert n seen) (replay_record-Tracks n t ok) in
      rw (takes r n ns ok).0 (
        (
          unseen_now n r seen t ok,
          All-weaken (accepted (replay_record r n) ns) (older n seen) rest.0,
        ),
        (All-weaken (accepted (replay_record r n) ns) (other n seen) rest.0, rest.1),
      )
  | inr refused ↦ rw (refuses r n ns refused).0 (accepted-unseen ns r seen t)
]
  where
    unseen_now :
        (n : ℕ) (r : Window) (seen : ℕ → Bool)
        → Tracks r seen
        → replay_check r n ≡ true
        → seen n ≡ false
    unseen_now n r seen t ok = ground (arith, replay_check-eq n t)

    older : (n : ℕ) (seen : ℕ → Bool) (m : ℕ) → insert n seen m ≡ false → seen m ≡ false
    older n seen m h = ground arith

    other : (n : ℕ) (seen : ℕ → Bool) (m : ℕ) → insert n seen m ≡ false → n ≢ m
    other n seen m h = ground arith

-- After any arrival the window tracks exactly the counters that were accepted.
after-Tracks :
    (ns : List ℕ) (r : Window) (seen : ℕ → Bool)
    → Tracks r seen
    → Tracks (after r ns) (with_all (accepted r ns) seen)
after-Tracks [] r seen t = t
after-Tracks (n ∷ ns) r seen t = elim (Bool-cases (replay_check r n)) [
  | inl ok ↦
      rw ((takes r n ns ok).0, (takes r n ns ok).1)
        (after-Tracks ns (replay_record r n) (insert n seen) (replay_record-Tracks n t ok))
  | inr refused ↦
      rw ((refuses r n ns refused).0, (refuses r n ns refused).1) (after-Tracks ns r seen t)
]

-- No replay: however packets arrive, repeat or are reordered, no counter is accepted twice.
pub accepted-Distinct : (ns : List ℕ) → Distinct (accepted fresh ns)
accepted-Distinct ns = (accepted-unseen ns fresh (λ m. false) fresh-Tracks).1

abbrev pub member : ℕ → List ℕ → Bool
member n [] = false
member n (x ∷ xs) = x == n || member n xs

with_all-member :
    (xs : List ℕ) (seen : ℕ → Bool) (n : ℕ) → with_all xs seen n ≡ (member n xs || seen n)
with_all-member [] seen n = refl
with_all-member (x ∷ xs) seen n = ground (arith, with_all-member xs (insert x seen) n)

-- No loss: after any arrival, a counter below the limit that was not accepted yet is accepted,
-- unless one at least 1985 larger was.
pub accepts_new :
    (ns : List ℕ) (n : ℕ)
    → n < reject_after_msgs
    → member n (accepted fresh ns) ≡ false
    → (after fresh ns).max < n + 1985
    → replay_check (after fresh ns) n ≡ true
accepts_new ns n limit new near =
    let t = after-Tracks ns fresh (λ m. false) fresh-Tracks in
    let r = after fresh ns in
    ground (
      arith,
      replay_check-eq n t,
      with_all-member (accepted fresh ns) (λ m. false) n,
      behind r n near,
    )
  where
    behind : (r : Window) (n : ℕ) → r.max < n + 1985 → is_stale r n ≡ false
    behind r n h = ground arith
