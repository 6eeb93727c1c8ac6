-- ===== src/Server/Budget/Bounds.antt =====
-- The limits of the handshake budget, and what a request does to its counts.
use camex.Base.{
  ℕ, ◌+◌, ◌≤◌, ◌<◌, ◌≡◌, ◌≢◌, refl, ◌∙◌, Bool, true, false, ◌||◌, Option, List, leb, ◌==◌,
  if◌then◌else◌, if_elim, or_false, u32, arith, leb_false→lt, leb→le,
}
use camex.Crypto.{Crypto}
use camex.Server.Budget.{
  Budget, Source, Client, Verdict, granted, all_taken, unknown_taken, share_taken, spent,
  count_handshake, source_shares, source_for, handshake_budget, budget_window, handshakes_per_sec,
  unknown_share,
}
use camex.Server.Budget.Shares.{
  spent-count, Fair, LookedUp, SameCounts, Holds, Holds-claimed, source_shares-Fair, count-Fair,
}

abbrev pub Answer : Type 0
Answer = Verdict × Source × Budget

-- What one request does to the counts over all sources.
pub data Effect (src : Source) (b : Budget) (r : Answer) : Type 0 where
  refuses :
      r.0 ≢ granted
      → (src.known ≡ true → handshakes_per_sec ≤ b.handshakes)
      → SameCounts b r.2
      → Effect src b r
  serves_known :
      src.known ≡ true
      → r.0 ≡ granted
      → b.handshakes < handshakes_per_sec
      → r.2.handshakes ≡ b.handshakes + 1
      → r.2.unknown_handshakes ≡ b.unknown_handshakes
      → Effect src b r
  serves_unknown :
      src.known ≡ false
      → r.0 ≡ granted
      → b.handshakes < handshakes_per_sec
      → b.unknown_handshakes < unknown_share handshakes_per_sec
      → r.2.handshakes ≡ b.handshakes + 1
      → r.2.unknown_handshakes ≡ b.unknown_handshakes + 1
      → Effect src b r

-- The limits: all sources together, the unknown ones, each source and each /24.
pub record Within (b : Budget) : Type 0 where
  pub fair : Fair b
  pub all : b.handshakes ≤ handshakes_per_sec
  pub unknown : b.unknown_handshakes ≤ unknown_share handshakes_per_sec
  pub part : b.unknown_handshakes ≤ b.handshakes

abbrev pub Kept : ℕ → Source → Budget → Answer → Type 0
Kept now src b r = Fair r.2 × LookedUp now r.1 r.2 × Effect src b r

-- An unknown source that is within its shares is counted at its entries and in both totals.
granted-Kept :
    (c : Crypto) (now : ℕ) (random : ℕ → Option (List ℕ)) (src : Source) (b : Budget)
    → Within b
    → LookedUp now src b
    → src.known ≡ false
    → b.handshakes < 200
    → leb 150 b.unknown_handshakes ≡ false
    → let r = source_shares c now random src b in
      (spent (λ s. s.handshakes) 25 r.0.addr r.1 || spent (λ s. s.handshakes) 50 r.0.net r.1)
        ≡ false
      → let b1 = count_handshake r.0.net (count_handshake r.0.addr r.1) in
        Kept now src b (
          granted,
          r.0,
          record b1 {
            unknown_handshakes = u32 (b1.unknown_handshakes + 1);
            handshakes = u32 (b1.handshakes + 1);
          },
        )
granted-Kept c now random src b w looked k room some_left fresh =
    let r = source_shares c now random src b in
    let src' : Source = r.0 in
    let b' : Budget = r.1 in
    let found = source_shares-Fair c now random src b w.fair looked in
    let b1 : Budget = count_handshake src'.net (count_handshake src'.addr b') in
    let b2 : Budget = record b1 {
      unknown_handshakes = u32 (b1.unknown_handshakes + 1);
      handshakes = u32 (b1.handshakes + 1);
    } in
    let spent_addr : Bool = spent (λ s. s.handshakes) 25 src'.addr b' in
    let spent_net : Bool = spent (λ s. s.handshakes) 50 src'.net b' in
    let one =
      count-Fair now 0 src'.addr b' found.0 found.2.0 (or_false spent_addr spent_net fresh).0 in
    let bA : Budget = count_handshake src'.addr b' in
    let netA : Holds now 1 src'.net bA = Holds-claimed now 1 src'.net b' bA one.2 found.2.1 in
    let two = count-Fair now 1 src'.net bA one.0 netA (
      spent-count now 50 src'.addr src'.net b' found.2.0 found.2.1
      ∙ (or_false spent_addr spent_net fresh).1) in
    let counts : b1.handshakes ≡ b.handshakes = two.1.0 ∙ (one.1.0 ∙ found.1.0) in
    let unknowns : b1.unknown_handshakes ≡ b.unknown_handshakes = two.1.1 ∙ (one.1.1 ∙ found.1.1) in
    let some_room : b.unknown_handshakes < 150 = leb_false→lt 150 b.unknown_handshakes some_left in
    (
      two.0,
      (
        Holds-claimed now 0 src'.addr b1 b2 (λ j k q. q)
            (Holds-claimed now 0 src'.addr bA b1 two.2
              (Holds-claimed now 0 src'.addr b' bA one.2 found.2.0)),
        Holds-claimed now 1 src'.net b1 b2 (λ j k q. q)
            (Holds-claimed now 1 src'.net bA b1 two.2 netA),
      ),
      serves_unknown k refl room some_room (omega (arith, counts)) (omega (arith, unknowns)),
    )

pub handshake_budget-Kept :
    (c : Crypto) (now : ℕ) (random : ℕ → Option (List ℕ)) (src : Source) (b : Budget)
    → Within b
    → LookedUp now src b
    → Kept now src b (handshake_budget c now random src b)
unfolding handshake_budget
handshake_budget-Kept c now random src b w looked =
    let r = source_shares c now random src b in
    let src' : Source = r.0 in
    let b' : Budget = r.1 in
    let found = source_shares-Fair c now random src b w.fair looked in
    let b1 : Budget = count_handshake src'.net (count_handshake src'.addr b') in
    let b2 : Budget = record b1 {
      unknown_handshakes = u32 (b1.unknown_handshakes + 1);
      handshakes = u32 (b1.handshakes + 1);
    } in
    let P : Answer → Type 0 = Kept now src b in
    let over : Bool =
      spent (λ s. s.handshakes) 25 src'.addr b' || spent (λ s. s.handshakes) 50 src'.net b' in
    let last : Answer = if over then (share_taken, src', b') else (granted, src', b2) in
    let third : Answer = if leb 150 b.unknown_handshakes then (unknown_taken, src, b) else last in
    let second : Answer =
      if src.known
      then (granted, src, record b { handshakes = u32 (b.handshakes + 1) })
      else third in
    if_elim P (leb 200 b.handshakes) (all_taken, src, b) second
      (λ full.
        (w.fair, looked, refuses (λ k. cc k) (λ _. leb→le 200 b.handshakes full) (refl, refl)))
      (λ free.
        let room : b.handshakes < 200 = leb_false→lt 200 b.handshakes free in
        if_elim P src.known (granted, src, record b { handshakes = u32 (b.handshakes + 1) }) third
          (λ k.
            let b'' : Budget = record b { handshakes = u32 (b.handshakes + 1) } in
            (
              w.fair,
              (
                Holds-claimed now 0 src.addr b b'' (λ j k q. q) looked.0,
                Holds-claimed now 1 src.net b b'' (λ j k q. q) looked.1,
              ),
              serves_known k refl room (omega arith) refl,
            ))
          (λ k.
            if_elim P (leb 150 b.unknown_handshakes) (unknown_taken, src, b) last
              (λ full.
                (w.fair, looked, refuses (λ v. cc v) (λ k'. absurd (cc (k, k'))) (refl, refl)))
              (λ some_left.
                if_elim P over (share_taken, src', b') (granted, src', b2)
                  (λ _. (found.0, found.2, refuses (λ v. cc v) (λ k'. absurd (cc (k, k'))) found.1))
                  (λ fresh. granted-Kept c now random src b w looked k room some_left fresh))))

-- A handshake request: its source is found, the second's window is opened, the budget is asked.
abbrev pub request :
    Crypto → ℕ → ℕ → (ℕ → Option (List ℕ)) → ℕ → Option Client → Budget → Verdict × Source × Budget
request c now timeout random a client b =
    let (src, client', b') = source_for now timeout a client b in
    handshake_budget c now random src b'

pub window-Within : (now : ℕ) (b : Budget) → Within b → Within (budget_window now b)
unfolding budget_window
window-Within now b w =
    let reset : Budget = record b {
      window = now;
      handshakes = 0;
      unknown_handshakes = 0;
      trials = 0;
      unknown_trials = 0;
    } in
    if_elim Within (b.window == now) b reset (λ _. w)
      (λ _. record { fair = w.fair; all = omega arith; unknown = omega arith; part = omega arith })

pub Effect-Within :
    (now : ℕ) (src : Source) (b : Budget) (r : Answer) → Within b → Kept now src b r → Within r.2
Effect-Within now src b r w (fair, looked, refuses v k same) = record {
  fair = fair;
  all = omega (arith, same, w.all);
  unknown = omega (arith, same, w.unknown);
  part = omega (arith, same, w.part);
}
Effect-Within now src b r w (fair, looked, serves_known k v room e u) = record {
  fair = fair;
  all = omega (arith, e, room);
  unknown = omega (arith, u, w.unknown);
  part = omega (arith, e, u, w.part);
}
Effect-Within now src b r w (fair, looked, serves_unknown k v room some_left e u) = record {
  fair = fair;
  all = omega (arith, e, room);
  unknown = omega (arith, u, some_left);
  part = omega (arith, e, u, w.part);
}

-- Every request keeps the limits, whatever its source and the clock.
pub request-Within :
    (c : Crypto) (now timeout : ℕ) (random : ℕ → Option (List ℕ)) (a : ℕ) (client : Option Client)
    (b : Budget)
    → Within b
    → Within (request c now timeout random a client b).2
unfolding source_for
request-Within c now timeout random a client b w =
    let src : Source = (source_for now timeout a client b).0 in
    let b' : Budget = budget_window now b in
    let w' = window-Within now b w in
    Effect-Within now src b' (handshake_budget c now random src b') w'
      (handshake_budget-Kept c now random src b' w' (refl, refl))
