-- ===== src/Server/Budget/Flood.antt =====
-- The handshake budget over the requests of one second, from known and from unknown sources.
use camex.Base.{
  ℕ, ◌+◌, ◌≤◌, ◌≡◌, ◌≢◌, refl, ap, not, ◌&&◌, Bool, true, false, Option, none, List, [], ◌∷◌, ◌==◌,
  if◌then◌else◌, if_elim, Bool-cases, ◌⊎◌, inl, inr, if_true, if_false, arith, All,
}
use camex.Crypto.{Crypto}
use camex.Server.Budget.{
  Budget, Source, Verdict, granted, all_taken, unknown_taken, share_taken, handshake_budget,
  budget_window,
}
use camex.Server.Budget.Bounds.{
  refuses, serves_known, serves_unknown, Within, Kept, handshake_budget-Kept, Effect-Within,
  window-Within,
}

-- Requests of one second, by source, in the order of their arrival: whether each source is known,
-- and the verdict.
unfoldable pub verdicts :
    Crypto → ℕ → (ℕ → Option (List ℕ)) → List (ℕ × Bool) → Budget → List (Bool × Verdict)
verdicts c now random [] b = []
verdicts c now random ((a, known) ∷ more) b =
    let src : Source = record {
      a = a;
      looked_up = false;
      addr = none;
      net = none;
      known = known;
    } in
    let r = handshake_budget c now random src b in (known, r.0) ∷ verdicts c now random more r.2

unfoldable pub known_requests : List (ℕ × Bool) → ℕ
known_requests [] = 0
known_requests ((a, known) ∷ more) = if known then known_requests more + 1 else known_requests more

abbrev pub Served : Bool × Verdict → Type 0
Served v = (v.0 ≡ false) ⊎ (v.1 ≡ granted)

verdicts-Served :
    (c : Crypto) (now : ℕ) (random : ℕ → Option (List ℕ)) (requests : List (ℕ × Bool)) (b : Budget)
    (n : ℕ)
    → Within b
    → b.handshakes ≤ b.unknown_handshakes + n
    → n + known_requests requests ≤ 50
    → All Served (verdicts c now random requests b)
unfolding verdicts known_requests
verdicts-Served c now random [] b n w m few = tt
verdicts-Served c now random ((a, known) ∷ more) b n w m few =
    let src : Source = record {
      a = a;
      looked_up = false;
      addr = none;
      net = none;
      known = known;
    } in
    let r = handshake_budget c now random src b in
    let kept : Kept now src b r = handshake_budget-Kept c now random src b w (refl, refl) in
    let w' : Within r.2 = Effect-Within now src b r w kept in
    let rest : ℕ = known_requests more in
    let one_more : known ≡ true → known_requests ((a, known) ∷ more) ≡ rest + 1 =
      λ k. if_true known (rest + 1) rest k in
    let not_fewer : rest ≤ known_requests ((a, known) ∷ more) =
      if_elim (λ n. rest ≤ n) known (rest + 1) rest (λ _. omega arith) (λ _. omega arith) in
    elim kept.2 [
      | refuses v full same ↦ (
        elim (Bool-cases known) [
          | inl k ↦ absurd (omega (arith, full k, one_more k, w.unknown, m, few))
          | inr k ↦ inl k
        ],
        verdicts-Served c now random more r.2 n w' (omega (arith, same, m))
            (omega (arith, not_fewer, few)),
      )
      | serves_known k v room e u ↦ (
        inr v,
        verdicts-Served c now random more r.2 (n + 1) w' (omega (arith, e, u, m))
            (omega (arith, one_more k, few)),
      )
      | serves_unknown k v room some_left e u ↦ (
        inr v,
        verdicts-Served c now random more r.2 n w' (omega (arith, e, u, m))
            (omega (arith, not_fewer, few)),
      )
    ]

-- In a new second, a known source is served whatever the unknown ones send, as long as at most 50
-- requests of the second come from known sources.
pub known-Served :
    (c : Crypto) (now : ℕ) (random : ℕ → Option (List ℕ)) (requests : List (ℕ × Bool)) (b : Budget)
    → Within b
    → b.window ≢ now
    → known_requests requests ≤ 50
    → All Served (verdicts c now random requests (budget_window now b))
unfolding budget_window
known-Served c now random requests b w old few =
    let reset : Budget = record b {
      window = now;
      handshakes = 0;
      unknown_handshakes = 0;
      trials = 0;
      unknown_trials = 0;
    } in
    let opened : budget_window now b ≡ reset = if_false (b.window == now) b reset (ground arith) in
    let w' : Within reset = record {
      fair = w.fair;
      all = omega arith;
      unknown = omega arith;
      part = omega arith;
    } in
    rw opened (verdicts-Served c now random requests reset 0 w' (omega arith) (omega (arith, few)))

abbrev pub one_if : Bool → ℕ
one_if true = 1
one_if false = 0

abbrev pub is_granted : Verdict → Bool
is_granted granted = true
is_granted all_taken = false
is_granted unknown_taken = false
is_granted share_taken = false

-- The requests that are served, and those of them that are from unknown sources.
unfoldable pub served : List (Bool × Verdict) → ℕ
served [] = 0
served ((known, v) ∷ more) = one_if (is_granted v) + served more

unfoldable pub served_unknown : List (Bool × Verdict) → ℕ
served_unknown [] = 0
served_unknown ((known, v) ∷ more) = one_if (not known && is_granted v) + served_unknown more

refused-is_granted : (v : Verdict) → (v ≢ granted) → is_granted v ≡ false
refused-is_granted granted n = absurd (n refl)
refused-is_granted all_taken n = refl
refused-is_granted unknown_taken n = refl
refused-is_granted share_taken n = refl

-- What is served is counted.
verdicts-served :
    (c : Crypto) (now : ℕ) (random : ℕ → Option (List ℕ)) (requests : List (ℕ × Bool)) (b : Budget)
    → Within b
    → (served (verdicts c now random requests b) + b.handshakes ≤ 200)
      × (served_unknown (verdicts c now random requests b) + b.unknown_handshakes ≤ 150)
unfolding verdicts served served_unknown
verdicts-served c now random [] b w = (omega (arith, w.all), omega (arith, w.unknown))
verdicts-served c now random ((a, known) ∷ more) b w =
    let src : Source = record {
      a = a;
      looked_up = false;
      addr = none;
      net = none;
      known = known;
    } in
    let r = handshake_budget c now random src b in
    let kept : Kept now src b r = handshake_budget-Kept c now random src b w (refl, refl) in
    let later = verdicts-served c now random more r.2 (Effect-Within now src b r w kept) in
    elim kept.2 [
      | refuses v full same ↦
          let no : is_granted r.0 ≡ false = refused-is_granted r.0 v in
          (
            omega (arith, ap one_if no, later.0, same),
            omega (arith, unknown_part known (is_granted r.0) no, later.1, same),
          )
      | serves_known k v room e u ↦ (
        omega (arith, ap (λ x. one_if (is_granted x)) v, later.0, e),
        omega (arith, known_part known (is_granted r.0) k, later.1, u),
      )
      | serves_unknown k v room some_left e u ↦ (
        omega (arith, ap (λ x. one_if (is_granted x)) v, later.0, e),
        omega (arith, at_most known (is_granted r.0), later.1, u),
      )
    ]
  where
    unknown_part : (k g : Bool) → g ≡ false → one_if (not k && g) ≡ 0
    unknown_part true g e = refl
    unknown_part false true e = absurd (cc e)
    unknown_part false false e = refl

    known_part : (k g : Bool) → k ≡ true → one_if (not k && g) ≡ 0
    known_part true g e = refl
    known_part false g e = absurd (cc e)

    at_most : (k g : Bool) → one_if (not k && g) ≤ 1
    at_most true g = omega arith
    at_most false true = omega arith
    at_most false false = omega arith

-- Of the requests of one second, whatever their sources and number, at most 200 are served, and at most
-- 150 of those from unknown sources; what was served before in the second counts.
pub served-Limited :
    (c : Crypto) (now : ℕ) (random : ℕ → Option (List ℕ)) (requests : List (ℕ × Bool)) (b : Budget)
    → Within b
    → (let now_open = budget_window now b in
        let done = verdicts c now random requests now_open in
        (served done + now_open.handshakes ≤ 200)
        × (served_unknown done + now_open.unknown_handshakes ≤ 150))
served-Limited c now random requests b w =
    verdicts-served c now random requests (budget_window now b) (window-Within now b w)
