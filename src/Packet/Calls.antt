-- ===== src/Packet/Calls.antt =====
-- The switch and its backend agree on whether the backend is open.
use camex.Base.{
  ℕ, ◌≡◌, sym, ◌∙◌, if◌then◌else◌, Bool, true, false, Option, none, some, List, [], ◌∷◌, if_elim,
  All, ◌≢◌, ap, ℕ_discrete, yes, no,
}
use camex.Packet.{
  Backend, Switch, Call, choose, open_it, read_it, write_it, close_it, backend_set, open_packets,
  opened, read_packets, write_packets, close_packets, beyond_select, chosen, step, run,
}

module _ {World Params : Type 0} (live : ℕ → World → Bool) where
  -- A backend's contract, where `live i` is whether the device of backend `i` is open. Each of the
  -- first laws is asked for only in the state in which the function may be called; the others say that
  -- a backend leaves the devices of the other ones alone.
  pub record Obeys (i : ℕ) (b : Backend World Params) : Type 0 where
    pub opens :
        (p : Params) (w : World)
        → live i w ≡ false
        → live i (b.open_device p w).1 ≡ (b.open_device p w).0
    pub reads : (n : ℕ) (w : World) → live i w ≡ true → live i (b.read_packet n w).1 ≡ true
    pub writes : (xs : List ℕ) (w : World) → live i w ≡ true → live i (b.write_packet xs w).1 ≡ true
    pub closes : (w : World) → live i w ≡ true → live i (b.close_device w) ≡ false
    pub opens_own :
        (j : ℕ) (p : Params) (w : World) → i ≢ j → live j (b.open_device p w).1 ≡ live j w
    pub reads_own : (j n : ℕ) (w : World) → i ≢ j → live j (b.read_packet n w).1 ≡ live j w
    pub writes_own :
        (j : ℕ) (xs : List ℕ) (w : World) → i ≢ j → live j (b.write_packet xs w).1 ≡ live j w
    pub closes_own : (j : ℕ) (w : World) → i ≢ j → live j (b.close_device w) ≡ live j w

  -- The device of the switch's backend is open exactly when the switch says so, and no other one is.
  pub record Agrees (s : Switch World Params) : Type 0 where
    pub device : ℕ
    pub obeys : Obeys device s.backend
    pub same : live device s.world ≡ s.is_open
    pub others : (j : ℕ) → device ≢ j → live j s.world ≡ false

  abbrev pub Allowed : Call World Params → Type 0
  Allowed (choose none) = Unit
  Allowed (choose (some b)) = (i : ℕ) × Obeys i b
  Allowed (open_it params) = Unit
  Allowed (read_it size) = Unit
  Allowed (write_it bytes) = Unit
  Allowed close_it = Unit

  chosen-Obeys :
      (tun : Backend World Params) (b : Option (Backend World Params))
      → (i : ℕ) × Obeys i tun
      → Allowed (choose b)
      → (i : ℕ) × Obeys i (chosen tun b)
  chosen-Obeys tun none t a = t
  chosen-Obeys tun (some b) t a = a

  -- The switch closed: no device is open.
  none_open :
      (s : Switch World Params) → Agrees s → s.is_open ≡ false → (j : ℕ) → live j s.world ≡ false
  none_open s a shut j = elim (ℕ_discrete a.device j) [
    | yes q ↦ ap (λ i. live i s.world) (sym q) ∙ (a.same ∙ shut)
    | no n ↦ a.others j n
  ]

  open_packets-Agrees :
      (p : Params) (s : Switch World Params) → Agrees s → Agrees (open_packets p s).1
  unfolding open_packets opened
  open_packets-Agrees p s a =
      let w : World = (s.backend.open_device p s.world).1 in
      let ok : Bool = (s.backend.open_device p s.world).0 in
      let P : Bool × Switch World Params → Type 0 = λ r. Agrees r.1 in
      let refused : Bool × Switch World Params = (false, record s { world = w }) in
      let closed : Bool × Switch World Params =
        (false, record s { world = s.backend.close_device w }) in
      let taken : Bool × Switch World Params = (true, record s { world = w; is_open = true }) in
      let far : Bool = beyond_select (s.backend.get_fd w) in
      let apart : (j : ℕ) → a.device ≢ j → live j w ≡ false =
        λ j n. a.obeys.opens_own j p s.world n ∙ a.others j n in
      if_elim P s.is_open (false, s) (if ok then (if far then closed else taken) else refused)
        (λ _. a)
        (λ shut.
          let now : live a.device w ≡ ok = a.obeys.opens p s.world (a.same ∙ shut) in
          if_elim P ok (if far then closed else taken) refused
            (λ yes_ok.
              if_elim P far closed taken
                (λ _. record {
                  device = a.device;
                  obeys = a.obeys;
                  same = a.obeys.closes w (now ∙ yes_ok) ∙ sym shut;
                  others = λ j n. a.obeys.closes_own j w n ∙ apart j n;
                })
                (λ _. record {
                  device = a.device;
                  obeys = a.obeys;
                  same = now ∙ yes_ok;
                  others = apart;
                }))
            (λ not_ok. record {
              device = a.device;
              obeys = a.obeys;
              same = now ∙ (not_ok ∙ sym shut);
              others = apart;
            }))

  step-Agrees :
      (tun : Backend World Params) (c : Call World Params) (s : Switch World Params)
      → (i : ℕ) × Obeys i tun
      → Allowed c
      → Agrees s
      → Agrees (step tun c s)
  unfolding backend_set read_packets write_packets close_packets
  step-Agrees tun (choose b) s t ok a =
      if_elim (λ (r : Bool × Switch World Params). Agrees r.1) s.is_open (false, s)
        (true, record s { backend = chosen tun b }) (λ _. a)
        (λ shut.
          let (i, o) = chosen-Obeys tun b t ok in
          record {
            device = i;
            obeys = o;
            same = none_open s a shut i ∙ sym shut;
            others = λ j n. none_open s a shut j;
          })
  step-Agrees tun (open_it params) s t ok a = open_packets-Agrees params s a
  step-Agrees tun (read_it size) s t ok a =
      let r = s.backend.read_packet size s.world in
      if_elim (λ (q : Option (List ℕ) × Switch World Params). Agrees q.1) s.is_open
        (r.0, record s { world = r.1 }) (none, s)
        (λ o. record {
          device = a.device;
          obeys = a.obeys;
          same = a.obeys.reads size s.world (a.same ∙ o) ∙ sym o;
          others = λ j n. a.obeys.reads_own j size s.world n ∙ a.others j n;
        })
        (λ _. a)
  step-Agrees tun (write_it bytes) s t ok a =
      let r = s.backend.write_packet bytes s.world in
      if_elim (λ (q : Option ℕ × Switch World Params). Agrees q.1) s.is_open
        (r.0, record s { world = r.1 }) (none, s)
        (λ o. record {
          device = a.device;
          obeys = a.obeys;
          same = a.obeys.writes bytes s.world (a.same ∙ o) ∙ sym o;
          others = λ j n. a.obeys.writes_own j bytes s.world n ∙ a.others j n;
        })
        (λ _. a)
  step-Agrees tun close_it s t ok a =
      if_elim Agrees s.is_open
        (record s { world = s.backend.close_device s.world; is_open = false }) s
        (λ o. record {
          device = a.device;
          obeys = a.obeys;
          same = a.obeys.closes s.world (a.same ∙ o);
          others = λ j n. a.obeys.closes_own j s.world n ∙ a.others j n;
        })
        (λ _. a)

  -- After any calls, in any order and with any choices of backends between them, the device of the
  -- chosen backend is open exactly when the switch says so, and no other backend's device is open, if
  -- every backend keeps its contract: a law on its own device in the state in which the function may be
  -- called, and no effect on the devices of the others.
  pub run-Agrees :
      (tun : Backend World Params) (calls : List (Call World Params)) (s : Switch World Params)
      → (i : ℕ) × Obeys i tun
      → All Allowed calls
      → Agrees s
      → Agrees (run tun calls s)
  run-Agrees tun [] s t ok a = a
  run-Agrees tun (c ∷ calls) s t ok a =
      run-Agrees tun calls (step tun c s) t ok.1 (step-Agrees tun c s t ok.0 a)
