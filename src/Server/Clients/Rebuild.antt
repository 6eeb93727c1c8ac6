-- ===== src/Server/Clients/Rebuild.antt =====
-- The loop of `server_index_rebuild` over the table.
use camex.Base.{
  ℕ, zero, suc, ◌+◌, ◌*◌, ◌^◌, ◌≤◌, ◌≡◌, refl, sym, ap, ◌∙◌, inl, inr, true, false, not, List,
  length, get_or, if◌then◌else◌, if_elim, arith, ℕ_discrete, yes, no,
}
use camex.Slotidx.{Index}
use camex.Slotidx.Cover.{IsPart, IsPart-fewer, IsSmall}
use camex.Server.Leases.{Memory}
use camex.Server.Clients.{
  Client, no_client, Which, by_ip, by_id, by_addr, Indexes, keys_of, enter_keys, enter,
  enter_client, enter_clients,
}
use camex.Server.Clients.Indexed.{
  In, client_keys, length-keys_of, More, IsEntered, enter_keys-IsEntered,
}

-- The part of one index for the slots below `i`.
abbrev pub Part : Which → List Client → ℕ → Index → Type 0
Part w table i x = IsPart (client_keys w table i) (3 * i) x

abbrev pub Small : Indexes → Type 0
Small x = IsSmall x.ip × IsSmall x.id × IsSmall x.addr

-- The indexes have the slots below `a`, `b` and `d`.
pub record IsPhase (table : List Client) (a b d : ℕ) (x : Indexes) : Type 0 where
  pub small : Small x
  pub parts :
      x.ok ≡ true → Part by_ip table a x.ip × Part by_id table b x.id × Part by_addr table d x.addr

joins :
    (w : Which) (table : List Client) (i slot h : ℕ) (c : Client)
    → get_or table i no_client ≡ c
    → client_keys w table (i + 1) slot h
    → More i (keys_of w c) (client_keys w table i) slot h
joins w table i slot h c e (u, p, k) = elim (ℕ_discrete slot i) [
  | yes same ↦ inl (same, in_keys (ap (λ n. get_or table n no_client) same ∙ e) k)
  | no n ↦ inr (ground (arith, u, n), p, k)
]
  where
    in_keys : {a b : Client} → a ≡ b → In h (keys_of w a) → In h (keys_of w b)
    in_keys q m = rw (← q) m

absent :
    (w : Which) (table : List Client) (i slot h : ℕ)
    → (get_or table i no_client).active ≡ false
    → client_keys w table (i + 1) slot h
    → client_keys w table i slot h
absent w table i slot h free (u, p, k) = elim (ℕ_discrete slot i) [
  | yes same ↦ absurd (cc (sym free ∙ (ap (λ n. (get_or table n no_client).active) (sym same) ∙ p)))
  | no n ↦ (ground (arith, u, n), p, k)
]

-- One index takes the keys of slot `i`.
slot-Part :
    (w : Which) (memory : Memory) (m i : ℕ) (table : List Client) (c : Client) (x : Index)
    → i ≤ 2 ^ 20
    → get_or table i no_client ≡ c
    → Part w table i x
    → IsSmall (enter_keys memory m i (keys_of w c) x).index
      × ((enter_keys memory m i (keys_of w c) x).ok ≡ true
          → Part w table (i + 1) (enter_keys memory m i (keys_of w c) x).index)
slot-Part w memory m i table c x few e p =
    let short : length (keys_of w c) ≤ 3 = length-keys_of w c in
    let r : IsEntered (client_keys w table i) (3 * i) i (keys_of w c)
        (enter_keys memory m i (keys_of w c) x) =
      enter_keys-IsEntered memory m i (3 * i) (keys_of w c) x (client_keys w table i) few
        (omega (arith, short)) p in
    (
      r.small,
      λ ok.
          let q = r.part ok in
          record {
            cover =
                (IsPart-fewer _ (client_keys w table (i + 1)) _ _ q
                  (λ slot h. joins w table i slot h c e)).cover;
            small = q.small;
            counted = omega (arith, q.counted, short);
          },
    )

pass-Part :
    (w : Which) (i : ℕ) (table : List Client) (x : Index)
    → (get_or table i no_client).active ≡ false
    → Part w table i x
    → Part w table (i + 1) x
pass-Part w i table x e p = record {
  cover =
      (IsPart-fewer _ (client_keys w table (i + 1)) _ x p
        (λ slot h. absent w table i slot h e)).cover;
  small = p.small;
  counted = omega (arith, p.counted);
}

enter_client-IsPhase :
    (memory : Memory) (i : ℕ) (table : List Client) (x : Indexes)
    → i ≤ 2 ^ 20
    → x.ok ≡ true
    → IsPhase table i i i x
    → IsPhase table (i + 1) (i + 1) (i + 1) (enter_client memory i (get_or table i no_client) x)
enter_client-IsPhase memory i table x few ok p =
    let c : Client = get_or table i no_client in
    let (p1, p2, p3) = p.parts ok in
    let a : Indexes = enter by_ip memory (4 + 5 * i) i c x in
    let b : Indexes = enter by_id memory (7 + 5 * i) i c a in
    let d : Indexes = enter by_addr memory (8 + 5 * i) i c b in
    let ra = slot-Part by_ip memory (4 + 5 * i) i table c x.ip few refl p1 in
    let rb = slot-Part by_id memory (7 + 5 * i) i table c x.id few refl p2 in
    let rd = slot-Part by_addr memory (8 + 5 * i) i table c x.addr few refl p3 in
    let P : Indexes → Type 0 = IsPhase table (i + 1) (i + 1) (i + 1) in
    if_elim P (not c.active) x _
      (λ off.
        let e : c.active ≡ false = ground (arith, off) in
        record {
          small = p.small;
          parts = λ _. (
            pass-Part by_ip i table x.ip e p1,
            pass-Part by_id i table x.id e p2,
            pass-Part by_addr i table x.addr e p3,
          );
        })
      (λ on.
        if_elim P a.ok (if b.ok then d else b) a
          (λ ok_a.
            if_elim P b.ok d b
              (λ ok_b. record {
                small = (ra.0, rb.0, rd.0);
                parts = λ ok_d. (ra.1 ok_a, rb.1 ok_b, rd.1 ok_d);
              })
              (λ bad. record {
                small = (ra.0, rb.0, p.small.2);
                parts = λ k. absurd (cc (sym bad ∙ k));
              }))
          (λ bad. record {
            small = (ra.0, p.small.1, p.small.2);
            parts = λ k. absurd (cc (sym bad ∙ k));
          }))

pub enter_clients-IsPhase :
    (memory : Memory) (table : List Client) (rounds i n : ℕ) (x : Indexes)
    → i + rounds ≡ n
    → n ≤ 2 ^ 20
    → IsPhase table i i i x
    → IsPhase table n n n (enter_clients memory table rounds i x)
unfolding enter_clients
enter_clients-IsPhase memory table zero i n x e few p =
    let same : i ≡ n = omega (arith, e) in rw (← same) p
enter_clients-IsPhase memory table (suc rounds) i n x e few p =
    let y : Indexes = enter_client memory i (get_or table i no_client) x in
    if_elim (IsPhase table n n n) x.ok (enter_clients memory table rounds (i + 1) y) x
      (λ ok.
        enter_clients-IsPhase memory table rounds (i + 1) n y (omega (arith, e)) few
          (enter_client-IsPhase memory i table x (omega (arith, e)) ok p))
      (λ bad. record { small = p.small; parts = λ k. absurd (cc (sym bad ∙ k)) })
