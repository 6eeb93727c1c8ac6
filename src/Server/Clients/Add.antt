-- ===== src/Server/Clients/Add.antt =====
-- Entries that change: keys that go need nothing, and a new key is entered by `server_index_add`.
use camex.Base.{
  ℕ, ◌^◌, ◌≤◌, ◌<◌, ◌≡◌, ◌≢◌, sym, ap, ◌∙◌, ◌⊎◌, inl, inr, true, length, get_or, set, arith,
  length-set, get_or-set_self, get_or-set_ne, ℕ_discrete, yes, no,
}
use camex.Slotidx.Cover.{Keys, IsCover, IsCover-fewer, IsSmall}
use camex.Server.Clients.{
  Client, no_client, Which, by_ip, by_id, by_addr, index_of, Clients, client_at, max_clients,
  put_client, keys_of,
}
use camex.Server.Clients.Indexed.{In, client_keys}
use camex.Server.Clients.Resets.{IsTabled}

-- All that `c` is entered under, `old` is, but perhaps `h` in the index `v`.
abbrev pub KeysBut : Which → ℕ → Client → Client → Type 0
KeysBut v h old c =
    (w : Which) (k : ℕ)
    → c.active ≡ true
    → In k (keys_of w c)
    → ((w ≡ v) × (k ≡ h)) ⊎ ((old.active ≡ true) × In k (keys_of w old))

abbrev pub KeysOf : Client → Client → Type 0
KeysOf old c =
    (w : Which) (k : ℕ)
    → c.active ≡ true
    → In k (keys_of w c)
    → (old.active ≡ true) × In k (keys_of w old)

-- A table whose indexes may lack the key `h` of slot `k` in the index `v`.
abbrev pub Lacking : Which → ℕ → ℕ → Clients → Which → Keys
Lacking v h k s w slot g =
    ((w ≡ v) × (slot ≡ k) × (g ≡ h) → ⊥) × client_keys w s.table (max_clients s) slot g

pub record IsLacking (v : Which) (h k : ℕ) (s : Clients) : Type 0 where
  pub few : max_clients s ≤ 2 ^ 20
  pub inside : k < max_clients s
  pub small_ip : IsSmall s.indexes.ip
  pub small_id : IsSmall s.indexes.id
  pub small_addr : IsSmall s.indexes.addr
  pub covers :
      s.indexes.ok ≡ true → (w : Which) → IsCover (Lacking v h k s w) (index_of w s.indexes)

-- Every key of the changed table is one of the old table, or the new one.
changed :
    (v w : Which) (h k slot g : ℕ) (c : Client) (s : Clients)
    → KeysBut v h (client_at s k) c
    → k < max_clients s
    → client_keys w (put_client k c s).table (max_clients (put_client k c s)) slot g
    → ((w ≡ v) × (slot ≡ k) × (g ≡ h)) ⊎ client_keys w s.table (max_clients s) slot g
changed v w h k slot g c s keys l (u, a, m) =
    let len : length (set s.table k c) ≡ max_clients s = length-set s.table k c in
    elim (ℕ_discrete k slot) [
      | yes e ↦
          let its : get_or (set s.table k c) slot no_client ≡ c =
            ap (λ n. get_or (set s.table k c) n no_client) (sym e)
            ∙ get_or-set_self s.table k c no_client l in
          let on : c.active ≡ true = sym (ap (λ x. x.active) its) ∙ a in
          elim (keys w g on (in_same its m)) [
            | inl (p, q) ↦ inl (p, sym e, q)
            | inr (p, q) ↦ inr (
              omega (arith, u, len),
              ap (λ n. (client_at s n).active) (sym e) ∙ p,
              in_same (ap (λ n. client_at s n) e) q,
            )
          ]
      | no n ↦
          let its : get_or (set s.table k c) slot no_client ≡ client_at s slot =
            get_or-set_ne s.table k slot c no_client n in
          inr (omega (arith, u, len), sym (ap (λ x. x.active) its) ∙ a, in_same its m)
    ]
  where
    in_same : {a b : Client} → a ≡ b → In g (keys_of w a) → In g (keys_of w b)
    in_same q m = rw (← q) m

pub put_client-IsLacking :
    (v : Which) (h k : ℕ) (c : Client) (s : Clients)
    → IsTabled s
    → k < max_clients s
    → KeysBut v h (client_at s k) c
    → IsLacking v h k (put_client k c s)
put_client-IsLacking v h k c s t l keys = record {
  few = omega (arith, t.few, length-set s.table k c);
  inside = omega (arith, l, length-set s.table k c);
  small_ip = t.small_ip;
  small_id = t.small_id;
  small_addr = t.small_addr;
  covers = λ ok w.
      IsCover-fewer _ (Lacking v h k (put_client k c s) w) (index_of w s.indexes) (t.covers ok w)
        (λ slot g (n, m). elim (changed v w h k slot g c s keys l m) [
          | inl new ↦ absurd (n new)
          | inr old ↦ old
        ]);
}

-- An entry that only gives up keys.
pub put_client-IsTabled :
    (k : ℕ) (c : Client) (s : Clients)
    → IsTabled s
    → k < max_clients s
    → KeysOf (client_at s k) c
    → IsTabled (put_client k c s)
put_client-IsTabled k c s t l keys = record {
  few = omega (arith, t.few, length-set s.table k c);
  small_ip = t.small_ip;
  small_id = t.small_id;
  small_addr = t.small_addr;
  covers = λ ok w. IsCover-fewer _ _ (index_of w s.indexes) (t.covers ok w) (λ slot g m.
      elim (changed (other w) w 0 k slot g c s (λ v n a i. inr (keys v n a i)) l m) [
        | inl (e, q, r) ↦ absurd (other-ne w e)
        | inr old ↦ old
      ]);
}
  where
    other : Which → Which
    other by_ip = by_id
    other by_id = by_ip
    other by_addr = by_ip

    other-ne : (w : Which) → w ≢ other w
    other-ne by_ip e = cc e
    other-ne by_id e = cc e
    other-ne by_addr e = cc e
