-- ===== src/Server/Clients/Keys.antt =====
-- The addresses an entry is entered under: current, pending, and of a valid previous session.
use camex.Base.{
  ℕ, ◌≡◌, ◌≢◌, refl, sym, ap, ◌∙◌, ◌⊎◌, inl, inr, Bool, true, false, not, ◌&&◌, List, [], ◌∷◌, ◌++◌,
  ◌==◌, arith,
}
use camex.Slotidx.{hash_u32, hash_nocase}
use camex.Server.Leases.{is_empty}
use camex.Server.Clients.{
  Addr, hash_addr, addr_is_set, Client, no_client, by_ip, by_id, by_addr, keys_of, key_if,
}
use camex.Server.Clients.Indexed.{In}
use camex.Server.Clients.Add.{KeysBut, KeysOf}
use camex.Server.Clients.Find.{In-append, In-key_if}

abbrev pub IpKey : Client → ℕ → Type 0
IpKey c h =
    ((c.ip ≢ 0) × (h ≡ hash_u32 c.ip))
    ⊎ (((c.pending_ip ≢ 0) × (h ≡ hash_u32 c.pending_ip))
        ⊎ ((c.prev.valid ≡ true) × (c.prev_ip ≢ 0) × (h ≡ hash_u32 c.prev_ip)))

append-In : (h : ℕ) (xs ys : List ℕ) → In h (xs ++ ys) → In h xs ⊎ In h ys
append-In h [] ys m = inr m
append-In h (x ∷ xs) ys (inl e) = inl (inl e)
append-In h (x ∷ xs) ys (inr m) = elim (append-In h xs ys m) [ inl a ↦ inl (inr a) | inr b ↦ inr b ]

key_if-In : (b : Bool) (g h : ℕ) → In h (key_if b g) → (b ≡ true) × (h ≡ g)
key_if-In true g h (inl e) = (refl, e)
key_if-In true g h (inr z) = absurd z
key_if-In false g h z = absurd z

In-key : (b : Bool) (g h : ℕ) → b ≡ true → h ≡ g → In h (key_if b g)
In-key b g h t e = rw e (In-key_if b g t)

not_zero : (a : ℕ) → not (a == 0) ≡ true → a ≢ 0
not_zero a h e = ground (arith, h, e)

is_set : (a : ℕ) → a ≢ 0 → not (a == 0) ≡ true
is_set a p = ground (arith, p)

pub In→IpKey : (c : Client) (h : ℕ) → In h (keys_of by_ip c) → IpKey c h
unfolding keys_of
In→IpKey c h m =
    let a : List ℕ = key_if (not (c.ip == 0)) (hash_u32 c.ip) in
    let b : List ℕ = key_if (not (c.pending_ip == 0)) (hash_u32 c.pending_ip) in
    let d : List ℕ = key_if (c.prev.valid && not (c.prev_ip == 0)) (hash_u32 c.prev_ip) in
    elim (append-In h (a ++ b) d m) [
      | inl ab ↦ elim (append-In h a b ab) [
        | inl i ↦
            let (t, e) = key_if-In (not (c.ip == 0)) (hash_u32 c.ip) h i in inl (not_zero c.ip t, e)
        | inr i ↦
            let (t, e) = key_if-In (not (c.pending_ip == 0)) (hash_u32 c.pending_ip) h i in
            inr (inl (not_zero c.pending_ip t, e))
      ]
      | inr i ↦
          let (t, e) = key_if-In (c.prev.valid && not (c.prev_ip == 0)) (hash_u32 c.prev_ip) h i in
          inr (inr (ground (arith, t), ground (arith, t), e))
    ]

pub IpKey→In : (c : Client) (h : ℕ) → IpKey c h → In h (keys_of by_ip c)
unfolding keys_of
IpKey→In c h k =
    let a : List ℕ = key_if (not (c.ip == 0)) (hash_u32 c.ip) in
    let b : List ℕ = key_if (not (c.pending_ip == 0)) (hash_u32 c.pending_ip) in
    let d : List ℕ = key_if (c.prev.valid && not (c.prev_ip == 0)) (hash_u32 c.prev_ip) in
    elim k [
      | inl (p, e) ↦ In-append h (a ++ b) d (
          inl
            (In-append h a b (inl (In-key (not (c.ip == 0)) (hash_u32 c.ip) h (is_set c.ip p) e))))
      | inr (inl (p, e)) ↦ In-append h (a ++ b) d (
          inl (
            In-append h a b (
              inr (
                In-key (not (c.pending_ip == 0)) (hash_u32 c.pending_ip) h (is_set c.pending_ip p)
                  e))))
      | inr (inr (v, p, e)) ↦ In-append h (a ++ b) d (
          inr (
            In-key (c.prev.valid && not (c.prev_ip == 0)) (hash_u32 c.prev_ip) h
              (ground (arith, v, p)) e))
    ]

-- Entries of the same peer, ID and activity compare by their addresses.
pub ip-KeysBut :
    (h : ℕ) (old c : Client)
    → c.active ≡ old.active
    → c.id ≡ old.id
    → c.addr ≡ old.addr
    → ((k : ℕ) → IpKey c k → (k ≡ h) ⊎ IpKey old k)
    → KeysBut by_ip h old c
unfolding keys_of
ip-KeysBut h old c a i d m by_ip k on q = elim (m k (In→IpKey c k q)) [
  | inl new ↦ inl (refl, new)
  | inr o ↦ inr (sym a ∙ on, IpKey→In old k o)
]
ip-KeysBut h old c a i d m by_id k on q =
    inr (sym a ∙ on, rw (← ap (λ x. key_if (not (is_empty x)) (hash_nocase x)) i) q)
ip-KeysBut h old c a i d m by_addr k on q =
    inr (sym a ∙ on, rw (← ap (λ x. key_if (addr_is_set x) (hash_addr x)) d) q)

pub ip-KeysOf :
    (old c : Client)
    → c.active ≡ old.active
    → c.id ≡ old.id
    → c.addr ≡ old.addr
    → ((k : ℕ) → IpKey c k → IpKey old k)
    → KeysOf old c
unfolding keys_of
ip-KeysOf old c a i d m by_ip k on q = (sym a ∙ on, IpKey→In old k (m k (In→IpKey c k q)))
ip-KeysOf old c a i d m by_id k on q =
    (sym a ∙ on, rw (← ap (λ x. key_if (not (is_empty x)) (hash_nocase x)) i) q)
ip-KeysOf old c a i d m by_addr k on q =
    (sym a ∙ on, rw (← ap (λ x. key_if (addr_is_set x) (hash_addr x)) d) q)

pub id-KeysBut :
    (old : Client) (id : List ℕ) → KeysBut by_id (hash_nocase id) old (record old { id = id })
unfolding keys_of
id-KeysBut old id by_ip k on q = inr (on, q)
id-KeysBut old id by_id k on q =
    let (t, e) = key_if-In (not (is_empty id)) (hash_nocase id) k q in inl (refl, e)
id-KeysBut old id by_addr k on q = inr (on, q)

pub addr-KeysBut :
    (old : Client) (addr : Addr) → KeysBut by_addr (hash_addr addr) old (record old { addr = addr })
unfolding keys_of
addr-KeysBut old addr by_ip k on q = inr (on, q)
addr-KeysBut old addr by_id k on q = inr (on, q)
addr-KeysBut old addr by_addr k on q =
    let (t, e) = key_if-In (addr_is_set addr) (hash_addr addr) k q in inl (refl, e)

-- An entry without any key.
pub blank-KeysOf : (old : Client) (on : Bool) → KeysOf old (record no_client { active = on })
unfolding keys_of addr_is_set
blank-KeysOf old on by_ip k a q = absurd q
blank-KeysOf old on by_id k a q = absurd q
blank-KeysOf old on by_addr k a q = absurd q

-- An entry that loses its ID or its peer address.
pub no_id-KeysOf :
    (old : Client) (id : List ℕ) → is_empty id ≡ true → KeysOf old (record old { id = id })
unfolding keys_of
no_id-KeysOf old id e by_ip k on q = (on, q)
no_id-KeysOf old id e by_id k on q =
    let (t, same) = key_if-In (not (is_empty id)) (hash_nocase id) k q in
    absurd (ground (arith, t, e))
no_id-KeysOf old id e by_addr k on q = (on, q)

pub no_addr-KeysOf :
    (old : Client) (addr : Addr)
    → addr_is_set addr ≡ false
    → KeysOf old (record old { addr = addr })
unfolding keys_of
no_addr-KeysOf old addr e by_ip k on q = (on, q)
no_addr-KeysOf old addr e by_id k on q = (on, q)
no_addr-KeysOf old addr e by_addr k on q =
    let (t, same) = key_if-In (addr_is_set addr) (hash_addr addr) k q in absurd (cc (sym t ∙ e))
