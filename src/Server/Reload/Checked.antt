-- ===== src/Server/Reload/Checked.antt =====
-- After a reload the checks leave only entries that the new configuration allows.
use camex.Base.{
  ℕ, zero, suc, ◌+◌, ◌<◌, ◌≡◌, ◌≢◌, refl, sym, ap, ◌∙◌, ◌⊎◌, inl, inr, Bool, true, false, not, ◌&&◌,
  ◌||◌, ◌==◌, if_elim, if◌then◌else◌, [], arith, ℕ_discrete, yes, no, get_or-set_self,
  get_or-set_ne, length-set, Bool-cases,
}
use camex.Session.Transport.{wiped}
use camex.Server.Leases.{Memory, Clock, is_empty}
use camex.Server.Clients.{Client, no_client, max_clients, put_client}
use camex.Server.Clients.Set.{drop_entry}
use camex.Server.Entries.{Config, Server, entry, end_client}
use camex.Server.Entries.Expire.{end_client-other, end_client_self, end_client-max}
use camex.Server.Reload.{
  sweep, over_all, drop_at, key_allowed, check_key, revalidate_keys, foreign, withdraw,
  check_address, revalidate_profile_addresses, is_empty-nil, nil-is_empty,
}

-- A step that settles its own entry and leaves the others alone.
pub record IsStep (P : Client → Type 0) (k : ℕ) (s t : Server) : Type 0 where
  pub self : k < max_clients s.clients → P (entry t k)
  pub others : (j : ℕ) → k ≢ j → entry t j ≡ entry s j
  pub same_max : max_clients t.clients ≡ max_clients s.clients

module _ (P : Client → Type 0) (step : ℕ → Server → Server)
    (settles : (k : ℕ) (s : Server) → IsStep P k s (step k s)) where
  here : (t : Server) {k i : ℕ} → k ≡ i → P (entry t k) → P (entry t i)
  here t q c = rw (← q) c

  sweep-all :
      (rounds k : ℕ) (s : Server)
      → k + rounds ≡ max_clients s.clients
      → ((j : ℕ) → j < k → P (entry s j))
      → (j : ℕ) → j < max_clients s.clients
      → P (entry (sweep step rounds k s) j)
  unfolding sweep
  sweep-all zero k s e done j l = done j (omega (arith, e, l))
  sweep-all (suc rounds) k s e done j l =
      let r : IsStep P k s (step k s) = settles k s in
      sweep-all rounds (k + 1) (step k s) (omega (arith, e, r.same_max))
        (λ i u. elim (ℕ_discrete k i) [
          | yes q ↦ here (step k s) q (r.self (omega (arith, e)))
          | no n ↦ rw (r.others i n) (done i (ground (arith, u, n)))
        ])
        j (omega (arith, l, r.same_max))

  -- The loop settles every entry.
  pub over_all-settled :
      (s : Server) (j : ℕ) → j < max_clients s.clients → P (entry (over_all step s) j)
  over_all-settled s j l =
      sweep-all (max_clients s.clients) 0 s (omega arith) (λ i u. absurd (omega (arith, u))) j l

-- What no step changes, the loop does not change.
sweep-kept :
    (step : ℕ → Server → Server) (c : Client) (j : ℕ)
    → ((k : ℕ) (t : Server) → entry t j ≡ c → entry (step k t) j ≡ c)
    → (rounds k : ℕ) (s : Server) → entry s j ≡ c
    → entry (sweep step rounds k s) j ≡ c
unfolding sweep
sweep-kept step c j keeps zero k s e = e
sweep-kept step c j keeps (suc rounds) k s e =
    sweep-kept step c j keeps rounds (k + 1) (step k s) (keeps k s e)

same-IsStep : (P : Client → Type 0) (k : ℕ) (s : Server) → P (entry s k) → IsStep P k s s
same-IsStep P k s p = record { self = λ _. p; others = λ j n. refl; same_max = refl }

ended-IsStep :
    (P : Client → Type 0) (memory : ℕ → Memory) (g : Config) (clock : Clock) (k : ℕ) (s : Server)
    → P no_client
    → IsStep P k s (end_client memory g clock k s)
ended-IsStep P memory g clock k s p = record {
  self = λ l. rw (end_client_self memory g clock k s l) p;
  others = λ j n. end_client-other memory g clock k j s n;
  same_max = end_client-max memory g clock k s;
}

-- The right of a client to its key: the key is in the keystore, and it is the global one, for a
-- client without an ID, or else the client's own, or one without an owner, for a client that owns no key.
pub record IsRightful (g : Config) (c : Client) : Type 0 where
  pub known : g.key_contains c.psk_key ≡ true
  pub unnamed : c.id ≡ [] → g.key_global c.psk_key ≡ true
  pub named :
      c.id ≢ []
      → (g.key_owned_by c.psk_key c.id ≡ true)
        ⊎ ((g.key_owner c.psk_key ≡ []) × (g.has_owner c.id ≡ false))

abbrev pub KeyAllowed : Config → Client → Type 0
KeyAllowed g c = c.active ≡ true → c.registered ≡ true → IsRightful g c

key_allowed-IsRightful : (g : Config) (c : Client) → key_allowed g c ≡ true → IsRightful g c
unfolding key_allowed
key_allowed-IsRightful g c e = record {
  known = ground (arith, e);
  unnamed = λ n. ground (arith, e, nil-is_empty c.id n);
  named = λ n. elim (Bool-cases (is_empty c.id)) [
    | inl t ↦ absurd (n (is_empty-nil c.id t))
    | inr f ↦ elim (Bool-cases (g.key_owned_by c.psk_key c.id)) [
      | inl own ↦ inl own
      | inr other ↦ inr (
        is_empty-nil (g.key_owner c.psk_key) (ground (arith, e, f, other)),
        ground (arith, e, f, other),
      )
    ]
  ];
}

IsRightful-key_allowed : (g : Config) (c : Client) → IsRightful g c → key_allowed g c ≡ true
unfolding key_allowed
IsRightful-key_allowed g c r = elim (Bool-cases (is_empty c.id)) [
  | inl t ↦ ground (arith, t, r.known, r.unnamed (is_empty-nil c.id t))
  | inr f ↦ elim (r.named (λ n. absurd (cc (sym f ∙ nil-is_empty c.id n)))) [
    | inl own ↦ ground (arith, f, r.known, own)
    | inr (o, h) ↦ ground (arith, f, r.known, nil-is_empty (g.key_owner c.psk_key) o, h)
  ]
]

pub check_key-IsStep :
    (memory : ℕ → ℕ → Memory) (g : Config) (clock : Clock) (k : ℕ) (s : Server)
    → IsStep (KeyAllowed g) k s (check_key memory g clock k s)
unfolding check_key
check_key-IsStep memory g clock k s =
    let c : Client = entry s k in
    let P : Server → Type 0 = IsStep (KeyAllowed g) k s in
    if_elim P (not c.active || not c.registered) s _
      (λ off. same-IsStep (KeyAllowed g) k s (λ a r. absurd (ground (arith, off, a, r))))
      (λ _.
        if_elim P (key_allowed g c) s (end_client (memory k) g clock k s)
          (λ ok. same-IsStep (KeyAllowed g) k s (λ a r. key_allowed-IsRightful g c ok))
          (λ _. ended-IsStep (KeyAllowed g) (memory k) g clock k s (λ a. absurd (cc a))))

check_key-same :
    (memory : ℕ → ℕ → Memory) (g : Config) (clock : Clock) (k : ℕ) (s : Server)
    → ((entry s k).active ≡ true → (entry s k).registered ≡ true → key_allowed g (entry s k) ≡ true)
    → check_key memory g clock k s ≡ s
unfolding check_key
check_key-same memory g clock k s right =
    let c : Client = entry s k in
    let ended : Server = end_client (memory k) g clock k s in
    if_elim (λ t. t ≡ s) (not c.active || not c.registered) s (if key_allowed g c then s else ended)
      (λ _. refl)
      (λ on.
        if_elim (λ t. t ≡ s) (key_allowed g c) s ended (λ _. refl)
          (λ f. absurd (cc (sym f ∙ right (ground (arith, on)) (ground (arith, on))))))

check_key-kept :
    (memory : ℕ → ℕ → Memory) (g : Config) (clock : Clock) (c : Client) (j k : ℕ) (s : Server)
    → KeyAllowed g c
    → entry s j ≡ c
    → entry (check_key memory g clock k s) j ≡ c
check_key-kept memory g clock c j k s right e = elim (ℕ_discrete k j) [
  | no n ↦ (check_key-IsStep memory g clock k s).others j n ∙ e
  | yes q ↦ ap (λ t. entry t j) (unchanged q) ∙ e
]
  where
    allowed :
        k ≡ j
        → (entry s k).active ≡ true
        → (entry s k).registered ≡ true
        → key_allowed g (entry s k) ≡ true
    allowed q a r =
        let same : entry s k ≡ c = ap (entry s) q ∙ e in
        IsRightful-key_allowed g (entry s k) (
          rw same
            (right (ap (λ x. x.active) (sym same) ∙ a) (ap (λ x. x.registered) (sym same) ∙ r)))

    unchanged : k ≡ j → check_key memory g clock k s ≡ s
    unchanged q = check_key-same memory g clock k s (allowed q)

-- A reload's check of the keys leaves an entry as it was when it is not that of a registered client or
-- the client has a right to its key, and afterwards every active registered entry is that of a client
-- with a right to its key: the key is in the keystore, and it is a global one, for a client without an
-- ID, or else the client's own, or one without an owner, for a client that owns no key.
pub revalidate_keys-Allowed :
    (memory : ℕ → ℕ → Memory) (g : Config) (clock : Clock) (s : Server) (k : ℕ)
    → k < max_clients s.clients
    → KeyAllowed g (entry (revalidate_keys memory g clock s) k)
      × (KeyAllowed g (entry s k) → entry (revalidate_keys memory g clock s) k ≡ entry s k)
unfolding revalidate_keys
revalidate_keys-Allowed memory g clock s k l = (
  over_all-settled (KeyAllowed g) (check_key memory g clock) (check_key-IsStep memory g clock) s k
      l,
  λ right.
      sweep-kept (check_key memory g clock) (entry s k) k
        (λ i t e. check_key-kept memory g clock (entry s k) k i t right e) (max_clients s.clients) 0
        s refl,
)

-- No registered entry holds or was offered the address of another client's profile; a manual client
-- without an ID may hold one.
pub record IsOwnAddress (g : Config) (c : Client) : Type 0 where
  pub offer :
      c.active ≡ true
      → c.registered ≡ true
      → (c.pending_ip ≡ 0) ⊎ (foreign (g.owner_of_ip c.pending_ip) c.id ≡ false)
  pub current :
      c.active ≡ true
      → c.registered ≡ true
      → (foreign (g.owner_of_ip c.ip) c.id ≡ false)
        ⊎ ((c.auto_client ≡ false) × (is_empty c.id ≡ true))

offer_left :
    (g : Config) (c : Client)
    → (((withdraw g c).pending_ip ≡ 0)
        ⊎ (foreign (g.owner_of_ip (withdraw g c).pending_ip) (withdraw g c).id ≡ false))
      × ((withdraw g c).ip ≡ c.ip)
      × ((withdraw g c).id ≡ c.id)
      × ((withdraw g c).auto_client ≡ c.auto_client)
unfolding withdraw
offer_left g c =
    let test : Bool = not (c.pending_ip == 0) && foreign (g.owner_of_ip c.pending_ip) c.id in
    if_elim
      (λ d.
        ((d.pending_ip ≡ 0) ⊎ (foreign (g.owner_of_ip d.pending_ip) d.id ≡ false))
        × (d.ip ≡ c.ip)
        × (d.id ≡ c.id)
        × (d.auto_client ≡ c.auto_client))
      test (record c { pending_ip = 0; next = wiped }) c (λ _. (inl refl, refl, refl, refl))
      (λ f. (none_left f, refl, refl, refl))
  where
    none_left :
        (not (c.pending_ip == 0) && foreign (g.owner_of_ip c.pending_ip) c.id) ≡ false
        → (c.pending_ip ≡ 0) ⊎ (foreign (g.owner_of_ip c.pending_ip) c.id ≡ false)
    none_left f = elim (Bool-cases (c.pending_ip == 0)) [
      | inl z ↦ inl (ground (arith, z))
      | inr n ↦ inr (ground (arith, f, n))
    ]

blank-IsOwnAddress : (g : Config) (c : Client) → c.active ≡ false → IsOwnAddress g c
blank-IsOwnAddress g c e = record {
  offer = λ a. absurd (cc (sym e ∙ a));
  current = λ a. absurd (cc (sym e ∙ a));
}

pub check_address-IsStep :
    (g : Config) (k : ℕ) (s : Server) → IsStep (IsOwnAddress g) k s (check_address g k s)
unfolding check_address drop_entry
check_address-IsStep g k s =
    let c : Client = entry s k in
    let d : Client = withdraw g c in
    let t : Server = record s { clients = put_client k d s.clients } in
    let P : Server → Type 0 = IsStep (IsOwnAddress g) k s in
    let len : max_clients t.clients ≡ max_clients s.clients = length-set s.clients.table k d in
    let (left, ip, id, auto) = offer_left g c in
    if_elim P (not c.active || not c.registered) s _
      (λ off. same-IsStep (IsOwnAddress g) k s (record {
        offer = λ a r. absurd (ground (arith, off, a, r));
        current = λ a r. absurd (ground (arith, off, a, r));
      }))
      (λ _.
        if_elim P (not (foreign (g.owner_of_ip c.ip) c.id) || (not c.auto_client && is_empty c.id))
          t (drop_at k t)
          (λ ok. record {
            self = λ l.
                rw (get_or-set_self s.clients.table k d no_client l) (record {
                  offer = λ _ _. left;
                  current = λ _ _. rw (ip, id, auto) (may_stay ok);
                });
            others = λ j n. get_or-set_ne s.clients.table k j d no_client n;
            same_max = len;
          })
          (λ _. record {
            self = λ l. blank-IsOwnAddress g (entry (drop_at k t) k) (
                ap (λ x. x.active)
                  (get_or-set_self t.clients.table k no_client no_client (omega (arith, l, len))));
            others = λ j n.
                get_or-set_ne t.clients.table k j no_client no_client n
                ∙ get_or-set_ne s.clients.table k j d no_client n;
            same_max = length-set t.clients.table k no_client ∙ len;
          }))
  where
    may_stay :
        (not (foreign (g.owner_of_ip (entry s k).ip) (entry s k).id)
            || (not (entry s k).auto_client && is_empty (entry s k).id))
          ≡ true
        → (foreign (g.owner_of_ip (entry s k).ip) (entry s k).id ≡ false)
          ⊎ (((entry s k).auto_client ≡ false) × (is_empty (entry s k).id ≡ true))
    may_stay ok = elim (Bool-cases (foreign (g.owner_of_ip (entry s k).ip) (entry s k).id)) [
      | inl f ↦ inr (ground (arith, ok, f), ground (arith, ok, f))
      | inr n ↦ inl n
    ]

-- After a reload has checked the addresses, no active registered entry was offered or holds the address
-- of another client's profile, but a manual client without an ID may keep one.
pub revalidate_profile_addresses-IsOwnAddress :
    (g : Config) (s : Server) (k : ℕ)
    → k < max_clients s.clients
    → IsOwnAddress g (entry (revalidate_profile_addresses g s) k)
unfolding revalidate_profile_addresses
revalidate_profile_addresses-IsOwnAddress g s k l =
    over_all-settled (IsOwnAddress g) (check_address g) (check_address-IsStep g) s k l
