-- ===== src/Server/Entries/Expire.antt =====
-- `server_expire_clients`: what is left after it is current.
use camex.Base.{
  ℕ, zero, suc, ◌+◌, ◌≤◌, ◌<◌, ◌≡◌, ◌≢◌, refl, sym, ap, ◌∙◌, ◌⊎◌, inl, inr, Option, none, some,
  Bool-cases, true, false, not, ◌&&◌, ltb, ◌==◌, if◌then◌else◌, if_elim, arith, if_true, if_false,
  ℕ_discrete, yes, no, get_or-set_self, get_or-set_ne, length-set,
}
use camex.Session.Transport.{wiped}
use camex.Server.Leases.{Memory, Clock}
use camex.Server.Leases.Add.{moment}
use camex.Server.Clients.{Client, Clients, no_client, client_at, max_clients, put_client}
use camex.Server.Clients.Set.{drop_entry, expire_sessions, prev_grace}
use camex.Server.Entries.{
  Config, Server, entry, end_client, preauth_timeout, overdue, expire_client, expire_from,
  expire_clients,
}

-- The time in which an entry has to be heard: ten seconds from its acceptance for a connection that
-- has not registered, and the client timeout from its last packet for any other entry.
pub data InTime (clock : Clock) (c : Client) : Type 0 where
  waiting :
      (fd : ℕ)
      → c.tcp_fd ≡ some fd
      → c.registered ≡ false
      → moment clock ≤ c.connected_at + 10
      → InTime clock c
  heard_by :
      (c.tcp_fd ≡ none) ⊎ (c.registered ≡ true)
      → moment clock ≤ c.last_seen + clock.timeout
      → InTime clock c

-- The same by the value of `tcp_fd`.
in_time :
    (clock : Clock) (c : Client) (fd : Option ℕ)
    → c.tcp_fd ≡ fd
    → overdue clock c ≡ false
    → InTime clock c
unfolding overdue
in_time clock c none e f = heard_by (inl e) (silent_for c.tcp_fd e f)
  where
    silent_for :
        (fd : Option ℕ)
        → fd ≡ none
        → (if elim fd [ none ↦ false | some n ↦ true ] && not c.registered
            then ltb (c.connected_at + preauth_timeout) (moment clock)
            else ltb (c.last_seen + clock.timeout) (moment clock))
          ≡ false
        → moment clock ≤ c.last_seen + clock.timeout
    silent_for none e f = ground (arith, f)
    silent_for (some n) e f = absurd (cc e)
in_time clock c (some fd) e f = elim (Bool-cases c.registered) [
  | inl r ↦ heard_by (inr r) (silent_for c.tcp_fd r f)
  | inr r ↦ waiting fd e r (unregistered c.tcp_fd e r f)
]
  where
    silent_for :
        (o : Option ℕ)
        → c.registered ≡ true
        → (if elim o [ none ↦ false | some n ↦ true ] && not c.registered
            then ltb (c.connected_at + preauth_timeout) (moment clock)
            else ltb (c.last_seen + clock.timeout) (moment clock))
          ≡ false
        → moment clock ≤ c.last_seen + clock.timeout
    silent_for none r f = ground (arith, f)
    silent_for (some n) r f = ground (arith, r, f)

    unregistered :
        (o : Option ℕ)
        → o ≡ some fd
        → c.registered ≡ false
        → (if elim o [ none ↦ false | some n ↦ true ] && not c.registered
            then ltb (c.connected_at + preauth_timeout) (moment clock)
            else ltb (c.last_seen + clock.timeout) (moment clock))
          ≡ false
        → moment clock ≤ c.connected_at + 10
    unregistered none e r f = absurd (cc e)
    unregistered (some n) e r f = ground (arith, r, f)

-- An entry that stays: heard from in time, its previous session within its time, and an unconfirmed one
-- young enough to be confirmed.
pub record IsCurrent (clock : Clock) (c : Client) : Type 0 where
  pub heard : c.active ≡ true → InTime clock c
  pub previous : c.active ≡ true → c.prev.valid ≡ true → moment clock ≤ c.prev_until
  pub unconfirmed :
      c.active ≡ true → c.next.valid ≡ true → moment clock ≤ c.next.created + prev_grace

-- The sessions of an entry that are kept.
abbrev fresh_prev : ℕ → Client → Client
fresh_prev now c =
    if c.prev.valid && ltb c.prev_until now then record c { prev = wiped; prev_ip = 0 } else c

abbrev fresh_next : ℕ → Client → Client
fresh_next now a =
    if a.next.valid && ltb (a.next.created + prev_grace) now
    then record a { next = wiped; pending_ip = 0 }
    else a

-- What an expiry of sessions leaves alone.
record IsSame (clock : Clock) (c d : Client) : Type 0 where
  active : d.active ≡ c.active
  overdue_same : overdue clock d ≡ overdue clock c
  prev_valid : d.prev.valid ≡ true → moment clock ≤ d.prev_until
  next_valid : d.next.valid ≡ true → moment clock ≤ d.next.created + prev_grace

fresh_next-IsSame :
    (clock : Clock) (c a : Client)
    → a.active ≡ c.active
    → overdue clock a ≡ overdue clock c
    → (a.prev.valid ≡ true → moment clock ≤ a.prev_until)
    → IsSame clock c (fresh_next (moment clock) a)
unfolding overdue
fresh_next-IsSame clock c a e o p =
    if_elim (IsSame clock c) (a.next.valid && ltb (a.next.created + prev_grace) (moment clock))
      (record a { next = wiped; pending_ip = 0 }) a
      (λ _. record {
        active = e;
        overdue_same = o;
        prev_valid = p;
        next_valid = λ v. absurd (cc v);
      })
      (λ f. record {
        active = e;
        overdue_same = o;
        prev_valid = p;
        next_valid = λ v. ground (arith, f, v);
      })

fresh-IsSame :
    (clock : Clock) (c : Client)
    → IsSame clock c (fresh_next (moment clock) (fresh_prev (moment clock) c))
unfolding overdue
fresh-IsSame clock c =
    let old : Client = record c { prev = wiped; prev_ip = 0 } in
    if_elim (λ a. IsSame clock c (fresh_next (moment clock) a))
      (c.prev.valid && ltb c.prev_until (moment clock)) old c
      (λ _. fresh_next-IsSame clock c old refl refl (λ v. absurd (cc v)))
      (λ f. fresh_next-IsSame clock c c refl refl (λ v. ground (arith, f, v)))

expire_sessions-at :
    (now k : ℕ) (s : Clients)
    → k < max_clients s
    → (client_at s k).active ≡ true
    → client_at (expire_sessions now k s) k ≡ fresh_next now (fresh_prev now (client_at s k))
unfolding expire_sessions
expire_sessions-at now k s l on =
    let c : Client = client_at s k in
    let b : Client = fresh_next now (fresh_prev now c) in
    ap (λ t. client_at t k) (if_true c.active (put_client k b s) s on)
    ∙ get_or-set_self s.table k b no_client l

expire_sessions-other :
    (now k j : ℕ) (s : Clients) → k ≢ j → client_at (expire_sessions now k s) j ≡ client_at s j
unfolding expire_sessions
expire_sessions-other now k j s n =
    let c : Client = client_at s k in
    let b : Client = fresh_next now (fresh_prev now c) in
    if_elim (λ t. client_at t j ≡ client_at s j) c.active (put_client k b s) s
      (λ _. get_or-set_ne s.table k j b no_client n) (λ _. refl)

expire_sessions-max :
    (now k : ℕ) (s : Clients) → max_clients (expire_sessions now k s) ≡ max_clients s
unfolding expire_sessions
expire_sessions-max now k s =
    let c : Client = client_at s k in
    let b : Client = fresh_next now (fresh_prev now c) in
    if_elim (λ t. max_clients t ≡ max_clients s) c.active (put_client k b s) s
      (λ _. length-set s.table k b) (λ _. refl)

-- The end of an entry touches no other one.
pub end_client-other :
    (memory : ℕ → Memory) (g : Config) (clock : Clock) (k j : ℕ) (s : Server)
    → k ≢ j
    → entry (end_client memory g clock k s) j ≡ entry s j
unfolding end_client drop_entry
end_client-other memory g clock k j s n = get_or-set_ne s.clients.table k j no_client no_client n

pub end_client_self :
    (memory : ℕ → Memory) (g : Config) (clock : Clock) (k : ℕ) (s : Server)
    → k < max_clients s.clients
    → entry (end_client memory g clock k s) k ≡ no_client
unfolding end_client drop_entry
end_client_self memory g clock k s l = get_or-set_self s.clients.table k no_client no_client l

pub end_client-max :
    (memory : ℕ → Memory) (g : Config) (clock : Clock) (k : ℕ) (s : Server)
    → max_clients (end_client memory g clock k s).clients ≡ max_clients s.clients
unfolding end_client drop_entry
end_client-max memory g clock k s = length-set s.clients.table k no_client

-- What one turn of the loop does.
pub record IsTurn (clock : Clock) (k : ℕ) (s t : Server) : Type 0 where
  self : k < max_clients s.clients → IsCurrent clock (entry t k)
  others : (j : ℕ) → k ≢ j → entry t j ≡ entry s j
  pub same_max : max_clients t.clients ≡ max_clients s.clients

idle-IsCurrent : (clock : Clock) (c : Client) → c.active ≡ false → IsCurrent clock c
idle-IsCurrent clock c e = record {
  heard = λ on. absurd (cc (sym e ∙ on));
  previous = λ on. absurd (cc (sym e ∙ on));
  unconfirmed = λ on. absurd (cc (sym e ∙ on));
}

pub expire_client-IsTurn :
    (memory : ℕ → Memory) (g : Config) (clock : Clock) (k : ℕ) (s : Server)
    → IsTurn clock k s (expire_client memory g clock k s)
unfolding expire_client
expire_client-IsTurn memory g clock k s =
    let c : Client = entry s k in
    let now : ℕ = moment clock in
    let t : Server = record s { clients = expire_sessions now k s.clients } in
    let P : Server → Type 0 = IsTurn clock k s in
    let m : max_clients t.clients ≡ max_clients s.clients = expire_sessions-max now k s.clients in
    if_elim P (not c.active) s (if overdue clock c then end_client memory g clock k t else t)
      (λ off. record {
        self = λ l. idle-IsCurrent clock c (ground (arith, off));
        others = λ j n. refl;
        same_max = refl;
      })
      (λ on.
        if_elim P (overdue clock c) (end_client memory g clock k t) t
          (λ _. record {
            self = λ l.
                idle-IsCurrent clock (entry (end_client memory g clock k t) k)
                  (ap (λ x. x.active) (end_client_self memory g clock k t (omega (arith, l, m))));
            others = λ j n.
                end_client-other memory g clock k j t n ∙ expire_sessions-other now k j s.clients n;
            same_max = end_client-max memory g clock k t ∙ m;
          })
          (λ f. record {
            self = λ l.
                let same = fresh-IsSame clock c in
                rw (expire_sessions-at now k s.clients l (ground (arith, on))) (record {
                  heard = λ _. in_time clock _ _ refl (same.overdue_same ∙ f);
                  previous = λ _. same.prev_valid;
                  unconfirmed = λ _. same.next_valid;
                });
            others = λ j n. expire_sessions-other now k j s.clients n;
            same_max = m;
          }))

expire_from-IsCurrent :
    (memory : ℕ → ℕ → Memory) (g : Config) (clock : Clock) (rounds k : ℕ) (s : Server)
    → k + rounds ≡ max_clients s.clients
    → ((j : ℕ) → j < k → IsCurrent clock (entry s j))
    → (j : ℕ) → j < max_clients s.clients
    → IsCurrent clock (entry (expire_from memory g clock rounds k s) j)
unfolding expire_from
expire_from-IsCurrent memory g clock zero k s e done j l = done j (omega (arith, e, l))
expire_from-IsCurrent memory g clock (suc rounds) k s e done j l =
    let t : Server = expire_client (memory k) g clock k s in
    let r : IsTurn clock k s t = expire_client-IsTurn (memory k) g clock k s in
    expire_from-IsCurrent memory g clock rounds (k + 1) t (omega (arith, e, r.same_max))
      (λ i u. elim (ℕ_discrete k i) [
        | yes q ↦ here t q (r.self (omega (arith, e)))
        | no n ↦ rw (r.others i n) (done i (ground (arith, u, n)))
      ])
      j (omega (arith, l, r.same_max))
  where
    here : (t : Server) {i : ℕ} → k ≡ i → IsCurrent clock (entry t k) → IsCurrent clock (entry t i)
    here t q c = rw (← q) c

-- After an expiry that is not a second one at the same time, every active entry was heard from within the
-- time for it, or, on an unregistered connection, was accepted within ten seconds; its previous session,
-- if valid, is within its time; and an unconfirmed session is at most 30 seconds old.
pub expire_clients-IsCurrent :
    (memory : ℕ → ℕ → Memory) (g : Config) (clock : Clock) (s : Server) (k : ℕ)
    → moment clock ≢ s.last_expire_check
    → k < max_clients s.clients
    → IsCurrent clock (entry (expire_clients memory g clock s) k)
unfolding expire_clients
expire_clients-IsCurrent memory g clock s k n l =
    let now : ℕ = moment clock in
    let t : Server = record s { last_expire_check = now } in
    rw
      (if_false (now == s.last_expire_check) s
        (expire_from memory g clock (max_clients s.clients) 0 t) (ground (arith, n)))
      (expire_from-IsCurrent memory g clock (max_clients s.clients) 0 t (omega arith)
        (λ j u. absurd (omega (arith, u))) k l)
