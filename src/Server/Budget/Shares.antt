-- ===== src/Server/Budget/Shares.antt =====
-- The table of shares: what a lookup finds or claims, and what it leaves alone.
use camex.Base.{
  ℕ, zero, suc, ◌+◌, ◌%◌, ◌≤◌, ◌<◌, ◌≡◌, ◌≢◌, refl, ap, ◌∙◌, Bool, true, false, not, ◌&&◌, Option,
  none, some, List, length, get_or, set, leb, ◌==◌, if◌then◌else◌, u32, arith, length-set,
  get_or-set_self, get_or-set_ne, bit_and, ℕ_discrete, yes, no, leb_false→lt, if_elim,
}
use camex.Crypto.{Crypto}
use camex.Server.Budget.{
  Share, Budget, Source, Probe, found, unused, taken, probe, first, free_slot, claim, share_of,
  share_hash, source_shares, blank, src_slots, src_probes, src_share, net_share, handshakes_per_sec,
  spent, count_handshake,
}

-- What an entry may count: a source address an eighth, a /24 a quarter.
abbrev pub cap : ℕ → ℕ
cap is_net = if is_net == 0 then src_share handshakes_per_sec else net_share handshakes_per_sec

cap-bound : (k : ℕ) → cap k ≤ 50
cap-bound k = if_elim (λ n. n ≤ 50) (k == 0) 25 50 (λ _. omega arith) (λ _. omega arith)

abbrev pub entry : Budget → ℕ → Share
entry b i = get_or b.shares i blank

-- Entry `i` counts a source of this second.
abbrev pub Placed : ℕ → ℕ → ℕ → Budget → Type 0
Placed now is_net i b =
    (i < length b.shares) × ((entry b i).window ≡ now) × ((entry b i).is_net ≡ is_net)

-- The table has its size, and no entry counts more than its cap.
abbrev pub Fair : Budget → Type 0
Fair b = (length b.shares ≡ src_slots) × ((i : ℕ) → (entry b i).handshakes ≤ cap (entry b i).is_net)

-- The counts over all sources are the same.
abbrev pub SameCounts : Budget → Budget → Type 0
SameCounts b b' = (b'.handshakes ≡ b.handshakes) × (b'.unknown_handshakes ≡ b.unknown_handshakes)

data Probed (now is_net : ℕ) (b : Budget) : Probe → Type 0 where
  probed_found : {i : ℕ} → Placed now is_net i b → Probed now is_net b (found i)
  probed_unused :
      {i : ℕ} → i < length b.shares → (entry b i).window ≢ now → Probed now is_net b (unused i)
  probed_taken : Probed now is_net b taken

first-Probed :
    (now is_net : ℕ) (b : Budget) (free : Option ℕ) (i : ℕ)
    → i < length b.shares
    → (entry b i).window ≢ now
    → Probed now is_net b (free_slot free)
    → Probed now is_net b (free_slot (first free i))
first-Probed now is_net b none i h old f = probed_unused h old
first-Probed now is_net b (some j) i h old f = f

-- The place a lookup returned, if any, is an entry of this second.
abbrev pub Holds : ℕ → ℕ → Option ℕ → Budget → Type 0
Holds now is_net none b = now ≡ now
Holds now is_net (some i) b = Placed now is_net i b

-- The outcome of a lookup in `b`: the table stays fair, the totals stay, the place that it returns
-- is an entry of this second, and the entries of this second stay where they are.
abbrev pub Claimed : ℕ → ℕ → Budget → Option ℕ × Budget → Type 0
Claimed now is_net b r =
    Fair r.1
    × SameCounts b r.1
    × Holds now is_net r.0 r.1
    × ((j k : ℕ) → Placed now k j b → Placed now k j r.1)

probe-Probed :
    (rounds p now key is_net h : ℕ) (b : Budget) (free : Option ℕ)
    → length b.shares ≡ src_slots
    → Probed now is_net b (free_slot free)
    → Probed now is_net b (probe rounds p b.shares now key is_net h free)
unfolding probe
probe-Probed zero p now key is_net h b free size f = f
probe-Probed (suc rounds) p now key is_net h b free size f =
    let i : ℕ = u32 (h + p) % src_slots in
    let s : Share = entry b i in
    let stale : Bool = not (s.window == now) in
    let here : i < length b.shares = omega (arith, size) in
    let free' : Option ℕ = if stale then first free i else free in
    let rest : Probe = probe rounds (p + 1) b.shares now key is_net h free' in
    let after : Probed now is_net b rest =
      probe-Probed rounds (p + 1) now key is_net h b free' size (
        if_elim (λ o. Probed now is_net b (free_slot o)) stale (first free i) free
          (λ old. first-Probed now is_net b free i here (ground arith) f) (λ _. f)) in
    if_elim (Probed now is_net b) stale rest
      (if s.key == key && s.is_net == is_net then found i else rest) (λ _. after)
      (λ fresh.
        if_elim (Probed now is_net b) (s.key == key && s.is_net == is_net) (found i) rest
          (λ same. probed_found (here, ground arith, ground arith)) (λ _. after))

-- An entry after another one, or itself, was written.
set-entry :
    (b : Budget) (i j : ℕ) (s : Share) (P : Share → Type 0)
    → i < length b.shares
    → (i ≡ j → P s)
    → (i ≢ j → P (entry b j))
    → P (get_or (set b.shares i s) j blank)
set-entry b i j s P h f g = elim (ℕ_discrete i j) [
  | yes e ↦ rw (← e, get_or-set_self b.shares i s blank h) (f e)
  | no n ↦ rw (get_or-set_ne b.shares i j s blank n) (g n)
]

claim-Claimed :
    (now key is_net : ℕ) (b : Budget) (p : Probe)
    → Probed now is_net b p
    → Fair b
    → Claimed now is_net b (claim now key is_net p b)
unfolding claim
claim-Claimed now key is_net b (found i) (probed_found h) fair = (fair, (refl, refl), h, λ j k q. q)
claim-Claimed now key is_net b taken probed_taken fair = (fair, (refl, refl), refl, λ j k q. q)
claim-Claimed now key is_net b (unused i) (probed_unused h old) fair =
    let s : Share = record {
      key = key;
      is_net = is_net;
      window = now;
      handshakes = 0;
      trials = 0;
    } in
    let size : length (set b.shares i s) ≡ length b.shares = length-set b.shares i s in
    let own = get_or-set_self b.shares i s blank h in
    (
      (
        size ∙ fair.0,
        λ j.
            set-entry b i j s (λ t. t.handshakes ≤ cap t.is_net) h (λ e. omega arith)
              (λ n. fair.1 j),
      ),
      (refl, refl),
      (omega (arith, size), ap (λ (t : Share). t.window) own, ap (λ (t : Share). t.is_net) own),
      λ j k q.
          let there =
            set-entry b i j s (λ t. (t.window ≡ now) × (t.is_net ≡ k)) h
              (λ e. absurd (old (ap (λ n. (entry b n).window) e ∙ q.1))) (λ n. (q.1, q.2)) in
          (omega (arith, size, q.0), there.0, there.1),
    )

share_of-Claimed :
    (c : Crypto) (now : ℕ) (random : Option (List ℕ)) (key is_net : ℕ) (b : Budget)
    → Fair b
    → Claimed now is_net b (share_of c now random key is_net b)
unfolding share_of
share_of-Claimed c now random key is_net b fair = go random
  where
    from :
        (b' : Budget)
        → Fair b'
        → Claimed now is_net b' (
            claim now key is_net
              (probe src_probes 0 b'.shares now key is_net
                (share_hash c b'.share_key key is_net)
                none)
              b')
    from b' fair' =
        claim-Claimed now key is_net b'
          (probe src_probes 0 b'.shares now key is_net (share_hash c b'.share_key key is_net) none)
          (probe-Probed src_probes 0 now key is_net (share_hash c b'.share_key key is_net) b' none
            fair'.0 probed_taken)
          fair'

    go : (random : Option (List ℕ)) → Claimed now is_net b (share_of c now random key is_net b)
    go none = from b fair
    go (some fresh) =
        if_elim
          (λ b'. Claimed now is_net b (
            claim now key is_net
              (probe src_probes 0 b'.shares now key is_net (share_hash c b'.share_key key is_net)
                none)
              b'))
          b.key_ready b (record b { share_key = fresh; key_ready = true }) (λ _. from b fair)
          (λ _. from (record b { share_key = fresh; key_ready = true }) fair)

-- A source that has been looked up knows entries of this second.
abbrev pub LookedUp : ℕ → Source → Budget → Type 0
LookedUp now src b = Holds now 0 src.addr b × Holds now 1 src.net b

pub Holds-claimed :
    (now k : ℕ) (o : Option ℕ) (b b' : Budget)
    → ((j k : ℕ) → Placed now k j b → Placed now k j b')
    → Holds now k o b
    → Holds now k o b'
Holds-claimed now k none b b' f h = h
Holds-claimed now k (some i) b b' f h = f i k h

pub source_shares-Fair :
    (c : Crypto) (now : ℕ) (random : ℕ → Option (List ℕ)) (src : Source) (b : Budget)
    → Fair b
    → LookedUp now src b
    → let r = source_shares c now random src b in Fair r.1 × SameCounts b r.1 × LookedUp now r.0 r.1
unfolding source_shares
source_shares-Fair c now random src b fair known =
    let one = share_of-Claimed c now (random 0) src.a 0 b fair in
    let b1 = (share_of c now (random 0) src.a 0 b).1 in
    let a24 = bit_and src.a 4294967040 in
    let two = share_of-Claimed c now (random 1) a24 1 b1 one.0 in
    let b2 = (share_of c now (random 1) a24 1 b1).1 in
    let addr = (share_of c now (random 0) src.a 0 b).0 in
    let net = (share_of c now (random 1) a24 1 b1).0 in
    if_elim (λ (r : Source × Budget). Fair r.1 × SameCounts b r.1 × LookedUp now r.0 r.1)
      src.looked_up (src, b) (record src { looked_up = true; addr = addr; net = net }, b2)
      (λ _. (fair, (refl, refl), known))
      (λ _. (
        two.0,
        (two.1.0 ∙ one.1.0, two.1.1 ∙ one.1.1),
        (Holds-claimed now 0 addr b1 b2 two.3 one.2, two.2),
      ))

pub count-Fair :
    (now k : ℕ) (o : Option ℕ) (b : Budget)
    → Fair b
    → Holds now k o b
    → spent (λ s. s.handshakes) (cap k) o b ≡ false
    → let b' = count_handshake o b in
      Fair b' × SameCounts b b' × ((j k : ℕ) → Placed now k j b → Placed now k j b')
count-Fair now k none b fair h room = (fair, (refl, refl), λ j k q. q)
count-Fair now k (some i) b fair h room =
    let s : Share = entry b i in
    let s' : Share = record s { handshakes = u32 (s.handshakes + 1) } in
    let size : length (set b.shares i s') ≡ length b.shares = length-set b.shares i s' in
    let below : s.handshakes < cap k = leb_false→lt (cap k) s.handshakes room in
    let small : cap k ≤ 50 = cap-bound k in
    (
      (
        size ∙ fair.0,
        λ j.
            set-entry b i j s' (λ t. t.handshakes ≤ cap t.is_net) h.0 (λ e. rw h.2 (omega arith))
              (λ n. fair.1 j),
      ),
      (refl, refl),
      λ j k q.
          let there =
            set-entry b i j s' (λ t. (t.window ≡ now) × (t.is_net ≡ k)) h.0 (λ e. rw e (q.1, q.2))
              (λ n. (q.1, q.2)) in
          (omega (arith, size, q.0), there.0, there.1),
    )

-- Counting at the address leaves the /24's entry as it is: they are different entries.
pub spent-count :
    (now n : ℕ) (o p : Option ℕ) (b : Budget)
    → Holds now 0 o b
    → Holds now 1 p b
    → spent (λ s. s.handshakes) n p (count_handshake o b) ≡ spent (λ s. s.handshakes) n p b
spent-count now n none p b g h = refl
spent-count now n (some i) none b g h = refl
spent-count now n (some i) (some j) b g h =
    let s' : Share = record (entry b i) { handshakes = u32 ((entry b i).handshakes + 1) } in
    ap (λ (t : Share). leb n t.handshakes)
      (get_or-set_ne b.shares i j s' blank
        (λ e. absurd (omega (arith, g.2, h.2, ap (λ m. (entry b m).is_net) e))))
