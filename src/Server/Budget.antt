-- ===== src/Server/Budget.antt =====
-- The handshake budgets of src/server.c and their fair shares. The clock `g_now`, the size of the
-- keystore and the outcome of `get_random_bytes` are arguments.
pub mod Shares
pub mod Bounds
pub mod Flood
use camex.Base.{
  ℕ, zero, suc, ◌+◌, ◌-◌, ◌*◌, ◌/◌, ◌%◌, Bool, true, false, not, ◌&&◌, ◌||◌, Option, none, some,
  List, [], ◌∷◌, get_or, set, replicate, ltb, leb, ◌==◌, if◌then◌else◌, bit_and, u8, u32, u64,
  ◌>>>◌,
}
use camex.Crypto.{Crypto}
use camex.Session.Wire.{read_u32}

abbrev pub handshakes_per_sec : ℕ
handshakes_per_sec = 200

abbrev pub key_trials_per_sec : ℕ
key_trials_per_sec = 51200

abbrev pub known_per_sec : ℕ
known_per_sec = 4

abbrev pub src_slots : ℕ
src_slots = 512

abbrev pub src_probes : ℕ
src_probes = 8

abbrev pub unknown_share : ℕ → ℕ
unknown_share n = n / 4 * 3

abbrev pub src_share : ℕ → ℕ
src_share n = n / 8

abbrev pub net_share : ℕ → ℕ
net_share n = n / 4

-- `server_share_t`
pub record Share : Type 0 where
  pub key : ℕ
  pub is_net : ℕ
  pub window : ℕ
  pub handshakes : ℕ
  pub trials : ℕ

abbrev pub blank : Share
blank = record { key = 0; is_net = 0; window = 0; handshakes = 0; trials = 0 }

-- The static variables of the budgets.
pub record Budget : Type 0 where
  pub shares : List Share
  pub share_key : List ℕ
  pub key_ready : Bool
  pub window : ℕ
  pub handshakes : ℕ
  pub unknown_handshakes : ℕ
  pub trials : ℕ
  pub unknown_trials : ℕ

-- `server_source_t`: entries by their place in the table; of the known client, whether there is one.
pub record Source : Type 0 where
  pub a : ℕ
  pub looked_up : Bool
  pub addr : Option ℕ
  pub net : Option ℕ
  pub known : Bool

-- What `server_known_source` reads and writes of a `server_client_t`.
pub record Client : Type 0 where
  pub registered : Bool
  pub cur_valid : Bool
  pub last_data : ℕ
  pub hs_window : ℕ
  pub hs_count : ℕ

unfoldable pub budget_window : ℕ → Budget → Budget
budget_window now b = if b.window == now then b else record b {
  window = now;
  handshakes = 0;
  unknown_handshakes = 0;
  trials = 0;
  unknown_trials = 0;
}

-- How the loop over the probes ends.
pub data Probe : Type 0 where
  found unused : ℕ → Probe
  taken : Probe

abbrev pub first : Option ℕ → ℕ → Option ℕ
first none i = some i
first (some j) i = some j

abbrev pub free_slot : Option ℕ → Probe
free_slot none = taken
free_slot (some i) = unused i

-- `for (p = 0; p < SERVER_SRC_PROBES; ++p)`, with the rounds left, `p` and `free_slot`.
unfoldable pub probe : ℕ → ℕ → List Share → ℕ → ℕ → ℕ → ℕ → Option ℕ → Probe
probe zero p shares now key is_net h free = free_slot free
probe (suc rounds) p shares now key is_net h free =
    let i = u32 (h + p) % src_slots in
    let s = get_or shares i blank in
    let stale = not (s.window == now) in
    let rest =
      probe rounds (p + 1) shares now key is_net h (if stale then first free i else free) in
    if stale then rest else (if s.key == key && s.is_net == is_net then found i else rest)

-- The fresh placement key, when there is none yet and there is randomness.
abbrev pub ready_key : Option (List ℕ) → Budget → Budget
ready_key none b = b
ready_key (some fresh) b =
    if b.key_ready then b else record b { share_key = fresh; key_ready = true }

-- The entry that the probes ended with, claimed if it was free.
unfoldable pub claim : ℕ → ℕ → ℕ → Probe → Budget → Option ℕ × Budget
claim now key is_net (found i) b = (some i, b)
claim now key is_net taken b = (none, b)
claim now key is_net (unused i) b = (
  some i,
  record b {
    shares =
        set b.shares i
          (record { key = key; is_net = is_net; window = now; handshakes = 0; trials = 0 });
  },
)

module _ (c : Crypto) where
  abbrev pub share_hash : List ℕ → ℕ → ℕ → ℕ
  share_hash share_key key is_net = read_u32 (
      c.blake2b_keyed 4 share_key
        (u8 (key >>> 24) ∷ u8 (key >>> 16) ∷ u8 (key >>> 8) ∷ u8 key ∷ is_net ∷ []))

  unfoldable pub share_of : ℕ → Option (List ℕ) → ℕ → ℕ → Budget → Option ℕ × Budget
  share_of now random key is_net b =
      let b' = ready_key random b in
      claim now key is_net
        (probe src_probes 0 b'.shares now key is_net (share_hash b'.share_key key is_net) none) b'

-- `c` is what `server_find_by_addr` returned. Is it a known source, and the client after the call.
unfoldable pub known_source : ℕ → ℕ → Option Client → Bool × Option Client
known_source now timeout none = (false, none)
known_source now timeout (some c) =
    let window' = if c.hs_window == now then c else record c { hs_window = now; hs_count = 0 } in
    if not c.registered || not c.cur_valid || c.last_data == 0 || ltb timeout (now - c.last_data)
    then (false, some c)
    else (if leb known_per_sec window'.hs_count
        then (false, some window')
        else (true, some (record window' { hs_count = u8 (window'.hs_count + 1) })))

-- `a` is the address in host order.
unfoldable pub source_for : ℕ → ℕ → ℕ → Option Client → Budget → Source × Option Client × Budget
source_for now timeout a client b =
    let (known, client') = known_source now timeout client in
    (
      record { a = a; looked_up = false; addr = none; net = none; known = known },
      client',
      budget_window now b,
    )

module _ (c : Crypto) where
  -- `random n` is the outcome of `get_random_bytes` in the `n`th lookup.
  unfoldable pub source_shares : ℕ → (ℕ → Option (List ℕ)) → Source → Budget → Source × Budget
  source_shares now random src b =
      let (addr, b1) = share_of c now (random 0) src.a 0 b in
      let (net, b2) = share_of c now (random 1) (bit_and src.a 4294967040) 1 b1 in
      if src.looked_up
      then (src, b)
      else (record src { looked_up = true; addr = addr; net = net }, b2)

-- `src->addr != NULL && src->addr->handshakes >= n`, and the same for key trials.
abbrev pub spent : (Share → ℕ) → ℕ → Option ℕ → Budget → Bool
spent count n none b = false
spent count n (some i) b = leb n (count (get_or b.shares i blank))

abbrev pub count_handshake : Option ℕ → Budget → Budget
count_handshake none b = b
count_handshake (some i) b =
    let s = get_or b.shares i blank in
    record b { shares = set b.shares i (record s { handshakes = u32 (s.handshakes + 1) }) }

abbrev pub count_trial : Option ℕ → Budget → Budget
count_trial none b = b
count_trial (some i) b =
    let s = get_or b.shares i blank in
    record b { shares = set b.shares i (record s { trials = u64 (s.trials + 1) }) }

-- The return values 0, -1, -2 and -3.
pub data Verdict : Type 0 where
  granted all_taken unknown_taken share_taken : Verdict

module _ (c : Crypto) where
  unfoldable pub handshake_budget :
      ℕ → (ℕ → Option (List ℕ)) → Source → Budget → Verdict × Source × Budget
  handshake_budget now random src b =
      let (src', b') = source_shares c now random src b in
      let b1 = count_handshake src'.net (count_handshake src'.addr b') in
      let b2 = record b1 { unknown_handshakes = u32 (b1.unknown_handshakes + 1) } in
      if leb handshakes_per_sec b.handshakes
      then (all_taken, src, b)
      else if src.known
      then (granted, src, record b { handshakes = u32 (b.handshakes + 1) })
      else if leb (unknown_share handshakes_per_sec) b.unknown_handshakes
      then (unknown_taken, src, b)
      else if spent (λ s. s.handshakes) (src_share handshakes_per_sec) src'.addr b'
          || spent (λ s. s.handshakes) (net_share handshakes_per_sec) src'.net b'
      then (share_taken, src', b')
      else (granted, src', record b2 { handshakes = u32 (b2.handshakes + 1) })

unfoldable pub key_trials_limit : ℕ → ℕ
key_trials_limit keys =
    if ltb key_trials_per_sec (u64 (keys * 4)) then u64 (keys * 4) else key_trials_per_sec

unfoldable pub trial_share : ℕ → Bool → ℕ
trial_share keys is_net =
    let limit = key_trials_limit keys in
    let share = if is_net then net_share limit else src_share limit in
    let floor = u64 (keys * (if is_net then 2 else 1)) in if ltb floor share then share else floor

module _ (c : Crypto) where
  unfoldable pub key_trial_budget :
      ℕ → (ℕ → Option (List ℕ)) → ℕ → Source → Bool → Budget → Verdict × Source × Budget
  key_trial_budget now random keys src own b =
      let limit = key_trials_limit keys in
      let (src', b') = source_shares c now random src b in
      let b1 = count_trial src'.net (count_trial src'.addr b') in
      let b2 = record b1 { unknown_trials = u64 (b1.unknown_trials + 1) } in
      if leb limit b.trials
      then (all_taken, src, b)
      else if own
      then (granted, src, record b { trials = u64 (b.trials + 1) })
      else if leb (unknown_share limit) b.unknown_trials
      then (unknown_taken, src, b)
      else if spent (λ s. s.trials) (trial_share keys false) src'.addr b'
          || spent (λ s. s.trials) (trial_share keys true) src'.net b'
      then (share_taken, src', b')
      else (granted, src', record b2 { trials = u64 (b2.trials + 1) })
