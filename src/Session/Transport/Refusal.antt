-- ===== src/Session/Transport/Refusal.antt =====
-- What a session refuses: replays, and packets and texts that do not fit.
use camex.Base.{
  ℕ, ◌+◌, ◌^◌, ◌≤◌, ◌<◌, ◌≡◌, ap, Bool, true, false, not, ◌||◌, ◌⊎◌, inl, inr, Option, none, some,
  List, [], ◌∷◌, ◌++◌, length, take, drop, ltb, leb, arith, Bool-cases, Option-cases,
}
use camex.Crypto.{Crypto, CryptoLaws}
use camex.Noise.Cipher.{noise_encrypt, noise_decrypt}
use camex.Noise.Cipher.Laws.{length-noise_encrypt}
use camex.Session.Wire.{data_hdr, overhead, read_le64}
use camex.Session.Replay.{reject_after_msgs, replay_check}
use camex.Session.Replay.Track.{Tracks, insert, replay_check-eq, replay_record-Tracks}
use camex.Session.Transport.{Session, session_seal, session_open, open_body, not_ours, data_header}
use camex.Session.Transport.Delivery.{IsData, header-IsData, seal_all, open_all, recorded}

abbrev pub counter : List ℕ → ℕ
counter pkt = read_le64 (drop 9 pkt)

-- The window knows counter `n`.
pub record Knows (s : Session) (n : ℕ) : Type 0 where
  pub seen : ℕ → Bool
  pub tracks : Tracks s.replay seen
  pub known : seen n ≡ true

module _ (c : Crypto) where
  -- What `session_open` does to the session: nothing, or it records the packet's counter, which
  -- the window accepted.
  pub open-cases :
      (s : Session) (pkt : List ℕ) (size : ℕ)
      → (session_open c s pkt size ≡ (none, s))
        ⊎ ((plain : List ℕ) × (session_open c s pkt size ≡ (some plain, recorded s (counter pkt)))
            × (replay_check s.replay (counter pkt) ≡ true)
            × (noise_decrypt c s.k_recv (counter pkt) (take data_hdr pkt) (drop data_hdr pkt)
                ≡ some plain))
  unfolding session_open open_body
  open-cases s pkt size =
      let opened = noise_decrypt c s.k_recv (counter pkt) (take data_hdr pkt) (drop data_hdr pkt) in
      elim (Option-cases opened) [
        | inl e ↦ inl (ground arith)
        | inr (plain, e) ↦
            elim (Bool-cases (not_ours s pkt size || not (replay_check s.replay (counter pkt)))) [
              | inl bad ↦ inl (ground arith)
              | inr good ↦ inr (plain, ground arith, ground arith, e)
            ]
      ]

  open-Knows :
      (s : Session) (pkt : List ℕ) (size n : ℕ) → Knows s n → Knows (session_open c s pkt size).1 n
  open-Knows s pkt size n k = elim (open-cases s pkt size) [
    | inl e ↦ rw e k
    | inr (plain, e, ok, d) ↦ rw e (record {
      seen = insert (counter pkt) k.seen;
      tracks = replay_record-Tracks (counter pkt) k.tracks ok;
      known = ground (arith, k.known);
    })
  ]

  open_all-Knows :
      (pkts : List (List ℕ)) (s : Session) (size n : ℕ)
      → Knows s n
      → Knows (open_all c size s pkts).1 n
  open_all-Knows [] s size n k = k
  open_all-Knows (p ∷ ps) s size n k =
      open_all-Knows ps (session_open c s p size).1 size n (open-Knows s p size n k)

  session_open-Knows :
      (s : Session) (pkt : List ℕ) (size : ℕ)
      → Knows s (counter pkt)
      → session_open c s pkt size ≡ (none, s)
  session_open-Knows s pkt size k = elim (open-cases s pkt size) [
    | inl e ↦ e
    | inr (plain, e, ok, d) ↦
        absurd (ground (arith, k.known, replay_check-eq (counter pkt) k.tracks))
  ]

  -- No packet is opened twice: once a session has opened it, and whatever it opens or refuses
  -- afterwards, it refuses that packet and is left as it was.
  pub open_once :
      (s : Session) (seen : ℕ → Bool) (pkt plain : List ℕ) (later : List (List ℕ)) (size size' : ℕ)
      → Tracks s.replay seen
      → (session_open c s pkt size).0 ≡ some plain
      → let s' = (open_all c size (session_open c s pkt size).1 later).1 in
        session_open c s' pkt size' ≡ (none, s')
  open_once s seen pkt plain later size size' t e = session_open-Knows _ pkt size' (
      open_all-Knows later (session_open c s pkt size).1 size (counter pkt)
        (elim (open-cases s pkt size) [
          | inl refused ↦ absurd (cc (ap (λ (r : Option (List ℕ) × Session). r.0) refused))
          | inr (text, opened, ok, d) ↦ rw opened (record {
            seen = insert (counter pkt) seen;
            tracks = replay_record-Tracks (counter pkt) t ok;
            known = ground arith;
          })
        ]))

-- `session_seal` refuses an invalid session, an exhausted counter and a buffer that is too small.
abbrev pub cannot_seal : Session → List ℕ → ℕ → Bool
cannot_seal s plain out_size =
    not s.valid || leb reject_after_msgs s.send_n || ltb out_size (overhead + length plain)

-- Counters from `k` on, each larger than the one before.
abbrev pub Ascending : ℕ → List (List ℕ) → Type 0
Ascending k [] = Unit
Ascending k (p ∷ ps) = (k ≤ counter p) × Ascending (counter p + 1) ps

module _ {c : Crypto} (laws : CryptoLaws c) where
  -- `session_seal` on every branch: it refuses and leaves the session as it was exactly where it
  -- cannot seal; otherwise the packet fits the buffer, is 33 bytes longer than the text, carries
  -- the session's counter, and the counter goes up by one, without wrapping.
  pub seal-branches :
      (s : Session) (plain : List ℕ) (out_size : ℕ)
      → s.remote_index < 2 ^ 32
      → ((cannot_seal s plain out_size ≡ true) × (session_seal c s plain out_size ≡ (none, s)))
        ⊎ ((pkt : List ℕ) × (cannot_seal s plain out_size ≡ false)
            × (session_seal c s plain out_size ≡ (some pkt, record s { send_n = s.send_n + 1 }))
            × (counter pkt ≡ s.send_n)
            × (length pkt ≡ overhead + length plain)
            × (length pkt ≤ out_size))
  unfolding session_seal
  seal-branches s plain out_size h = elim (Bool-cases (cannot_seal s plain out_size)) [
    | inl bad ↦ inl (bad, ground arith)
    | inr good ↦
        let header = data_header s.remote_index s.send_n in
        let body = noise_encrypt c s.k_send s.send_n header plain in
        let small : s.send_n < reject_after_msgs = ground arith in
        let long = length-noise_encrypt laws s.k_send s.send_n header plain in
        let found : IsData (header ++ body) header body s.remote_index s.send_n =
          header-IsData s.remote_index s.send_n body h (omega arith) (omega (arith, long)) in
        inr (
          header ++ body,
          good,
          ground arith,
          found.its_counter,
          omega (arith, found.its_length, long),
          ground (arith, found.its_length, long),
        )
  ]

  -- No counter is used twice under one key: whatever texts a session is asked to seal, the
  -- packets that come out carry counters that grow from its own on.
  pub counters-Ascending :
      (ps : List (List ℕ)) (s : Session) (size : ℕ)
      → s.remote_index < 2 ^ 32
      → Ascending s.send_n (seal_all c size s ps).0
  counters-Ascending [] s size h = tt
  counters-Ascending (p ∷ ps) s size h = elim (seal-branches s p size h) [
    | inl (bad, e) ↦ rw e (counters-Ascending ps s size h)
    | inr (pkt, good, e, n, l, fits) ↦ rw e (
      rw n (omega arith),
      rw n (counters-Ascending ps (record s { send_n = s.send_n + 1 }) size h),
    )
  ]
