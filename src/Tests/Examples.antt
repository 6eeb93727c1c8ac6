-- ===== src/Tests/Examples.antt =====
-- The theorems on handshakes and sessions that have hypotheses, at inputs where they hold.
use camex.Base.{
  ℕ, ◌+◌, ◌≤◌, ◌≡◌, refl, true, false, none, some, List, [], ◌∷◌, ◌++◌, replicate, length, arith,
  codes, bytes_eq, le_bytes, ◌⊎◌, ap, drop, ltb, ◌||◌, ◌-◌, if_elim, if_false, u64, Option,
}
use camex.Tests.Toy.{toy, toy_laws, toy_mac}
use camex.Noise.Cipher.{
  Hs, dh, noise_decrypt, make_nonce, decrypt_and_hash, mix_hash, mix_key, mix_key_and_hash,
}
use camex.Noise.Handshake.{
  init_initiator, init_responder, read_msg1, read_copy1, read_msg2, read_copy2, commit,
  keep_on_failure, mix_e,
}
use camex.Noise.Handshake.Complete.{
  IsComplete, handshake-IsComplete, after_trials, after_replies, read-keeps_state,
}
use camex.Session.Wire.{timestamp, timestamp_cmp, timestamp_seconds, same}
use camex.Session.Wire.Laws.{timestamp_cmp-timestamp, timestamp_seconds-timestamp}
use camex.Session.Replay.{fresh, replay_check, replay_record, mark, move_to}
use camex.Session.Replay.Track.{Tracks, fresh-Tracks, insert, replay_check-eq, replay_record-Tracks}
use camex.Session.Replay.History.{Distinct, accepted, accepted-Distinct, after, accepts_new}
use camex.Session.Transport.{Session, session_init, session_seal, session_open, open_body}
use camex.Session.Transport.Delivery.{
  IsLinked, IsReady, seal_all, open_all, open-seal, stream_arrives, recorded,
}
use camex.Session.Transport.Refusal.{open_once, counters-Ascending, Ascending, seal-branches}
use camex.Session.Transport.Refusal.{cannot_seal, counter}
use camex.Session.Wire.{overhead, packet_type, data_receiver, read_u32, read_le64, read_le64_loop}

-- Two ends of a session.
abbrev key_a : List ℕ
key_a = replicate 32 5

abbrev key_b : List ℕ
key_b = replicate 32 9

abbrev end_a : Session
end_a = session_init 1 2 key_a key_b 0

abbrev end_b : Session
end_b = session_init 2 1 key_b key_a 0

ends-IsLinked : IsLinked end_a end_b
unfolding session_init
ends-IsLinked = record {
  a_valid = refl;
  b_valid = refl;
  same_key = refl;
  same_index = refl;
  index_fits = omega arith;
}

ends-IsReady : IsReady end_a end_b
unfolding session_init
ends-IsReady = record {
  linked = ends-IsLinked;
  seen = λ n. false;
  tracks = fresh-Tracks;
  ahead = λ k. absurd (cc k);
}

abbrev texts : List (List ℕ)
texts = codes "ping" ∷ codes "" ∷ codes "pong" ∷ []

stream_arrives_example : (open_all toy 64 end_b (seal_all toy 64 end_a texts).0).0 ≡ texts
unfolding session_init
stream_arrives_example =
    stream_arrives toy_laws texts end_a end_b 64 64 ends-IsReady (omega arith)
      ((omega arith, omega arith), ((omega arith, omega arith), ((omega arith, omega arith), tt)))

abbrev s_priv : List ℕ
s_priv = replicate 32 3

abbrev psk : List ℕ
psk = replicate 32 1

abbrev e1 : List ℕ
e1 = replicate 32 4

abbrev e2 : List ℕ
e2 = replicate 32 5

abbrev client : Hs
client = init_initiator toy (codes "camex") (toy.x25519_public_key s_priv)

abbrev server : Hs
server = init_responder toy (codes "camex") s_priv (toy.x25519_public_key s_priv)

handshake-IsComplete_example :
    IsComplete toy client server psk e1 e2 (codes "id") (codes "config") 64 64 64 64
unfolding dh bytes_eq
handshake-IsComplete_example =
    handshake-IsComplete toy_laws (codes "camex") s_priv psk e1 e2 (codes "id") (codes "config")
      (replicate 32 12) (replicate 32 20) 64 64 64 64 refl refl (omega arith) (omega arith)
      (omega arith) (omega arith)

-- A text that no key of the toy suite seals.
abbrev garbled : List ℕ
garbled = 104 ∷ 105 ∷ 1 ∷ 2 ∷ replicate 14 0

garbled-refused : (hs : Hs) → decrypt_and_hash toy hs garbled ≡ none
unfolding decrypt_and_hash noise_decrypt bytes_eq
garbled-refused hs = ap (keep (record hs { cs = record hs.cs { n = u64 (hs.cs.n + 1) } })) (
    if_false (bytes_eq (drop 2 garbled) (toy_mac hs.cs.k (make_nonce hs.cs.n) hs.h))
      (some (104 ∷ 105 ∷ [])) none (ground arith))
  where
    keep : Hs → Option (List ℕ) → Option (List ℕ × Hs)
    keep t none = none
    keep t (some plain) = some (plain, mix_hash toy t garbled)

abbrev wrong_msg : List ℕ
wrong_msg = replicate 32 7 ++ garbled

wrong_msg-refused : (read_msg1 toy server e2 e1 wrong_msg 64).0 ≡ none
unfolding read_msg1 read_copy1
wrong_msg-refused =
    let hs1 : Hs = record (mix_key_and_hash toy server e2) { re = replicate 32 7 } in
    let hs2 : Hs = mix_key toy (mix_e toy hs1 (replicate 32 7)) e1 in
    if_elim (λ (r : Option (List ℕ) × Hs). (commit server r).0 ≡ none)
      (server.initiator || ltb (length wrong_msg) 48 || ltb 64 (length wrong_msg - 48))
      (none, server) (keep_on_failure hs2 (decrypt_and_hash toy hs2 garbled)) (λ _. refl)
      (λ _. ap (λ o. (commit server (keep_on_failure hs2 o)).0) (garbled-refused hs2))

-- A text that is too short, and one that no key opens.
abbrev trials : List (List ℕ × List ℕ × List ℕ)
trials = (psk, e1, codes "short") ∷ (e2, e1, wrong_msg) ∷ []

read-keeps_state_example :
    (after_trials toy 64 server trials ≡ server)
    × (after_replies toy 64 server (codes "short" ∷ []) ≡ server)
unfolding read_msg1 read_copy1 read_msg2 read_copy2 init_responder
read-keeps_state_example =
    read-keeps_state toy 64 server trials (codes "short" ∷ []) (refl, (wrong_msg-refused, tt))
      (refl, tt)

timestamp_cmp-timestamp_example :
    timestamp_cmp (timestamp 1700000000 5) (timestamp 1700000000 5) ≡ same
timestamp_cmp-timestamp_example =
    timestamp_cmp-timestamp 1700000000 5 1700000000 5 (omega arith) (omega arith) (omega arith)
      (omega arith)

timestamp_seconds-timestamp_example : timestamp_seconds (timestamp 1700000000 5) ≡ 1700000000
timestamp_seconds-timestamp_example = timestamp_seconds-timestamp 1700000000 5 (omega arith)

replay_check-eq_example : replay_check fresh 7 ≡ true
replay_check-eq_example = replay_check-eq 7 fresh-Tracks

replay_record-Tracks_example : Tracks (replay_record fresh 7) (insert 7 (λ n. false))
unfolding replay_check
replay_record-Tracks_example = replay_record-Tracks 7 fresh-Tracks refl

accepted-Distinct_example : Distinct (accepted fresh (3 ∷ 1 ∷ 3 ∷ []))
accepted-Distinct_example = accepted-Distinct (3 ∷ 1 ∷ 3 ∷ [])

accepts_new_example : replay_check (after fresh (3 ∷ 1 ∷ [])) 2 ≡ true
unfolding replay_check replay_record mark move_to
accepts_new_example = accepts_new (3 ∷ 1 ∷ []) 2 (omega arith) refl (omega arith)

open-seal_example :
    (pkt : List ℕ) × (session_seal toy end_a (codes "ping") 64
      ≡ (some pkt, record end_a { send_n = 1 }))
    × (session_open toy end_b pkt 64 ≡ (some (codes "ping"), recorded end_b 0))
unfolding session_init replay_check
open-seal_example =
    open-seal toy_laws end_a end_b (codes "ping") 64 64 ends-IsLinked (omega arith) (omega arith)
      (omega arith) refl

abbrev first_packet : List ℕ
first_packet =
    codes "CXv2" ++ (3 ∷ replicate 3 0) ++ (2 ∷ replicate 8 0) ++ codes "ping" ++ replicate 16 5

first_opens : (session_open toy end_b first_packet 64).0 ≡ some (codes "ping")
unfolding session_init session_open open_body packet_type data_receiver read_u32 read_le64
    read_le64_loop replay_check noise_decrypt make_nonce le_bytes bytes_eq
first_opens = refl

open_once_example :
    let s' = (open_all toy 64 (session_open toy end_b first_packet 64).1 (first_packet ∷ [])).1 in
    session_open toy s' first_packet 64 ≡ (none, s')
unfolding session_init
open_once_example =
    open_once toy end_b (λ n. false) first_packet (codes "ping") (first_packet ∷ []) 64 64
      fresh-Tracks first_opens

seal-branches_example :
    ((cannot_seal end_a (codes "ping") 40 ≡ true)
      × (session_seal toy end_a (codes "ping") 40 ≡ (none, end_a)))
    ⊎ ((pkt : List ℕ) × (cannot_seal end_a (codes "ping") 40 ≡ false)
        × (session_seal toy end_a (codes "ping") 40
            ≡ (some pkt, record end_a { send_n = end_a.send_n + 1 }))
        × (counter pkt ≡ end_a.send_n)
        × (length pkt ≡ overhead + length (codes "ping"))
        × (length pkt ≤ 40))
unfolding session_init
seal-branches_example = seal-branches toy_laws end_a (codes "ping") 40 (omega arith)

counters-Ascending_example : Ascending 0 (seal_all toy 64 end_a texts).0
unfolding session_init
counters-Ascending_example = counters-Ascending toy_laws texts end_a 64 (omega arith)
