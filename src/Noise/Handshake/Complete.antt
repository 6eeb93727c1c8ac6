-- ===== src/Noise/Handshake/Complete.antt =====
-- A whole handshake, from `noise_init_*` to `noise_split`.
use camex.Base.{
  ℕ, ◌+◌, ◌≤◌, ◌≡◌, refl, sym, ap, ◌∙◌, Option, none, some, List, [], ◌∷◌, length, take, All,
}
use camex.Crypto.{Crypto, CryptoLaws}
use camex.Noise.Cipher.{Hs, dh_len, dh}
use camex.Noise.Handshake.{
  init_initiator, init_responder, commit, read_copy1, read_copy2, write_msg1, msg1_es, read_msg1,
  write_msg2, read_msg2, split, msg1_overhead, msg2_overhead,
}
use camex.Noise.Handshake.Agree.{IsTogether, msg1_arrives}
use camex.Noise.Handshake.Reply.{msg2_arrives}

split-IsTogether : (c : Crypto) (a b : Hs) → IsTogether a b → split c a ≡ split c b
unfolding split
split-IsTogether c a b t = rw (t.same_ck) refl

-- What a finished handshake is: both messages were written and read, and `noise_split` gives
-- both sides the same pair of transport keys.
pub record IsComplete (c : Crypto) (i r : Hs) (psk e1 e2 p1 p2 : List ℕ) (out1 in1 out2 in2 : ℕ)
    : Type 0 where
  pub msg1 : List ℕ
  pub es : List ℕ
  pub msg2 : List ℕ
  pub i1 : Hs
  pub r1 : Hs
  pub r2 : Hs
  pub i2 : Hs
  pub wrote1 : write_msg1 c i psk e1 p1 out1 ≡ (some msg1, i1)
  pub found_es : msg1_es c r msg1 ≡ some es
  pub read1 : read_msg1 c r psk es msg1 in1 ≡ (some p1, r1)
  pub wrote2 : write_msg2 c r1 e2 p2 out2 ≡ (some msg2, r2)
  pub read2 : read_msg2 c i1 msg2 in2 ≡ (some p2, i2)
  pub same_keys : split c i2 ≡ split c r2

module _ {c : Crypto} (laws : CryptoLaws c) where
  -- A client that knows the server's public key and a server that tries the client's pre-shared
  -- key complete the handshake: unless a shared secret is all zero, and where the payloads fit
  -- the buffers, each reads the payload that the other wrote, and both split off the same keys.
  pub handshake-IsComplete :
      (prologue s_priv psk e1 e2 p1 p2 shared1 shared2 : List ℕ) (out1 in1 out2 in2 : ℕ)
      → dh c (take dh_len e1) (c.x25519_public_key s_priv) ≡ some shared1
      → dh c (take dh_len e2) (c.x25519_public_key (take dh_len e1)) ≡ some shared2
      → msg1_overhead + length p1 ≤ out1
      → length p1 ≤ in1
      → msg2_overhead + length p2 ≤ out2
      → length p2 ≤ in2
      → IsComplete c
          (init_initiator c prologue (c.x25519_public_key s_priv))
          (init_responder c prologue s_priv (c.x25519_public_key s_priv))
          psk
          e1
          e2
          p1
          p2
          out1
          in1
          out2
          in2
  unfolding init_initiator init_responder
  handshake-IsComplete prologue s_priv psk e1 e2 p1 p2 shared1 shared2 out1 in1 out2 in2 d1 d2 f1 r1
        f2 r2 =
      let s_pub = c.x25519_public_key s_priv in
      let i = init_initiator c prologue s_pub in
      let r = init_responder c prologue s_priv s_pub in
      let first =
        msg1_arrives laws i r psk e1 shared1 p1 out1 in1
          (record { same_cs = refl; same_ck = refl; same_h = refl }) refl refl refl d1 f1 r1 in
      let paired = first.6 in
      let second =
        msg2_arrives laws first.1 first.2 (take dh_len e1) e2 shared2 p2 out2 in2 paired
          (rw paired.knows_e d2) f2 r2 in
      record {
        msg1 = first.0;
        es = shared1;
        msg2 = second.0;
        i1 = first.1;
        r1 = first.2;
        r2 = second.1;
        i2 = second.2;
        wrote1 = first.3;
        found_es = first.4;
        read1 = first.5;
        wrote2 = second.3;
        read2 = second.4;
        same_keys = sym (split-IsTogether c second.1 second.2 second.5);
      }

commit-refused :
    (hs : Hs) (r : Option (List ℕ) × Hs) → (commit hs r).0 ≡ none → (commit hs r).1 ≡ hs
commit-refused hs (none, t) e = refl
commit-refused hs (some payload, t) e = absurd (cc e)

module _ (c : Crypto) (size : ℕ) where
  -- The server tries one key after the other on a message 1, each with its shared secret, and may be
  -- given another message; a client may be given one message 2 after the other.
  abbrev pub after_trials : Hs → List (List ℕ × List ℕ × List ℕ) → Hs
  after_trials hs [] = hs
  after_trials hs ((psk, es, msg) ∷ more) = after_trials (read_msg1 c hs psk es msg size).1 more

  abbrev pub after_replies : Hs → List (List ℕ) → Hs
  after_replies hs [] = hs
  after_replies hs (msg ∷ more) = after_replies (read_msg2 c hs msg size).1 more

  abbrev pub Fails : Hs → List ℕ × List ℕ × List ℕ → Type 0
  Fails hs (psk, es, msg) = (read_msg1 c hs psk es msg size).0 ≡ none

  trials-keep :
      (hs : Hs) (trials : List (List ℕ × List ℕ × List ℕ))
      → All (Fails hs) trials
      → after_trials hs trials ≡ hs
  unfolding read_msg1
  trials-keep hs [] f = refl
  trials-keep hs ((psk, es, msg) ∷ more) f =
      let same : (read_msg1 c hs psk es msg size).1 ≡ hs =
        commit-refused hs (read_copy1 c hs psk es msg size) f.0 in
      ap (λ t. after_trials t more) same ∙ trials-keep hs more f.1

  replies-keep :
      (hs : Hs) (replies : List (List ℕ))
      → All (λ msg. (read_msg2 c hs msg size).0 ≡ none) replies
      → after_replies hs replies ≡ hs
  unfolding read_msg2
  replies-keep hs [] f = refl
  replies-keep hs (msg ∷ more) f =
      let same : (read_msg2 c hs msg size).1 ≡ hs =
        commit-refused hs (read_copy2 c hs msg size) f.0 in
      ap (λ t. after_replies t more) same ∙ replies-keep hs more f.1

  -- After any trials of keys and messages 1, or any messages 2, each of which the handshake refuses,
  -- its state is exactly what it was, so a valid message can still follow.
  pub read-keeps_state :
      (hs : Hs) (trials : List (List ℕ × List ℕ × List ℕ)) (replies : List (List ℕ))
      → All (Fails hs) trials
      → All (λ msg. (read_msg2 c hs msg size).0 ≡ none) replies
      → (after_trials hs trials ≡ hs) × (after_replies hs replies ≡ hs)
  read-keeps_state hs trials replies f g = (trials-keep hs trials f, replies-keep hs replies g)
