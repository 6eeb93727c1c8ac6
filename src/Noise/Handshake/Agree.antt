-- ===== src/Noise/Handshake/Agree.antt =====
-- The two sides of a handshake stay in step: each message that one writes the other reads, and
-- both end with the same transport keys.
use camex.Base.{
  ℕ, ◌+◌, ◌≤◌, ◌≡◌, refl, ◌∙◌, true, false, some, List, ◌++◌, length, take, drop, arith,
  length-append, take-append_length, drop-append_length,
}
use camex.Crypto.{Crypto, CryptoLaws}
use camex.Noise.Cipher.{
  Hs, mix_hash, mix_key, dh_len, mix_key_and_hash, encrypt_and_hash, decrypt_and_hash, dh,
  noise_keypair,
}
use camex.Noise.Cipher.Laws.{decrypt_and_hash-encrypt, length-noise_encrypt}
use camex.Noise.Handshake.{
  mix_e, finish_write, write_msg1, msg1_es, read_copy1, read_msg1, msg1_overhead,
}

-- The symmetric parts of two states are the same.
pub record IsTogether (a b : Hs) : Type 0 where
  pub same_cs : a.cs ≡ b.cs
  pub same_ck : a.ck ≡ b.ck
  pub same_h : a.h ≡ b.h

module _ (c : Crypto) where
  mix_hash-IsTogether :
      (a b : Hs) (x : List ℕ) → IsTogether a b → IsTogether (mix_hash c a x) (mix_hash c b x)
  unfolding mix_hash
  mix_hash-IsTogether a b x t = ground arith

  mix_key-IsTogether :
      (a b : Hs) (x : List ℕ) → IsTogether a b → IsTogether (mix_key c a x) (mix_key c b x)
  unfolding mix_key
  mix_key-IsTogether a b x t = ground arith

  mix_key_and_hash-IsTogether :
      (a b : Hs) (x : List ℕ)
      → IsTogether a b
      → IsTogether (mix_key_and_hash c a x) (mix_key_and_hash c b x)
  unfolding mix_key_and_hash mix_hash
  mix_key_and_hash-IsTogether a b x t = ground arith

  pub mix_e-IsTogether :
      (a b : Hs) (x : List ℕ) → IsTogether a b → IsTogether (mix_e c a x) (mix_e c b x)
  unfolding mix_e
  mix_e-IsTogether a b x t =
      mix_key-IsTogether (mix_hash c a x) (mix_hash c b x) x (mix_hash-IsTogether a b x t)

-- After message 1: the sides are in step, and the responder holds the public half of the
-- initiator's ephemeral key.
pub record IsPaired (c : Crypto) (e_priv : List ℕ) (i r : Hs) : Type 0 where
  pub together : IsTogether i r
  pub i_role : i.initiator ≡ true
  pub r_role : r.initiator ≡ false
  pub own_e : i.e_priv ≡ e_priv
  pub knows_e : r.re ≡ c.x25519_public_key e_priv

module _ {c : Crypto} (laws : CryptoLaws c) where
  -- The reader's end of a message whose body the writer encrypted.
  pub read_body :
      (a b : Hs) (shared payload : List ℕ)
      → IsTogether a b
      → let w = encrypt_and_hash c (mix_key c a shared) payload in
        (b' : Hs) × (decrypt_and_hash c (mix_key c b shared) w.0 ≡ some (payload, b'))
        × IsTogether w.1 b'
        × (b'.re ≡ b.re)
        × (b'.initiator ≡ b.initiator)
  read_body a b shared payload t =
      let m = mix_key-IsTogether c a b shared t in
      let w = encrypt_and_hash c (mix_key c a shared) payload in
      (
        record (mix_key c b shared) { cs = w.1.cs; h = w.1.h },
        decrypt_and_hash-encrypt laws (mix_key c a shared) (mix_key c b shared) payload m.same_cs
            m.same_h,
        unfold encrypt_and_hash mix_hash in
            record { same_cs = refl; same_ck = m.same_ck; same_h = refl },
        unfold mix_key in refl,
        unfold mix_key in refl,
      )

  module _ (i r : Hs) (psk e_seed shared payload : List ℕ) (out_size payload_size : ℕ) where
    abbrev e_priv : List ℕ
    e_priv = take dh_len e_seed

    abbrev e_pub : List ℕ
    e_pub = c.x25519_public_key e_priv

    abbrev i_start : Hs
    i_start = mix_e c (record (mix_key_and_hash c i psk) { e_priv = e_priv; e_pub = e_pub }) e_pub

    abbrev r_start : Hs
    r_start = mix_e c (record (mix_key_and_hash c r psk) { re = e_pub }) e_pub

    abbrev written : List ℕ × Hs
    written = encrypt_and_hash c (mix_key c i_start shared) payload

    writes1 :
        i.initiator ≡ true
        → dh c e_priv i.s_pub ≡ some shared
        → msg1_overhead + length payload ≤ out_size
        → write_msg1 c i psk e_seed payload out_size ≡ (some (e_pub ++ written.0), written.1)
    unfolding write_msg1 finish_write noise_keypair mix_e mix_key mix_hash mix_key_and_hash
    writes1 role d fits = ground arith

    length-written : length (e_pub ++ written.0) ≡ msg1_overhead + length payload
    unfolding encrypt_and_hash
    length-written = omega (
      arith,
      length-append e_pub written.0,
      laws.length-public_key e_priv,
      length-noise_encrypt laws (mix_key c i_start shared).cs.k (mix_key c i_start shared).cs.n
          (mix_key c i_start shared).h payload,
    )

    front : take dh_len (e_pub ++ written.0) ≡ e_pub
    front = take-append_length dh_len e_pub written.0 (omega (arith, laws.length-public_key e_priv))

    back : drop dh_len (e_pub ++ written.0) ≡ written.0
    back = drop-append_length dh_len e_pub written.0 (omega (arith, laws.length-public_key e_priv))

    finds_es :
        r.initiator ≡ false
        → dh c r.s_priv e_pub ≡ some shared
        → msg1_es c r (e_pub ++ written.0) ≡ some shared
    unfolding msg1_es
    finds_es role d = ground (arith, front, length-written)

    starts-IsTogether : IsTogether i r → IsTogether i_start r_start
    starts-IsTogether t = mix_e-IsTogether c _ _ e_pub (
        let m = mix_key_and_hash-IsTogether c i r psk t in
        record { same_cs = m.same_cs; same_ck = m.same_ck; same_h = m.same_h })

    reads1 :
        (r' : Hs)
        → r.initiator ≡ false
        → length payload ≤ payload_size
        → decrypt_and_hash c (mix_key c r_start shared) written.0 ≡ some (payload, r')
        → read_msg1 c r psk shared (e_pub ++ written.0) payload_size ≡ (some payload, r')
    unfolding read_msg1 read_copy1
    reads1 r' role fits e = ground (arith, front, back, length-written)

    -- Message 1 arrives: the responder finds the same shared secret, reads the payload, and the
    -- two sides are in step.
    pub msg1_arrives :
        IsTogether i r
        → i.initiator ≡ true
        → r.initiator ≡ false
        → i.s_pub ≡ c.x25519_public_key r.s_priv
        → dh c e_priv i.s_pub ≡ some shared
        → msg1_overhead + length payload ≤ out_size
        → length payload ≤ payload_size
        → (msg : List ℕ) × (i' r' : Hs) × (write_msg1 c i psk e_seed payload out_size
            ≡ (some msg, i'))
          × (msg1_es c r msg ≡ some shared)
          × (read_msg1 c r psk shared msg payload_size ≡ (some payload, r'))
          × IsPaired c e_priv i' r'
    unfolding mix_e mix_key mix_hash mix_key_and_hash encrypt_and_hash
    msg1_arrives t i_role r_role key d fits room =
        let got = read_body i_start r_start shared payload (starts-IsTogether t) in
        (
          e_pub ++ written.0,
          written.1,
          got.0,
          writes1 i_role d fits,
          finds_es r_role (unfold dh in (rw (laws.x25519_comm r.s_priv e_priv, ← key) d)),
          reads1 got.0 r_role room got.1,
          record {
            together = got.2;
            i_role = i_role;
            r_role = got.4 ∙ r_role;
            own_e = refl;
            knows_e = got.3;
          },
        )
