-- ===== src/Noise/Handshake/Reply.antt =====
-- Message 2 of src/noise.c, from the responder back to the initiator.
use camex.Base.{
  ℕ, ◌+◌, ◌≤◌, ◌≡◌, refl, sym, ◌∙◌, true, false, some, List, ◌++◌, length, take, drop, arith,
  length-append, take-append_length, drop-append_length,
}
use camex.Crypto.{Crypto, CryptoLaws}
use camex.Noise.Cipher.{
  Hs, mix_hash, mix_key, dh_len, encrypt_and_hash, decrypt_and_hash, dh, noise_keypair,
}
use camex.Noise.Cipher.Laws.{length-noise_encrypt}
use camex.Noise.Handshake.{mix_e, finish_write, write_msg2, read_copy2, read_msg2, msg2_overhead}
use camex.Noise.Handshake.Agree.{IsTogether, IsPaired, mix_e-IsTogether, read_body}

module _ {c : Crypto} (laws : CryptoLaws c) (i r : Hs) (i_e_priv e_seed shared payload : List ℕ)
    (out_size payload_size : ℕ) where
  abbrev e_priv : List ℕ
  e_priv = take dh_len e_seed

  abbrev e_pub : List ℕ
  e_pub = c.x25519_public_key e_priv

  abbrev r_start : Hs
  r_start = mix_e c (record r { e_priv = e_priv; e_pub = e_pub }) e_pub

  abbrev i_start : Hs
  i_start = mix_e c (record i { re = e_pub }) e_pub

  abbrev written : List ℕ × Hs
  written = encrypt_and_hash c (mix_key c r_start shared) payload

  writes2 :
      r.initiator ≡ false
      → dh c e_priv r.re ≡ some shared
      → msg2_overhead + length payload ≤ out_size
      → write_msg2 c r e_seed payload out_size ≡ (some (e_pub ++ written.0), written.1)
  unfolding write_msg2 finish_write noise_keypair mix_e mix_key mix_hash
  writes2 role d fits = ground arith

  length-written : length (e_pub ++ written.0) ≡ msg2_overhead + length payload
  unfolding encrypt_and_hash
  length-written = omega (
    arith,
    length-append e_pub written.0,
    laws.length-public_key e_priv,
    length-noise_encrypt laws (mix_key c r_start shared).cs.k (mix_key c r_start shared).cs.n
        (mix_key c r_start shared).h payload,
  )

  front : take dh_len (e_pub ++ written.0) ≡ e_pub
  front = take-append_length dh_len e_pub written.0 (omega (arith, laws.length-public_key e_priv))

  back : drop dh_len (e_pub ++ written.0) ≡ written.0
  back = drop-append_length dh_len e_pub written.0 (omega (arith, laws.length-public_key e_priv))

  reads2 :
      (i' : Hs)
      → i.initiator ≡ true
      → dh c i.e_priv e_pub ≡ some shared
      → length payload ≤ payload_size
      → decrypt_and_hash c (mix_key c i_start shared) written.0 ≡ some (payload, i')
      → read_msg2 c i (e_pub ++ written.0) payload_size ≡ (some payload, i')
  unfolding read_msg2 read_copy2 mix_e mix_key mix_hash
  reads2 i' role d fits e = ground (arith, front, back, length-written)

  -- Message 2 arrives: the initiator reads the payload, and the two sides are in step.
  pub msg2_arrives :
      IsPaired c i_e_priv i r
      → dh c e_priv r.re ≡ some shared
      → msg2_overhead + length payload ≤ out_size
      → length payload ≤ payload_size
      → (msg : List ℕ) × (r' i' : Hs) × (write_msg2 c r e_seed payload out_size ≡ (some msg, r'))
        × (read_msg2 c i msg payload_size ≡ (some payload, i'))
        × IsTogether r' i'
  unfolding dh
  msg2_arrives p d fits room =
      let t : IsTogether r_start i_start = mix_e-IsTogether c _ _ e_pub (record {
        same_cs = sym p.together.same_cs;
        same_ck = sym p.together.same_ck;
        same_h = sym p.together.same_h;
      }) in
      let got = read_body laws r_start i_start shared payload t in
      let same : c.x25519 i.e_priv e_pub ≡ c.x25519 e_priv r.re =
        laws.x25519_comm i.e_priv e_priv ∙ rw (p.knows_e, p.own_e) refl in
      (
        e_pub ++ written.0,
        written.1,
        got.0,
        writes2 p.r_role d fits,
        reads2 got.0 p.i_role (rw same d) room got.1,
        got.2,
      )
