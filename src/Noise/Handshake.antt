-- ===== src/Noise/Handshake.antt =====
-- The two messages of the handshake in src/noise.c, on both sides, and `noise_split`.
pub mod Agree
pub mod Reply
pub mod Complete
use camex.Base.{
  ℕ, ◌+◌, ◌-◌, ◌≡◌, Bool, true, false, not, ◌||◌, Option, none, some, List, [], ◌∷◌, ◌++◌, length,
  take, drop, replicate, ltb, if◌then◌else◌,
}
use camex.Crypto.{Crypto}
use camex.Noise.Cipher.{
  Hs, CipherState, hash_len, key_len, dh_len, tag_len, protocol_name, hkdf, mix_hash, mix_key,
  mix_key_and_hash, encrypt_and_hash, decrypt_and_hash, dh, noise_keypair,
}

-- `NOISE_MSG1_OVERHEAD` and `NOISE_MSG2_OVERHEAD`
abbrev pub msg1_overhead : ℕ
msg1_overhead = dh_len + tag_len

abbrev pub msg2_overhead : ℕ
msg2_overhead = dh_len + tag_len

-- A failed read leaves the state as it was.
abbrev pub keep_on_failure : Hs → Option (List ℕ × Hs) → Option (List ℕ) × Hs
keep_on_failure hs none = (none, hs)
keep_on_failure hs (some (payload, t)) = (some payload, t)

-- `if (rc == 0) *hs = t`: the copy is taken over only when it read its message.
abbrev pub commit : Hs → Option (List ℕ) × Hs → Option (List ℕ) × Hs
commit hs (none, t) = (none, hs)
commit hs (some payload, t) = (some payload, t)

module _ (c : Crypto) where
  -- The protocol name is shorter than a hash: `h` is the name padded with zeros.
  unfoldable pub init_common : List ℕ → List ℕ → Hs
  init_common prologue server_pub =
      let name = protocol_name ++ replicate (hash_len - length protocol_name) 0 in
      let zeroed : Hs = record {
        cs = record { k = replicate key_len 0; n = 0; has_key = false };
        ck = name;
        h = name;
        s_priv = replicate dh_len 0;
        s_pub = replicate dh_len 0;
        e_priv = replicate dh_len 0;
        e_pub = replicate dh_len 0;
        re = replicate dh_len 0;
        initiator = false;
      } in
      mix_hash c (mix_hash c zeroed prologue) server_pub

  unfoldable pub init_initiator : List ℕ → List ℕ → Hs
  init_initiator prologue server_pub = record (init_common prologue server_pub) {
    s_pub = server_pub;
    initiator = true;
  }

  unfoldable pub init_responder : List ℕ → List ℕ → List ℕ → Hs
  init_responder prologue s_priv s_pub = record (init_common prologue s_pub) {
    s_priv = s_priv;
    s_pub = s_pub;
    initiator = false;
  }

  -- `mix_hash` and `mix_key` of an ephemeral public key
  unfoldable pub mix_e : Hs → List ℕ → Hs
  mix_e hs e = mix_key c (mix_hash c hs e) e

  -- The end of both writers: the DH result into the key, then `e.pub || AEAD(payload)`.
  unfoldable pub finish_write : Hs → List ℕ → List ℕ → Option (List ℕ) × Hs
  finish_write hs their_pub payload = elim (dh c hs.e_priv their_pub) [
    | none ↦ (none, hs)
    | some shared ↦
        let (body, hs') = encrypt_and_hash c (mix_key c hs shared) payload in
        (some (hs.e_pub ++ body), hs')
  ]

  -- `none` is the length 0 of a refusal; the state is returned as it is left.
  unfoldable pub write_msg1 : Hs → List ℕ → List ℕ → List ℕ → ℕ → Option (List ℕ) × Hs
  write_msg1 hs psk e_seed payload out_size =
      if not hs.initiator
        || ltb out_size msg1_overhead
        || ltb (out_size - msg1_overhead) (length payload)
      then (none, hs)
      else let (priv, pk) = noise_keypair c e_seed in
        let hs1 = record (mix_key_and_hash c hs psk) { e_priv = priv; e_pub = pk } in
        finish_write (mix_e hs1 pk) hs.s_pub payload

  unfoldable pub msg1_es : Hs → List ℕ → Option (List ℕ)
  msg1_es hs msg =
      if hs.initiator || ltb (length msg) msg1_overhead
      then none
      else dh c hs.s_priv (take dh_len msg)

  -- The static `read_msg1`, which changes the copy it is given, also when it fails.
  unfoldable pub read_copy1 : Hs → List ℕ → List ℕ → List ℕ → ℕ → Option (List ℕ) × Hs
  read_copy1 hs psk es msg payload_size =
      if hs.initiator
        || ltb (length msg) msg1_overhead
        || ltb payload_size (length msg - msg1_overhead)
      then (none, hs)
      else let re = take dh_len msg in
        let hs1 = record (mix_key_and_hash c hs psk) { re = re } in
        let hs2 = mix_key c (mix_e hs1 re) es in
        keep_on_failure hs2 (decrypt_and_hash c hs2 (drop dh_len msg))

  unfoldable pub write_msg2 : Hs → List ℕ → List ℕ → ℕ → Option (List ℕ) × Hs
  write_msg2 hs e_seed payload out_size =
      if hs.initiator
        || ltb out_size msg2_overhead
        || ltb (out_size - msg2_overhead) (length payload)
      then (none, hs)
      else let (priv, pk) = noise_keypair c e_seed in
        let hs1 = record hs { e_priv = priv; e_pub = pk } in
        finish_write (mix_e hs1 pk) hs.re payload

  -- The static `read_msg2`.
  unfoldable pub read_copy2 : Hs → List ℕ → ℕ → Option (List ℕ) × Hs
  read_copy2 hs msg payload_size =
      if not hs.initiator
        || ltb (length msg) msg2_overhead
        || ltb payload_size (length msg - msg2_overhead)
      then (none, hs)
      else let re = take dh_len msg in
        let hs1 = mix_e (record hs { re = re }) re in
        elim (dh c hs.e_priv re) [
          | none ↦ (none, hs1)
          | some shared ↦
              let hs2 = mix_key c hs1 shared in
              keep_on_failure hs2 (decrypt_and_hash c hs2 (drop dh_len msg))
        ]

  unfoldable pub read_msg1 : Hs → List ℕ → List ℕ → List ℕ → ℕ → Option (List ℕ) × Hs
  read_msg1 hs psk es msg payload_size = commit hs (read_copy1 hs psk es msg payload_size)

  unfoldable pub read_msg2 : Hs → List ℕ → ℕ → Option (List ℕ) × Hs
  read_msg2 hs msg payload_size = commit hs (read_copy2 hs msg payload_size)

  -- The keys `c1` and `c2`.
  unfoldable pub split : Hs → List ℕ × List ℕ
  split hs = let (k1, k2, _) = hkdf c hs.ck [] in (take key_len k1, take key_len k2)
