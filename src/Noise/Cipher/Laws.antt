-- ===== src/Noise/Cipher/Laws.antt =====
-- The transport cipher: what `noise_encrypt` writes, `noise_decrypt` reads.
use camex.Base.{
  ℕ, ◌+◌, ◌-◌, ◌≡◌, none, some, List, ◌++◌, length, take, drop, ltb, if◌then◌else◌, arith,
  length-append, length-take, ltb_false→le, take-append_length, drop-append_length, Bool-cases, inl,
  inr, ◌∙◌,
}
use camex.Crypto.{Crypto, CryptoLaws}
use camex.Noise.Cipher.{
  mix_hash, noise_encrypt, noise_decrypt, make_nonce, encrypt_and_hash, decrypt_and_hash, Hs,
  tag_len,
}

module _ {c : Crypto} (laws : CryptoLaws c) where
  pub length-noise_encrypt :
      (key : List ℕ) (n : ℕ) (ad plain : List ℕ)
      → length (noise_encrypt c key n ad plain) ≡ length plain + tag_len
  unfolding noise_encrypt
  length-noise_encrypt key n ad plain = omega (
    arith,
    length-append (c.aead_write key (make_nonce n) ad plain).0
        (c.aead_write key (make_nonce n) ad plain).1,
    laws.length-cipher key (make_nonce n) ad plain,
    laws.length-mac key (make_nonce n) ad plain,
  )

  -- Where the cipher text and the mac are told apart.
  read_parts :
      (key nonce ad cipher mac : List ℕ)
      → length mac ≡ tag_len
      → let out = cipher ++ mac in
        (if ltb (length out) tag_len
          then none
          else c.aead_read key nonce
              (drop (length out - tag_len) out)
              ad
              (take (length out - tag_len) out))
        ≡ c.aead_read key nonce mac ad cipher
  read_parts key nonce ad cipher mac e =
      let long : length (cipher ++ mac) ≡ length cipher + tag_len =
        omega (arith, length-append cipher mac) in
      ground (
        arith,
        take-append_length (length (cipher ++ mac) - tag_len) cipher mac (omega arith),
        drop-append_length (length (cipher ++ mac) - tag_len) cipher mac (omega arith),
      )

  -- Decryption undoes encryption under the same key, counter and associated data.
  pub decrypt-encrypt :
      (key : List ℕ) (n : ℕ) (ad plain : List ℕ)
      → noise_decrypt c key n ad (noise_encrypt c key n ad plain) ≡ some plain
  unfolding noise_decrypt noise_encrypt
  decrypt-encrypt key n ad plain =
      read_parts key (make_nonce n) ad (c.aead_write key (make_nonce n) ad plain).0
        (c.aead_write key (make_nonce n) ad plain).1 (laws.length-mac key (make_nonce n) ad plain)
      ∙ laws.read-write key (make_nonce n) ad plain

  -- A text that is accepted is 16 bytes shorter than its packet.
  pub length-noise_decrypt :
      (key : List ℕ) (n : ℕ) (ad input : List ℕ) {plain : List ℕ}
      → noise_decrypt c key n ad input ≡ some plain
      → length plain + tag_len ≡ length input
  unfolding noise_decrypt
  length-noise_decrypt key n ad input {plain} h = elim (Bool-cases (ltb (length input) tag_len)) [
    | inl short ↦ absurd (cc (rw short at h))
    | inr long ↦
        let read = rw long at h in
        omega (
          arith,
          laws.length-read key (make_nonce n) (drop (length input - tag_len) input) ad
              (take (length input - tag_len) input) plain read,
          length-take (length input - tag_len) input,
          ltb_false→le (length input) tag_len long,
        )
  ]

  -- The two symmetric states stay together: what one side encrypts, the other reads, and both
  -- have hashed the same cipher text.
  pub decrypt_and_hash-encrypt :
      (a b : Hs) (plain : List ℕ)
      → a.cs ≡ b.cs
      → a.h ≡ b.h
      → decrypt_and_hash c b (encrypt_and_hash c a plain).0
        ≡ some (
          plain,
          record b { cs = (encrypt_and_hash c a plain).1.cs; h = (encrypt_and_hash c a plain).1.h },
        )
  unfolding decrypt_and_hash encrypt_and_hash mix_hash
  decrypt_and_hash-encrypt a b plain e f = ground (arith, decrypt-encrypt b.cs.k b.cs.n b.h plain)
