-- ===== src/Crypto.antt =====
-- What the program takes from Monocypher (src/monocypher.h), which is another project's library:
-- hashing, X25519 and ChaCha20-Poly1305 as operations on byte strings, and the documented laws.
-- An incremental hash (init, update, final) is the hash of the concatenated updates.
use camex.Base.{ℕ, ◌≡◌, Option, some, List, length}

pub record Crypto : Type 0 where
  -- `crypto_blake2b(hash, hash_size, message, message_size)`
  pub blake2b : ℕ → List ℕ → List ℕ
  -- `crypto_blake2b_keyed`: size, key, message
  pub blake2b_keyed : ℕ → List ℕ → List ℕ → List ℕ
  -- `crypto_x25519(raw_shared_secret, your_secret_key, their_public_key)`
  pub x25519 : List ℕ → List ℕ → List ℕ
  pub x25519_public_key : List ℕ → List ℕ
  -- `crypto_aead_init_ietf` and one `crypto_aead_write`: key, nonce, ad, text; cipher text and mac
  pub aead_write : List ℕ → List ℕ → List ℕ → List ℕ → List ℕ × List ℕ
  -- `crypto_aead_init_ietf` and one `crypto_aead_read`: key, nonce, mac, ad, cipher text
  pub aead_read : List ℕ → List ℕ → List ℕ → List ℕ → List ℕ → Option (List ℕ)

pub record CryptoLaws (c : Crypto) : Type 0 where
  pub length-public_key : (k : List ℕ) → length (c.x25519_public_key k) ≡ 32
  -- Diffie and Hellman's exchange: both sides compute one secret.
  pub x25519_comm :
      (a b : List ℕ) → c.x25519 a (c.x25519_public_key b) ≡ c.x25519 b (c.x25519_public_key a)
  pub length-cipher : (k n ad p : List ℕ) → length (c.aead_write k n ad p).0 ≡ length p
  pub length-mac : (k n ad p : List ℕ) → length (c.aead_write k n ad p).1 ≡ 16
  pub read-write :
      (k n ad p : List ℕ)
      → c.aead_read k n (c.aead_write k n ad p).1 ad (c.aead_write k n ad p).0 ≡ some p
  -- The cipher is a stream cipher: what is read is as long as what was authenticated.
  pub length-read :
      (k n mac ad x p : List ℕ) → c.aead_read k n mac ad x ≡ some p → length p ≡ length x
