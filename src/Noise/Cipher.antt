-- ===== src/Noise/Cipher.antt =====
-- Hashing, key derivation, the transport cipher and the symmetric state of src/noise.c.
pub mod Laws
use camex.Base.{
  ℕ, zero, suc, ◌+◌, ◌-◌, ◌≡◌, ◌≢◌, Bool, true, false, Option, none, some, List, [], ◌∷◌, ◌++◌, map,
  length, take, drop, replicate, ltb, if◌then◌else◌, bit_xor, u8, u64, bytes_eq, le_bytes, codes,
}
use camex.Crypto.{Crypto}

abbrev pub hash_len : ℕ
hash_len = 64

abbrev pub key_len : ℕ
key_len = 32

abbrev pub dh_len : ℕ
dh_len = 32

abbrev pub tag_len : ℕ
tag_len = 16

abbrev pub block_len : ℕ
block_len = 128

-- `NOISE_PROTOCOL`
abbrev pub protocol_name : List ℕ
protocol_name = codes "Noise_NKpsk0_25519_ChaChaPoly_BLAKE2b"

-- `noise_cipher_t`
pub record CipherState : Type 0 where
  pub k : List ℕ
  pub n : ℕ
  pub has_key : Bool

-- `noise_hs_t`
pub record Hs : Type 0 where
  pub cs : CipherState
  pub ck : List ℕ
  pub h : List ℕ
  pub s_priv : List ℕ
  pub s_pub : List ℕ
  pub e_priv : List ℕ
  pub e_pub : List ℕ
  pub re : List ℕ
  pub initiator : Bool

-- `memcpy(dst, src, n)` of a source of at least `n` bytes, into a zeroed array
abbrev pad_zero : ℕ → List ℕ → List ℕ
pad_zero size xs = xs ++ replicate (size - length xs) 0

-- the loops that fill `pad`
abbrev xor_pad : ℕ → List ℕ → List ℕ
xor_pad b = map (λ x. u8 (bit_xor x b))

unfoldable pub make_nonce : ℕ → List ℕ
make_nonce n = replicate 4 0 ++ le_bytes 8 0 n

module _ (c : Crypto) where
  unfoldable pub noise_hmac : List ℕ → List ℕ → List ℕ
  noise_hmac key input =
      let k =
        pad_zero block_len (if ltb block_len (length key) then c.blake2b hash_len key else key) in
      let inner = c.blake2b hash_len (xor_pad 0x36 k ++ input) in
      c.blake2b hash_len (xor_pad 0x5c k ++ inner)

  -- The three outputs; a caller that passes NULL for `out3` drops the third.
  unfoldable pub hkdf : List ℕ → List ℕ → List ℕ × List ℕ × List ℕ
  hkdf ck ikm =
      let temp_key = noise_hmac ck ikm in
      let out1 = noise_hmac temp_key (1 ∷ []) in
      let out2 = noise_hmac temp_key (out1 ++ 2 ∷ []) in
      let out3 = noise_hmac temp_key (out2 ++ 3 ∷ []) in (out1, out2, out3)

  unfoldable pub noise_encrypt : List ℕ → ℕ → List ℕ → List ℕ → List ℕ
  noise_encrypt key n ad plain =
      let (cipher, mac) = c.aead_write key (make_nonce n) ad plain in cipher ++ mac

  -- `none` is the -1.
  unfoldable pub noise_decrypt : List ℕ → ℕ → List ℕ → List ℕ → Option (List ℕ)
  noise_decrypt key n ad input =
      if ltb (length input) tag_len
      then none
      else c.aead_read key (make_nonce n) (drop (length input - tag_len) input) ad
          (take (length input - tag_len) input)

  unfoldable pub mix_hash : Hs → List ℕ → Hs
  mix_hash hs bytes = record hs { h = c.blake2b hash_len (hs.h ++ bytes) }

  unfoldable pub mix_key : Hs → List ℕ → Hs
  mix_key hs ikm =
      let (ck, temp_k, _) = hkdf hs.ck ikm in
      record hs { cs = record { k = take key_len temp_k; n = 0; has_key = true }; ck = ck }

  unfoldable pub mix_key_and_hash : Hs → List ℕ → Hs
  mix_key_and_hash hs ikm =
      let (ck, temp_h, temp_k) = hkdf hs.ck ikm in
      let mixed = mix_hash (record hs { ck = ck }) temp_h in
      record mixed { cs = record { k = take key_len temp_k; n = 0; has_key = true } }

  abbrev count_up : CipherState → CipherState
  count_up cs = record cs { n = u64 (cs.n + 1) }

  unfoldable pub encrypt_and_hash : Hs → List ℕ → List ℕ × Hs
  encrypt_and_hash hs plain =
      let out = noise_encrypt hs.cs.k hs.cs.n hs.h plain in
      (out, mix_hash (record hs { cs = count_up hs.cs }) out)

  unfoldable pub decrypt_and_hash : Hs → List ℕ → Option (List ℕ × Hs)
  decrypt_and_hash hs input = elim (noise_decrypt hs.cs.k hs.cs.n hs.h input) [
    | none ↦ none
    | some plain ↦ some (plain, mix_hash (record hs { cs = count_up hs.cs }) input)
  ]

  -- `none` for an all-zero shared secret.
  unfoldable pub dh : List ℕ → List ℕ → Option (List ℕ)
  dh priv pk =
      let out = c.x25519 priv pk in if bytes_eq out (replicate dh_len 0) then none else some out

  -- The private and the public key.
  unfoldable pub noise_keypair : List ℕ → List ℕ × List ℕ
  noise_keypair seed = let priv = take dh_len seed in (priv, c.x25519_public_key priv)
