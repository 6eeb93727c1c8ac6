-- ===== src/Noise.antt =====
-- src/noise.h and src/noise.c: Noise_NKpsk0_25519_ChaChaPoly_BLAKE2b. A function that fills
-- `out` returns the bytes; one that updates `*hs` returns the new state beside its result, also
-- where it fails. `crypto_wipe` of locals leaves no trace in the model.
pub mod Cipher
pub mod Handshake
