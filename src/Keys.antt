-- ===== src/Keys.antt =====
-- Keys as text: base64 and hexadecimal, src/keys.c. Text is the list of its character codes, without
-- the NUL that ends it.
pub mod Text
pub mod Digits
pub mod RoundTrip
pub mod Hex
