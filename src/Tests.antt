-- ===== src/Tests.antt =====
-- Runs of the model at concrete inputs, on a platform that keeps what is documented of the code
-- outside.
pub mod Coding
pub mod Addressing
pub mod Values
pub mod Session
pub mod Acknowledging
pub mod Heading
pub mod Reading
pub mod Linking
pub mod Calling
pub mod Exchanging
pub mod Arriving
pub mod Configuring
use libgmbus.Base.{ℕ, ◌+◌, [], ◌∷◌, Bytes, replicate}
use libgmbus.Platform.{Platform}

-- Sixteen bytes of any text, sixteen bytes to spare in an array, and the first byte as a hash value.
abbrev first_byte : Bytes → ℕ
first_byte [] = 0
first_byte (c ∷ s) = c

abbrev pub platform : Platform
platform = record {
  room = λ n. n + 16;
  strtod = λ s. 0;
  print_double = λ number. b'0' ∷ [];
  string_hash = first_byte;
  md5 = λ s. replicate 16 7;
}
