-- ===== src/Platform.antt =====
-- What the model takes from the code that is not in the repository, as operations with no assumption
-- on them: a theorem that needs one of their documented laws has it as a hypothesis.
use libgmbus.Base.{ℕ, Bytes}

-- A gdouble is its 64-bit pattern.
pub record Platform : Type 0 where
  -- The bytes that GLib reserves for a GByteArray of that size.
  pub room : ℕ → ℕ
  -- g_ascii_strtod, and g_string_append_printf with "%f".
  pub strtod : Bytes → ℕ
  pub print_double : ℕ → Bytes
  -- g_string_hash.
  pub string_hash : Bytes → ℕ
  -- The 16 bytes of an MD5 digest (gmbus/md5.c, a copy of a public implementation).
  pub md5 : Bytes → Bytes
