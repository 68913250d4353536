-- ===== src/Base/Chars.antt =====
-- Bytes and texts, and the character classes of GLib and of C's "C" locale.
use Prim.Native.Nat.{ℕ, ◌%◌}
use Prim.Native.Char.{code}
use Prim.Native.String.{String}
use mathlib.Core.Bool.{Bool, true, false, ◌&&◌, ◌||◌}
use mathlib.Core.List.{List, [], ◌∷◌}
use mathlib.Core.Path.{◌≡◌, refl}
use mathlib.Core.Logic.{◌↔◌}
use native.Mathlib.Omega.{arith}
use libgmbus.Base.Tests.{leb, ltb, ◌==◌}

abbrev pub Bytes : Type 0
Bytes = List ℕ

-- The code points of a literal: its bytes, if it is ASCII.
abbrev pub codes : String → Bytes
codes String.[] = []
codes (String.◌∷◌ c s) = code c ∷ codes s

-- A store into a guint8.
abbrev pub u8 : ℕ → ℕ
u8 n = n % 256

-- g_ascii_isspace: blank, tab, newline, form feed, carriage return.
abbrev pub g_ascii_isspace : ℕ → Bool
g_ascii_isspace c = c == 32 || c == 9 || c == 10 || c == 12 || c == 13

-- isspace: those and the vertical tab.
abbrev pub isspace : ℕ → Bool
isspace c = c == 32 || (leb 9 c && leb c 13)

abbrev pub isdigit : ℕ → Bool
isdigit c = leb b'0' c && leb c b'9'

abbrev pub g_ascii_isupper : ℕ → Bool
g_ascii_isupper c = leb b'A' c && leb c b'Z'

abbrev pub g_ascii_isalpha : ℕ → Bool
g_ascii_isalpha c = (leb b'A' c && leb c b'Z') || (leb b'a' c && leb c b'z')

abbrev pub g_ascii_isalnum : ℕ → Bool
g_ascii_isalnum c = g_ascii_isalpha c || isdigit c

abbrev pub g_ascii_iscntrl : ℕ → Bool
g_ascii_iscntrl c = ltb c 32 || c == 127

-- strcmp( s, t ) == 0 on texts with no NUL inside.
unfoldable pub str_eq : Bytes → Bytes → Bool
str_eq [] [] = true
str_eq [] (d ∷ t) = false
str_eq (c ∷ s) [] = false
str_eq (c ∷ s) (d ∷ t) = c == d && str_eq s t

pub str_eq_self : (s : Bytes) → str_eq s s ≡ true
unfolding str_eq
str_eq_self [] = refl
str_eq_self (c ∷ s) = ground (arith, str_eq_self s)

pub str_eq_sound : (s t : Bytes) → str_eq s t ≡ true → s ≡ t
unfolding str_eq
str_eq_sound [] [] h = refl
str_eq_sound [] (d ∷ t) h = cc
str_eq_sound (c ∷ s) [] h = cc
str_eq_sound (c ∷ s) (d ∷ t) h = ground (arith, str_eq_sound s t)

pub str_eq_iff : (s t : Bytes) → (str_eq s t ≡ true) ↔ (s ≡ t)
str_eq_iff s t = (str_eq_sound s t, λ e. rw e (str_eq_self t))
