-- ===== src/Command/Read/RoundTrip.antt =====
-- The parsers of commands and payloads against their printers.
use libgmbus.Base.{
  ok_injective, ℕ, zero, suc, ◌<◌, ◌≤◌, Bool, true, false, ◌||◌, List, [], ◌∷◌, ◌++◌, none, some,
  ◌≡◌, refl, ap, ◌∙◌, sym, subst, arith, Bytes, ◌==◌, leb, All, length, length-append, length-drop,
  drop, append_assoc, append-nil, ok, Outcome, ◌>>=◌, >>=-eq-ok,
}
use libgmbus.Platform.{Platform}
use libgmbus.Util.{peek, scan_while}
use libgmbus.Util.Scan.{scan_while-append}
use libgmbus.Types.{nil, is_valid_char, list_as_string}
use libgmbus.Types.Symbols.{IsValid}
use libgmbus.Types.Read.{Reading, whole_text, list_read}
use libgmbus.Types.Read.Rounds.{AreReadable}
use libgmbus.Types.Read.RoundTrip.{list_as_string-opens, list_read_empty, list_read-list_as_string}
use libgmbus.Command.{
  Command, Payload, payload_new, new_with_name, as_string, cmds_as_string, payload_as_string,
}
use libgmbus.Command.Read.{
  string_erase, erased, command_new, command_read, skip_line, after_command, read_cmds,
  payload_read,
}

-- A command whose name is a text of symbol characters, and whose arguments can be read.
pub record IsPrintable (p : Platform) (c : Command) : Type 0 where
  pub name_valid : IsValid c.cmd
  pub arguments_readable : AreReadable p c.arguments
  pub is_ok : c.ok ≡ true

read_name :
    (name rest : Bytes)
    → IsValid name
    → scan_while is_valid_char (suc (length (name ++ b'(' ∷ rest))) (name ++ b'(' ∷ rest)
      ≡ (name, b'(' ∷ rest)
read_name name rest h =
    scan_while-append is_valid_char (suc (length (name ++ b'(' ∷ rest))) name (b'(' ∷ rest) h
      (omega (arith, length-append name (b'(' ∷ rest))) (unfold is_valid_char in refl)

command_read_parts :
    (p : Platform) (buf name rest : Bytes) (r : Reading)
    → scan_while is_valid_char (suc (length buf)) buf ≡ (name, rest)
    → list_read p (suc (length rest)) nil ([], rest) ≡ ok r
    → command_read p (new_with_name []) buf
      ≡ ok (record { cmd = name; arguments = r.1; ok = true }, erased r)
unfolding command_read new_with_name
command_read_parts p buf name rest r e k = rw (e, k) refl

-- Where a text has more than is erased, that is erased.
string_erase-drop :
    (buf : Bytes) (c d : ℕ) (rest : Bytes) → drop c buf ≡ d ∷ rest → string_erase buf c ≡ d ∷ rest
string_erase-drop buf c d rest e =
    let size = ap (λ (s : Bytes). length s) e in
    let fits : leb c (length buf) ≡ true = ground (arith, length-drop c buf, size) in rw fits e

-- The text of a printable command, with more behind it, is read as the command, and is erased.
pub command_read-as_string :
    (p : Platform) (c : Command) (text : Bytes) (d : ℕ) (more : Bytes)
    → IsPrintable p c
    → as_string p c ≡ ok text
    → command_read p (new_with_name []) (text ++ d ∷ more) ≡ ok (c, d ∷ more)
unfolding as_string
command_read-as_string p c text d more h e =
    let rest = d ∷ more in
    let k : Bytes → Outcome Bytes = λ t. ok (c.cmd ++ t) in
    let (t, list, whole) = >>=-eq-ok (list_as_string p c.arguments) k e in
    let (u, opens) = list_as_string-opens p c.arguments t list in
    let l : length t ≤ suc (length (t ++ rest)) = omega (arith, length-append t rest) in
    let (pos, read, left) =
      list_read-list_as_string p c.arguments t rest (suc (length (t ++ rest))) h.arguments_readable
        list l in
    let whole_opens : t ++ rest ≡ b'(' ∷ (u ++ rest) = ap (λ (s : Bytes). s ++ rest) opens in
    let name : scan_while is_valid_char (suc (length (c.cmd ++ (t ++ rest)))) (c.cmd ++ (t ++ rest))
        ≡ (c.cmd, t ++ rest) =
      subst
        (λ (s : Bytes).
          scan_while is_valid_char (suc (length (c.cmd ++ s))) (c.cmd ++ s) ≡ (c.cmd, s))
        (sym whole_opens) (read_name c.cmd (u ++ rest) h.name_valid) in
    ap (command_read p (new_with_name []))
      (ap (λ (s : Bytes). s ++ rest) (sym (ok_injective whole)) ∙ append_assoc c.cmd t rest)
    ∙ command_read_parts p (c.cmd ++ (t ++ rest)) c.cmd (t ++ rest)
        (some (length t), c.arguments, pos) name read
    ∙ rw (← h.is_ok) (
        ap (λ (s : Bytes). ok (c, s))
          (string_erase-drop (whole_text pos.0 pos.1) (length t) d more left))

no_empty_line :
    (name u rest : Bytes)
    → IsValid name
    → (peek ((name ++ b'(' ∷ u) ++ b'\n' ∷ rest) == b'\n'
        || leb (length ((name ++ b'(' ∷ u) ++ b'\n' ∷ rest)) 1)
      ≡ false
unfolding is_valid_char
no_empty_line [] u rest v = ground (arith, length-append u (b'\n' ∷ rest))
no_empty_line (c ∷ name) u rest v =
    ground (arith, length-append (name ++ b'(' ∷ u) (b'\n' ∷ rest), v.0)

-- Such a text is no empty line.
as_string-first :
    (p : Platform) (c : Command) (text rest : Bytes)
    → IsPrintable p c
    → as_string p c ≡ ok text
    → (peek (text ++ b'\n' ∷ rest) == b'\n' || leb (length (text ++ b'\n' ∷ rest)) 1) ≡ false
unfolding as_string
as_string-first p c text rest h e =
    let k : Bytes → Outcome Bytes = λ t. ok (c.cmd ++ t) in
    let (t, list, whole) = >>=-eq-ok (list_as_string p c.arguments) k e in
    let (u, opens) = list_as_string-opens p c.arguments t list in
    subst
      (λ (s : Bytes).
        (peek (s ++ b'\n' ∷ rest) == b'\n' || leb (length (s ++ b'\n' ∷ rest)) 1) ≡ false)
      (ap (◌++◌ c.cmd) (sym opens) ∙ ok_injective whole) (no_empty_line c.cmd u rest h.name_valid)

read_cmds_round :
    (p : Platform) (fuel : ℕ) (c : Command) (acc : List Command) (t u : Bytes)
    → (peek (t ++ b'\n' ∷ u) == b'\n' || leb (length (t ++ b'\n' ∷ u)) 1) ≡ false
    → IsPrintable p c
    → as_string p c ≡ ok t
    → read_cmds p (suc fuel) acc (t ++ b'\n' ∷ u) ≡ read_cmds p fuel (acc ++ c ∷ []) u
unfolding read_cmds after_command skip_line
read_cmds_round p fuel c acc t u line h e =
    rw (read_cmds, line, command_read-as_string p c t b'\n' u h e, h.is_ok)
      (ap (λ (b : Bool). read_cmds p fuel (acc ++ record c { ok = b } ∷ []) u) h.is_ok)

read_cmds-cmds_as_string :
    (p : Platform) (cs acc : List Command) (text : Bytes) (fuel : ℕ)
    → All (IsPrintable p) cs
    → cmds_as_string p cs ≡ ok text
    → length text < fuel
    → read_cmds p fuel acc text ≡ ok (true, acc ++ cs, [])
unfolding cmds_as_string
read_cmds-cmds_as_string p cs acc text zero h e l = absurd (omega arith)
read_cmds-cmds_as_string p [] acc text (suc fuel) h e l =
    subst (λ (t : Bytes). read_cmds p (suc fuel) acc t ≡ ok (true, acc ++ [], [])) (ok_injective e)
      (unfold read_cmds in rw (append-nil acc) refl)
read_cmds-cmds_as_string p (c ∷ cs) acc text (suc fuel) h e l =
    let more : Bytes → Bytes → Outcome Bytes = λ t u. ok (t ++ b'\n' ∷ u) in
    let behind : Bytes → Outcome Bytes = λ t. cmds_as_string p cs >>= more t in
    let (t, one, e₁) = >>=-eq-ok (as_string p c) behind e in
    let (u, rest, e₂) = >>=-eq-ok (cmds_as_string p cs) (more t) e₁ in
    let whole = ok_injective e₂ in
    let shorter : length u < fuel = omega (arith, ap length whole, length-append t (b'\n' ∷ u)) in
    subst (λ (s : Bytes). read_cmds p (suc fuel) acc s ≡ ok (true, acc ++ c ∷ cs, [])) whole
      (read_cmds_round p fuel c acc t u (as_string-first p c t u h.0 one) h.0 one
        ∙ read_cmds-cmds_as_string p cs (acc ++ c ∷ []) u fuel h.1 rest shorter
        ∙ ap (λ (l : List Command). ok (true, l, [])) (append_assoc acc (c ∷ []) cs))

-- The text of a payload of printable commands is read as these commands behind those that are there,
-- to its end.
pub payload_read-payload_as_string :
    (p : Platform) (self other : Payload) (text : Bytes)
    → All (IsPrintable p) other.cmds
    → payload_as_string p other ≡ ok text
    → payload_read p self text ≡ ok (true, record { cmds = self.cmds ++ other.cmds; ok = true }, [])
unfolding payload_read payload_as_string
payload_read-payload_as_string p self other text h e =
    rw (read_cmds-cmds_as_string p other.cmds self.cmds text (suc (length text)) h e (omega arith))
      refl

pub payload_read_empty : (p : Platform) → payload_read p payload_new [] ≡ ok (true, payload_new, [])
unfolding payload_read payload_new read_cmds
payload_read_empty p = refl

scan_while-All :
    (test : ℕ → Bool) (room : ℕ) (s : Bytes)
    → All (λ c. test c ≡ true) s
    → length s < room
    → test 0 ≡ false
    → scan_while test room s ≡ (s, [])
scan_while-All test room s h l zero_ends =
    ap (scan_while test room) (sym (append-nil s)) ∙ scan_while-append test room s [] h l zero_ends

-- A name alone is a command without arguments.
pub command_new-name :
    (p : Platform) (name : Bytes)
    → IsValid name
    → command_new p (some name) ≡ ok (new_with_name name)
command_new-name p name h =
    let parts =
      command_read_parts p name name [] (none, nil, ([], []))
        (scan_while-All is_valid_char (suc (length name)) name h (omega arith)
          (unfold is_valid_char in refl))
        (list_read_empty p 1) in
    unfold command_new new_with_name in rw parts refl
