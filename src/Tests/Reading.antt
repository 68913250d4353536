-- ===== src/Tests/Reading.antt =====
-- Runs of the parsers of objects, commands, payloads and messages.
use libgmbus.Base.{
  All, ◌-◌, ◌^◌, true, [], ◌∷◌, ◌++◌, none, some, ◌≡◌, refl, arith, Bytes, codes, length, drop, ok,
  fault, Fault,
}
use libgmbus.Tests.{platform}
use libgmbus.Tests.Heading.{greeting, greeting-IsPrintable}
use libgmbus.Types.{
  Objects, minteger, mstring, msymbol, mlist, nil, cons, is_valid_char, is_valid_symbol,
  elements_as_string, list_as_string,
}
use libgmbus.Types.Read.{Cursor, list_read, whole_text}
use libgmbus.Types.Read.Rounds.{IsReadable, AreReadable}
use libgmbus.Util.{find_char, int64_to_str, build_number, digit}
use libgmbus.Types
use libgmbus.Types.Read.RoundTrip.{list_read-list_as_string}
use libgmbus.Types.Read.Endless.{list_read-endless}
use libgmbus.Command.{Payload, as_string, cmds_as_string, payload_as_string}
use libgmbus.Command.Read.{payload_read}
use libgmbus.Command.Read.RoundTrip.{payload_read-payload_as_string}
use libgmbus.Command.Read.RoundTrip as CommandText
use libgmbus.Types.Symbols.{IsValid}
use libgmbus.Header.{header_as_string}
use libgmbus.Message.{Message, message_new, message_as_string}
use libgmbus.Message.Read.{message_read}
use libgmbus.Message.Read.RoundTrip as MessageText
use libgmbus.Message.Read.RoundTrip.{message_read-message_as_string, header_at}

-- (-1 "a b" OK (7 ) )
abbrev arguments : Objects
arguments = cons (minteger (2 ^ 64 - 1)) (
    cons (mstring (codes "a b"))
      (cons (msymbol (codes "OK")) (cons (mlist (cons (minteger 7) nil)) nil)))

arguments_text : list_as_string platform arguments ≡ ok (codes "(-1 \"a b\" OK (7 ) )")
unfolding Types.as_string elements_as_string int64_to_str build_number digit
arguments_text = refl

arguments_readable : AreReadable platform arguments
unfolding IsReadable is_valid_symbol
arguments_readable =
    (omega arith, ((refl, (refl, (refl, tt))), ((refl, refl), ((omega arith, tt), tt))))

list_read-list_as_string_example :
    (pos : Cursor) × (list_read platform 20 nil ([], codes "(-1 \"a b\" OK (7 ) )" ++ codes "\n")
      ≡ ok (some (length (codes "(-1 \"a b\" OK (7 ) )")), arguments, pos))
    × (drop (length (codes "(-1 \"a b\" OK (7 ) )")) (whole_text pos.0 pos.1) ≡ codes "\n")
list_read-list_as_string_example =
    list_read-list_as_string platform arguments (codes "(-1 \"a b\" OK (7 ) )") (codes "\n") 20
      arguments_readable arguments_text (omega arith)

no_quote : find_char (codes "abc)") b'"' ≡ none
unfolding find_char
no_quote = refl

list_read-endless_example :
    list_read platform 1000 nil ([], codes "( (\"abc)") ≡ fault Fault.endless
list_read-endless_example = list_read-endless platform 1000 (codes "abc)") no_quote

-- mail.hello with these arguments, and a call without any.
abbrev pub commands : Payload
commands = record {
  cmds =
      record { cmd = codes "mail.hello"; arguments = arguments; ok = true }
      ∷ record { cmd = codes "quit"; arguments = nil; ok = true }
      ∷ [];
  ok = true;
}

abbrev pub lines : Bytes
lines = codes "mail.hello(-1 \"a b\" OK (7 ) )\nquit()\n"

pub lines_text : payload_as_string platform commands ≡ ok lines
unfolding payload_as_string cmds_as_string as_string Types.as_string elements_as_string int64_to_str
    build_number digit
lines_text = refl

name-IsValid_hello : IsValid (codes "mail.hello")
unfolding is_valid_char
name-IsValid_hello =
    (refl, (refl, (refl, (refl, (refl, (refl, (refl, (refl, (refl, (refl, tt))))))))))

name-IsValid_quit : IsValid (codes "quit")
unfolding is_valid_char
name-IsValid_quit = (refl, (refl, (refl, (refl, tt))))

no_arguments : AreReadable platform nil
unfolding AreReadable
no_arguments = tt

pub commands-IsPrintable : All (CommandText.IsPrintable platform) commands.cmds
commands-IsPrintable = (
  record { name_valid = name-IsValid_hello; arguments_readable = arguments_readable; is_ok = refl },
  (record { name_valid = name-IsValid_quit; arguments_readable = no_arguments; is_ok = refl }, tt),
)

payload_read-payload_as_string_example :
    payload_read platform commands lines
    ≡ ok (true, record { cmds = commands.cmds ++ commands.cmds; ok = true }, [])
payload_read-payload_as_string_example =
    payload_read-payload_as_string platform commands commands lines commands-IsPrintable lines_text

abbrev pub hello : Message
hello = record { header = greeting; payload = commands; ok = true; current = 0 }

pub hello_text :
    message_as_string platform 1 2000 hello ≡ ok (header_as_string 1 2000 greeting ++ b'\n' ∷ lines)
unfolding message_as_string
hello_text = rw lines_text refl

pub hello-IsPrintable : MessageText.IsPrintable platform hello
hello-IsPrintable = record {
  header_printable = greeting-IsPrintable;
  commands_printable = commands-IsPrintable;
}

message_read-message_as_string_example :
    message_read platform message_new (header_as_string 1 2000 greeting ++ b'\n' ∷ lines)
    ≡ ok (
      true,
      record {
        header = header_at 1 2000 greeting;
        payload = record { cmds = commands.cmds; ok = true };
        ok = true;
        current = 0;
      },
      [],
    )
message_read-message_as_string_example =
    message_read-message_as_string platform 1 2000 hello
      (header_as_string 1 2000 greeting ++ b'\n' ∷ lines) hello-IsPrintable hello_text
