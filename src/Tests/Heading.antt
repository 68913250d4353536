-- ===== src/Tests/Heading.antt =====
-- Runs of the parser of headers.
use libgmbus.Base.{
  ◌+◌, ◌*◌, ◌/◌, ◌%◌, ◌^◌, true, [], ◌∷◌, ◌++◌, ◌≡◌, ◌≢◌, arith, codes, ok, fault, Fault,
}
use libgmbus.Tests.Addressing.{mail, element-IsReadable_app, element-IsReadable_id, mail-IsSorted}
use libgmbus.Header.{
  Header, MessageType, header_new, header_read, header_as_string, after_destination,
}
use libgmbus.Header.RoundTrip.{IsPrintable, header_read-header_as_string}
use libgmbus.Header.Ends.{vt, NoVt, Closes, Returns, after_destination-Returns}

abbrev pub greeting : Header
greeting = record {
  type = MessageType.reliable;
  sequence_no = 12;
  timestamp = 0;
  source = mail;
  destination = mail;
  acks = 3 ∷ 40 ∷ [];
  ok = true;
}

pub greeting-IsPrintable : IsPrintable greeting
greeting-IsPrintable = record {
  number_fits = omega arith;
  acks_fit = (omega arith, (omega arith, tt));
  source_readable = (element-IsReadable_app, (element-IsReadable_id, tt));
  source_sorted = mail-IsSorted;
  destination_readable = (element-IsReadable_app, (element-IsReadable_id, tt));
  destination_sorted = mail-IsSorted;
}

header_read-header_as_string_example :
    header_read header_new (header_as_string 1 2000 greeting ++ codes "\n")
    ≡ ok (
      true,
      record greeting {
        timestamp = (1 * 1000 + 2000 / 1000) % 2 ^ 64;
        source = record { elements = mail.elements; ok = true };
        destination = record { elements = mail.elements; ok = true };
        ok = true;
      },
      b')' ∷ codes "\n",
    )
header_read-header_as_string_example =
    header_read-header_as_string 1 2000 greeting (codes "\n") greeting-IsPrintable

after_destination-Returns_example :
    (NoVt (codes "1 2 )") → after_destination greeting (b'(' ∷ codes "1 2 )") ≢ fault Fault.endless)
    × (NoVt (codes "1 2 )")
        → Closes (codes "1 2 )")
        → Returns (after_destination greeting (b'(' ∷ codes "1 2 )")))
    × (after_destination greeting (b'(' ∷ vt ∷ codes "1 2 )") ≡ fault Fault.endless)
after_destination-Returns_example = after_destination-Returns greeting (codes "1 2 )")
