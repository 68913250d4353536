-- ===== src/Header/RoundTrip.antt =====
-- mbus_header_read against mbus_header_as_string.
use libgmbus.Base.{
  ℕ, zero, suc, ◌+◌, ◌*◌, ◌/◌, ◌%◌, ◌^◌, ◌<◌, ◌≤◌, true, false, List, [], ◌∷◌, ◌++◌, ◌≡◌, refl, ap,
  ◌∙◌, arith, Bytes, str_eq, All, length, length-append, drop, drop-append_suc, append_assoc,
  append-nil, isdigit, ok,
}
use libgmbus.Util.{int64_to_str}
use libgmbus.Util.Blanks.{cut_whitespaces_stop, cut_whitespaces_blank}
use libgmbus.Util.Decimal.{str_to_uint64-int64_to_str, int64_to_str_positive}
use libgmbus.Util.Scan.{scan_while-append}
use libgmbus.Address
use libgmbus.Address.{Address, address_new, address_read}
use libgmbus.Address.Sort.{IsSorted}
use libgmbus.Address.Parse.{
  IsReadable, address_read-as_string_sorted, address_read_blank, cut_whitespaces-as_string,
}
use libgmbus.Header.{
  Header, MessageType, header_new, pvers, number, read_acks, after_destination, after_source,
  after_type, message_type, after_sequence_no, after_pvers, header_read, acks_as_string, type_char,
  header_as_string,
}
use libgmbus.Header.Numbers.{cut_number, number-digits, peek-digits}

read_acks_blank :
    (fuel : ℕ) (self : Header) (s : Bytes) → read_acks fuel self (b' ' ∷ s) ≡ read_acks fuel self s
unfolding read_acks
read_acks_blank zero self s = refl
read_acks_blank (suc fuel) self s = rw (cut_whitespaces_blank s) refl

-- One number, with the blank behind it.
read_acks_step :
    (fuel : ℕ) (self : Header) (v : ℕ) (rest : Bytes)
    → v < 2 ^ 64
    → read_acks (suc fuel) self (int64_to_str v false ++ b' ' ∷ rest)
      ≡ read_acks fuel (record self { acks = self.acks ++ v ∷ [] }) (b' ' ∷ rest)
unfolding read_acks
read_acks_step fuel self v rest small =
    rw
      (
        cut_number v small (b' ' ∷ rest),
        number-digits v small b' ' rest refl,
        peek-digits v small (b' ' ∷ rest),
        str_to_uint64-int64_to_str v small,
      )
      refl

read_acks-acks_as_string :
    (fuel : ℕ) (self : Header) (acks : List ℕ) (rest : Bytes)
    → All (λ v. v < 2 ^ 63) acks
    → length acks < fuel
    → read_acks fuel self (acks_as_string acks ++ b')' ∷ rest)
      ≡ ok (true, record self { acks = self.acks ++ acks; ok = true }, b')' ∷ rest)
unfolding acks_as_string
read_acks-acks_as_string zero self acks rest h l = absurd (omega arith)
read_acks-acks_as_string (suc fuel) self [] rest h l =
    unfold read_acks number in
    rw
      (
        cut_whitespaces_stop b')' rest refl,
        scan_while-append isdigit 64 [] (b')' ∷ rest) tt (omega arith) refl,
        append-nil,
      )
      refl
read_acks-acks_as_string (suc fuel) self (v ∷ acks) rest h l =
    let behind = acks_as_string acks ++ b')' ∷ rest in
    rw (int64_to_str_positive v h.0, append_assoc)
      (read_acks_step fuel self v behind (omega (arith, h.0))
        ∙ read_acks_blank fuel (record self { acks = self.acks ++ v ∷ [] }) behind
        ∙ read_acks-acks_as_string fuel (record self { acks = self.acks ++ v ∷ [] }) acks rest h.1
            (omega arith)
        ∙ rw append_assoc refl)

length-acks_as_string : (acks : List ℕ) → length acks ≤ length (acks_as_string acks)
unfolding acks_as_string
length-acks_as_string [] = omega arith
length-acks_as_string (v ∷ acks) = omega (
  arith,
  length-append (int64_to_str v true) (b' ' ∷ acks_as_string acks),
  length-acks_as_string acks,
)

module _ (acks : List ℕ) (rest : Bytes) (small : All (λ v. v < 2 ^ 63) acks) where
  abbrev acks_text : Bytes
  acks_text = b' ' ∷ b'(' ∷ (acks_as_string acks ++ b')' ∷ rest)

  after_destination_text :
      (self : Header)
      → after_destination self acks_text
        ≡ ok (true, record self { acks = self.acks ++ acks; ok = true }, b')' ∷ rest)
  unfolding after_destination
  after_destination_text self =
      let text = acks_as_string acks ++ b')' ∷ rest in
      rw (cut_whitespaces_blank (b'(' ∷ text), cut_whitespaces_stop b'(' text refl)
        (read_acks-acks_as_string (suc (length (b'(' ∷ text))) self acks rest small (
          omega
            (arith, length-acks_as_string acks, length-append (acks_as_string acks) (b')' ∷ rest))))

  module _ (destination : Address) (readable : All IsReadable destination.elements)
      (sorted : IsSorted destination.elements) where
    abbrev destination_text : Bytes
    destination_text = b' ' ∷ (Address.as_string destination ++ acks_text)

    abbrev read_whole : Address → Address
    read_whole a = record { elements = a.elements; ok = true }

    after_source_text :
        (self : Header)
        → self.destination ≡ address_new
        → after_source self destination_text
          ≡ ok (
            true,
            record self {
              destination = read_whole destination;
              acks = self.acks ++ acks;
              ok = true;
            },
            b')' ∷ rest,
          )
    unfolding after_source
    after_source_text self new =
        rw
          (
            new,
            address_read_blank address_new (Address.as_string destination ++ acks_text),
            address_read-as_string_sorted destination acks_text readable sorted,
          )
          (after_destination_text (record self { destination = read_whole destination }))

    module _ (source : Address) (readable_source : All IsReadable source.elements)
        (sorted_source : IsSorted source.elements) where
      abbrev source_text : Bytes
      source_text = b' ' ∷ (Address.as_string source ++ destination_text)

      -- The addresses and the acknowledgements, read.
      abbrev finished : Header → Header
      finished self = record self {
        source = read_whole source;
        destination = read_whole destination;
        acks = self.acks ++ acks;
        ok = true;
      }

      after_type_text :
          (self : Header)
          → self.source ≡ address_new
          → self.destination ≡ address_new
          → after_type self source_text ≡ ok (true, finished self, b')' ∷ rest)
      unfolding after_type
      after_type_text self new new_destination =
          rw
            (
              cut_whitespaces_blank (Address.as_string source ++ destination_text),
              cut_whitespaces-as_string source destination_text,
              new,
              address_read-as_string_sorted source destination_text readable_source sorted_source,
            )
            (after_source_text (record self { source = read_whole source }) new_destination)

      message_type_text :
          (t : MessageType) (self : Header)
          → self.source ≡ address_new
          → self.destination ≡ address_new
          → message_type self (type_char t ∷ source_text)
            ≡ ok (true, finished (record self { type = t }), b')' ∷ rest)
      unfolding message_type type_char
      message_type_text MessageType.unreliable self new new_destination =
          after_type_text (record self { type = MessageType.unreliable }) new new_destination
      message_type_text MessageType.reliable self new new_destination =
          after_type_text (record self { type = MessageType.reliable }) new new_destination

      module _ (timestamp : ℕ) (fits : timestamp < 2 ^ 64) (t : MessageType) where
        abbrev timestamp_text : Bytes
        timestamp_text = int64_to_str timestamp false ++ b' ' ∷ type_char t ∷ source_text

        after_sequence_no_text :
            (self : Header)
            → self.source ≡ address_new
            → self.destination ≡ address_new
            → after_sequence_no self timestamp_text
              ≡ ok (true, finished (record self { timestamp = timestamp; type = t }), b')' ∷ rest)
        unfolding after_sequence_no
        after_sequence_no_text self new new_destination =
            rw
              (
                cut_number timestamp fits (b' ' ∷ type_char t ∷ source_text),
                number-digits timestamp fits b' ' (type_char t ∷ source_text) refl,
                str_to_uint64-int64_to_str timestamp fits,
                drop-append_suc (int64_to_str timestamp false) b' ' (type_char t ∷ source_text),
              )
              (message_type_text t (record self { timestamp = timestamp }) new new_destination)

        module _ (sequence_no : ℕ) (counts : sequence_no < 2 ^ 64) where
          after_pvers_text :
              (self : Header)
              → self.source ≡ address_new
              → self.destination ≡ address_new
              → after_pvers self (b' ' ∷ (int64_to_str sequence_no false ++ b' ' ∷ timestamp_text))
                ≡ ok (
                  true,
                  finished
                      (record self { sequence_no = sequence_no; timestamp = timestamp; type = t }),
                  b')' ∷ rest,
                )
          unfolding after_pvers
          after_pvers_text self new new_destination =
              rw
                (
                  cut_whitespaces_blank (int64_to_str sequence_no false ++ b' ' ∷ timestamp_text),
                  cut_number sequence_no counts (b' ' ∷ timestamp_text),
                  number-digits sequence_no counts b' ' timestamp_text refl,
                  str_to_uint64-int64_to_str sequence_no counts,
                  drop-append_suc (int64_to_str sequence_no false) b' ' timestamp_text,
                )
                (after_sequence_no_text (record self { sequence_no = sequence_no }) new
                  new_destination)

-- What a header must be to be read back: its number fits 64 bits, its acknowledgements 63, and its
-- addresses are sorted and can be read.
pub record IsPrintable (h : Header) : Type 0 where
  pub number_fits : h.sequence_no < 2 ^ 64
  pub acks_fit : All (λ v. v < 2 ^ 63) h.acks
  pub source_readable : All IsReadable h.source.elements
  pub source_sorted : IsSorted h.source.elements
  pub destination_readable : All IsReadable h.destination.elements
  pub destination_sorted : IsSorted h.destination.elements

header_read-pvers :
    (text : Bytes)
    → header_read header_new (pvers ++ text) ≡ after_pvers (record header_new { ok = false }) text
unfolding header_read str_eq
header_read-pvers text = rw (cut_whitespaces_stop b'm' (drop 1 pvers ++ text) refl) refl

header_as_string-append :
    (tv_sec tv_usec : ℕ) (h : Header) (rest : Bytes)
    → header_as_string tv_sec tv_usec h ++ rest
      ≡ pvers
        ++ b' '
          ∷ (int64_to_str h.sequence_no false
              ++ b' '
                ∷ (int64_to_str ((tv_sec * 1000 + tv_usec / 1000) % 2 ^ 64) false
                    ++ b' '
                      ∷ type_char h.type
                      ∷ b' '
                      ∷ (Address.as_string h.source
                          ++ b' '
                            ∷ (Address.as_string h.destination
                                ++ b' ' ∷ b'(' ∷ (acks_as_string h.acks ++ b')' ∷ rest)))))
unfolding header_as_string
header_as_string-append tv_sec tv_usec h rest =
    rw (append_assoc, append_assoc, append_assoc, append_assoc, append_assoc, append_assoc) refl

-- A printable header that is printed at a time is read back with that time in milliseconds modulo
-- 2^64, and everything else as it was; the ')' stays in the text, and what stands behind it.
pub header_read-header_as_string :
    (tv_sec tv_usec : ℕ) (h : Header) (rest : Bytes)
    → IsPrintable h
    → header_read header_new (header_as_string tv_sec tv_usec h ++ rest)
      ≡ ok (
        true,
        record h {
          timestamp = (tv_sec * 1000 + tv_usec / 1000) % 2 ^ 64;
          source = record { elements = h.source.elements; ok = true };
          destination = record { elements = h.destination.elements; ok = true };
          ok = true;
        },
        b')' ∷ rest,
      )
unfolding header_new
header_read-header_as_string tv_sec tv_usec h rest q =
    ap (header_read header_new) (header_as_string-append tv_sec tv_usec h rest)
    ∙ header_read-pvers _
    ∙ after_pvers_text h.acks rest q.acks_fit h.destination q.destination_readable
        q.destination_sorted h.source q.source_readable q.source_sorted
        ((tv_sec * 1000 + tv_usec / 1000) % 2 ^ 64) (omega arith) h.type h.sequence_no q.number_fits
        (record header_new { ok = false }) refl refl
