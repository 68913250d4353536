-- ===== src/Link/Events.antt =====
-- What __mbus_link_udp_event tells the transports.
use libgmbus.Base.{
  List, ℕ, Bool, true, false, map, some, ◌≡◌, refl, ◌⊎◌, Bytes, codes, ok, fault, Fault, Outcome,
  [],
}
use libgmbus.Platform.{Platform}
use libgmbus.Util.{ErrorType, error_reset, error_set}
use libgmbus.Config.{Config}
use libgmbus.Coder.{Coder, decode}
use libgmbus.Message.{Message}
use libgmbus.Link.{Link, Action, when_message, link_when_message, link_ok, is_noerr, report, parsed}

abbrev without_error : Link → Link
without_error self = record self { error = error_reset }

-- Where the message is right, every callback gets it.
pub parsed_delivered :
    (self : Link) (sender : Bytes) (read : Bool) (msg : Message) (rest : Bytes)
    → msg.ok ≡ true
    → parsed (record self { error = error_reset }) sender (read, msg, rest) ≡ (
      record self { error = error_reset },
      map (λ cb. when_message cb sender (some msg)) self.callbacks,
    )
unfolding parsed report link_ok is_noerr link_when_message
parsed_delivered self sender read msg rest h = rw (parsed, h) refl

-- What a link does with a datagram that was decoded and read: the message goes to every callback, in
-- their order, or an error is kept that no callback hears of.
abbrev pub Heard : Link → Bytes → Bytes → Message → Link × List Action → Type 0
Heard self datagram sender msg r =
    (msg.ok ≡ true
      → r ≡ (
        record self { error = error_reset; buf = datagram },
        map (λ cb. when_message cb sender (some msg)) self.callbacks,
      ))
    × (msg.ok ≡ false
        → r ≡ (
          record self {
            error = error_set ErrorType.parse (codes "error parsing message");
            buf = datagram;
          },
          [],
        ))

module _ (p : Platform) (fd : ℕ) (self : Link) (datagram sender : Bytes) where
  abbrev reset : Link
  reset = record self { error = error_reset; buf = datagram }

-- The event has ended without a call: the error of decoding is kept, or the decoder has failed.
abbrev pub Refused : Link → Bytes → Outcome (Link × List Action) → Type 0
Refused self datagram event =
    (event
      ≡ ok (
        record self {
          error = error_set ErrorType.decode (codes "could not decode message");
          buf = datagram;
        },
        [],
      ))
    ⊎ ((f : Fault) × (event ≡ fault f))
