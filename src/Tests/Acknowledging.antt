-- ===== src/Tests/Acknowledging.antt =====
-- A reliable message and its acknowledgement between two transports.
use libgmbus.Base.{true, false, List, [], ◌∷◌, none, ◌≡◌, refl, ap, sym, codes, ok}
use libgmbus.Tests.{platform}
use libgmbus.Tests.Addressing.{any_app}
use libgmbus.Tests.Session.{first, call, first-IsSound}
use libgmbus.Address
use libgmbus.Message.{Message}
use libgmbus.Table.{lookup}
use libgmbus.Table.Keys.{Member}
use libgmbus.Transport.{
  Transport, TimeVal, Action, LinkMessage, same_address, same_number, link_send, transport_init,
}
use libgmbus.Transport.Sending.{send, send_acks}
use libgmbus.Transport.Receiving.{is_my_message, when_link_message}
use libgmbus.Transport.Runs.{transport_init-IsSound}
use libgmbus.Transport.Sent.{outgoing, send_parts}
use libgmbus.Transport.Acknowledged.{acknowledge}

abbrev receiver : Transport
receiver = transport_init any_app true

abbrev noon : TimeVal
noon = record { tv_sec = 12; tv_usec = 0 }

abbrev arriving : LinkMessage
arriving = record { message = outgoing platform first call; sender = codes "peer" }

not_mine : is_my_message platform receiver arriving ≡ false
unfolding is_my_message Address.is_equal transport_init
not_mine = refl

none_waits :
    lookup (same_address platform) arriving.message.header.source receiver.acknowledgements ≡ none
unfolding lookup transport_init
none_waits = refl

acknowledge_example :
    let source = first.address in
    (r : Transport × List Action) × (when_link_message platform noon receiver arriving ≡ ok r)
    × Member source r.0.ack_timers
    × (b : Transport × List Action) × (send_acks platform r.0 source ≡ ok b)
    × (back : Message) × (b.1 ≡ link_send back ∷ [])
    × (back.header.destination ≡ source)
    × (back.header.acks ≡ first.sequence_no ∷ [])
    × ((now' : TimeVal) (answer : LinkMessage)
        → answer.message.header.acks ≡ back.header.acks
        → is_my_message platform (send platform first call).0 answer ≡ false
        → (a : Transport × List Action) × (when_link_message platform now'
              (send platform first call).0
              answer
            ≡ ok a)
          × (lookup same_number first.sequence_no a.0.reliable_messages ≡ none))
acknowledge_example =
    acknowledge platform first receiver call noon arriving first-IsSound
      (transport_init-IsSound platform any_app true) refl
      (ap (λ (m : Message). m.header.type) (sym (send_parts platform first call first-IsSound).0))
      (ap (λ (m : Message). m.header.sequence_no)
        (sym (send_parts platform first call first-IsSound).0))
      not_mine none_waits
