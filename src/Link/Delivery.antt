-- ===== src/Link/Delivery.antt =====
-- From mbus_link_send of one link to the callbacks of another.
use libgmbus.Base.{ℕ, true, [], ◌∷◌, map, some, ◌≡◌, refl, ap, ◌∙◌, Bytes, ok}
use libgmbus.Platform.{Platform}
use libgmbus.Util.{error_reset}
use libgmbus.Config.{Config}
use libgmbus.Coder.{Coder, coder_new, encode, decode}
use libgmbus.Coder.Laws.{IsSound, decode-encode}
use libgmbus.Message.{Message, message_new, message_as_string}
use libgmbus.Message.Read.{message_read}
use libgmbus.Message.Read.RoundTrip.{IsPrintable, header_at, message_read-message_as_string}
use libgmbus.Link.{
  Channel, Link, when_message, sendto, sending_channel, send_datagram, do_send, decoded, udp_event,
}
use libgmbus.Link.Events.{parsed_delivered}

-- The message as it is read, when it was printed at that time.
abbrev pub received : ℕ → ℕ → Message → Message
received tv_sec tv_usec m = record {
  header = header_at tv_sec tv_usec m.header;
  payload = record { cmds = m.payload.cmds; ok = true };
  ok = true;
  current = 0;
}

do_send_parts :
    (p : Platform) (tv_sec tv_usec : ℕ) (self : Link) (m : Message) (ep text : Bytes)
    (buf : Bytes × Bytes) (channel : Channel)
    → message_as_string p tv_sec tv_usec m ≡ ok text
    → encode p self.coder text ≡ ok buf
    → sending_channel self ≡ ok channel
    → do_send p tv_sec tv_usec true self m ep
      ≡ ok (true, record self { error = error_reset }, sendto channel.fd buf.1 ep ∷ [])
unfolding do_send send_datagram
do_send_parts p tv_sec tv_usec self m ep text buf channel e k h = rw (e, k, h) refl

udp_event_parts :
    (p : Platform) (fd : ℕ) (self : Link) (datagram sender text : Bytes) (m : Message)
    → decode p self.coder datagram ≡ ok (true, text)
    → message_read p message_new text ≡ ok (true, m, [])
    → m.ok ≡ true
    → udp_event p fd (some (datagram, sender)) self
      ≡ ok (
        record self { error = error_reset; buf = datagram },
        map (λ cb. when_message cb sender (some m)) self.callbacks,
      )
unfolding udp_event decoded
udp_event_parts p fd self datagram sender text m e k h =
    rw (e, k) (ap ok (parsed_delivered (record self { buf = datagram }) sender true m [] h))

-- Between two links of one usable configuration, of which the first has an open channel to send on, on a
-- sound platform (MD5 gives 16 bytes, arrays have room for their size, and one of 12 bytes for 16): of a
-- printable message one datagram is sent, if sendto succeeds, and when it arrives whole the other link
-- gives the message to every callback, with the time of printing as its timestamp, and keeps no error.
pub udp_event-do_send :
    (p : Platform) (sound : IsSound p) (config : Config) (tv_sec tv_usec : ℕ) (self other : Link)
    (m : Message) (text ep : Bytes) (channel : Channel)
    → (coder_new config).ok ≡ true
    → self.coder ≡ coder_new config
    → other.coder ≡ coder_new config
    → sending_channel self ≡ ok channel
    → IsPrintable p m
    → message_as_string p tv_sec tv_usec m ≡ ok text
    → (datagram : Bytes) × (do_send p tv_sec tv_usec true self m ep
        ≡ ok (true, record self { error = error_reset }, sendto channel.fd datagram ep ∷ []))
      × ((fd : ℕ) (sender : Bytes)
          → udp_event p fd (some (datagram, sender)) other
            ≡ ok (
              record other { error = error_reset; buf = datagram },
              map (λ cb. when_message cb sender (some (received tv_sec tv_usec m))) other.callbacks,
            ))
udp_event-do_send p sound config tv_sec tv_usec self other m text ep channel usable mine its opened
      printable printed =
    let (datagram, encoded, decodes) = decode-encode p sound config usable text in
    let reads = message_read-message_as_string p tv_sec tv_usec m text printable printed in
    (
      datagram,
      do_send_parts p tv_sec tv_usec self m ep text (datagram, datagram) channel printed
          (ap (λ (c : Coder). encode p c text) mine ∙ encoded) opened,
      (λ fd sender.
          udp_event_parts p fd other datagram sender text (received tv_sec tv_usec m)
            (ap (λ (c : Coder). decode p c datagram) its ∙ decodes) reads refl),
    )
