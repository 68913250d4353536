-- ===== src/Tests/Linking.antt =====
-- Runs of the link.
use libgmbus.Base.{ℕ, List, true, false, [], ◌∷◌, ◌++◌, map, some, ◌≡◌, refl, Bytes, codes, ok}
use libgmbus.Tests.{platform}
use libgmbus.Tests.Coding.{platform_sound, config, config_usable}
use libgmbus.Tests.Heading.{greeting}
use libgmbus.Tests.Reading.{hello, hello_text, hello-IsPrintable, lines}
use libgmbus.Util.{error_reset}
use libgmbus.Coder.{coder_new}
use libgmbus.Message.{Message}
use libgmbus.Header.{header_as_string}
use libgmbus.Link.{
  Channel, Callback, Link, when_message, when_error, sendto, sending_channel, udp_event, do_send,
  attach, detach,
}
use libgmbus.Link.Delivery.{received, udp_event-do_send}
use libgmbus.Link.Callbacks.{Absent, detach_lem}

abbrev upper : Callback
upper = record { object = 1; when_error = 2; when_message = 3 }

abbrev pub other : Callback
other = record { object = 4; when_error = 2; when_message = 3 }

abbrev pub opened : Channel
opened = record { fd = 7; refs = 2 }

abbrev pub joined : Link
joined = record {
  multicast = some (record { fd = 6; refs = 2 });
  unicast = some opened;
  ep_multicast = some (codes "m");
  ep_unicast = some (codes "u");
  error = error_reset;
  buf = [];
  callbacks = other ∷ [];
  coder = coder_new config;
  default_dest = codes "all";
  ref_count = 1;
}

pub sends_on_unicast : sending_channel joined ≡ ok opened
unfolding sending_channel
sends_on_unicast = refl

udp_event-do_send_example :
    (datagram : Bytes) × (do_send platform 1 2000 true joined hello (codes "all")
      ≡ ok (true, record joined { error = error_reset }, sendto 7 datagram (codes "all") ∷ []))
    × ((fd : ℕ) (sender : Bytes)
        → udp_event platform fd (some (datagram, sender)) joined
          ≡ ok (
            record joined { error = error_reset; buf = datagram },
            map (λ cb. when_message cb sender (some (received 1 2000 hello))) (other ∷ []),
          ))
udp_event-do_send_example =
    udp_event-do_send platform platform_sound config 1 2000 joined joined hello
      (header_as_string 1 2000 greeting ++ b'\n' ∷ lines) (codes "all") opened config_usable refl
      refl sends_on_unicast hello-IsPrintable hello_text

detach_lem_example :
    ((xs ys : List Callback)
      → Absent upper xs
      → detach (record joined { callbacks = xs ++ upper ∷ ys }) upper
        ≡ (true, record joined { callbacks = xs ++ ys }))
    × (Absent upper (other ∷ []) → detach joined upper ≡ (false, joined))
    × (Absent upper (other ∷ []) → detach (attach joined upper) upper ≡ (true, joined))
detach_lem_example = detach_lem joined upper
