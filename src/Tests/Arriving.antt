-- ===== src/Tests/Arriving.antt =====
-- A run from one link to the functions of a client.
use libgmbus.Base.{
  ℕ, List, true, [], ◌∷◌, ◌++◌, map, none, ◌≡◌, refl, arith, Bytes, codes, str_eq, ok,
}
use libgmbus.Tests.{platform}
use libgmbus.Tests.Addressing.{
  element, element-IsReadable_app, element-IsReadable_id, mail-IsSorted,
}
use libgmbus.Tests.Coding.{platform_sound, config, config_usable}
use libgmbus.Tests.Heading.{greeting}
use libgmbus.Tests.Reading.{commands, commands-IsPrintable, hello, lines, lines_text}
use libgmbus.Tests.Linking.{joined, other, opened, sends_on_unicast}
use libgmbus.Tests.Calling.{quit_entry, listener}
use libgmbus.Util.{error_reset}
use libgmbus.Address
use libgmbus.Address.{Address}
use libgmbus.Command.{is_command}
use libgmbus.Header.{MessageType, header_as_string}
use libgmbus.Message.{Message, contains, message_as_string}
use libgmbus.Message.Read.RoundTrip as MessageText
use libgmbus.Table.{lookup}
use libgmbus.Transport.{TimeVal, Entity, transport_init}
use libgmbus.Transport.Receiving.{is_my_message}
use libgmbus.Link.{do_send, sendto}
use libgmbus.Link.Delivery.{received}
use libgmbus.Client.{Client, Call}
use libgmbus.Client.Dispatch.{handlers}
use libgmbus.Client.Arrival.{IsForUs, arrive, arrive-do_send}

-- (app:mail), and what it sends to the listener.
abbrev web : Address
web = record { elements = element (codes "app") (codes "mail") ∷ []; ok = true }

abbrev note : Message
note = record hello {
  header = record greeting { type = MessageType.unreliable; source = web; acks = [] };
}

note-IsPrintable : MessageText.IsPrintable platform note
note-IsPrintable = record {
  header_printable = record {
    number_fits = omega arith;
    acks_fit = tt;
    source_readable = (element-IsReadable_app, tt);
    source_sorted = (tt, tt);
    destination_readable = (element-IsReadable_app, (element-IsReadable_id, tt));
    destination_sorted = mail-IsSorted;
  };
  commands_printable = commands-IsPrintable;
}

note_text :
    message_as_string platform 1 2000 note
    ≡ ok (header_as_string 1 2000 note.header ++ b'\n' ∷ lines)
unfolding message_as_string
note_text = rw lines_text refl

abbrev met : Entity
met = record { endpoint = []; last_hello = record { tv_sec = 1; tv_usec = 0 } }

abbrev acquainted : Client
acquainted = record listener {
  trans = record listener.trans { entities = (web, met) ∷ []; incoming_message = true };
}

abbrev later : TimeVal
later = record { tv_sec = 2; tv_usec = 0 }

note-IsForUs : IsForUs platform acquainted.trans (received 1 2000 note)
note-IsForUs =
    unfold transport_init is_my_message contains is_command str_eq lookup Address.is_equal
      Address.element_is_equal Address.is_subset_of Address.found_in Address.all_found Address.hash
      Address.find in
    record {
      unreliable = refl;
      no_acks = refl;
      foreign = λ sender. refl;
      no_hello = refl;
      no_bye = refl;
      for_us = refl;
      source_known = (met, refl);
      some_commands = (_, _, refl);
      listens = refl;
    }

arrive-do_send_example :
    (datagram : Bytes) × (do_send platform 1 2000 true joined note (codes "all")
      ≡ ok (true, record joined { error = error_reset }, sendto 7 datagram (codes "all") ∷ []))
    × ((fd : ℕ) (sender : Bytes)
        → (calls : List Call) × (arrive platform later fd (datagram, sender) joined acquainted
            ≡ ok (acquainted, calls))
          × (map (λ c. c.function) calls ≡ handlers (quit_entry ∷ []) none commands.cmds))
arrive-do_send_example =
    arrive-do_send platform platform_sound config 1 2000 later joined joined acquainted note
      (header_as_string 1 2000 note.header ++ b'\n' ∷ lines) (codes "all") opened other
      config_usable refl refl sends_on_unicast refl note-IsPrintable note_text note-IsForUs
      (refl, tt)
