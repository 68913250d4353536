-- ===== src/Tests/Session.antt =====
-- Runs of the transport.
use libgmbus.Base.{
  ℕ, ◌+◌, ◌%◌, ◌^◌, true, List, [], ◌∷◌, ◌++◌, none, some, ◌≡◌, refl, inl, codes, str_eq, ok, fault,
  Fault,
}
use libgmbus.Tests.{platform}
use libgmbus.Tests.Addressing.{mail, any_app}
use libgmbus.Address.{address_new, is_unique, find}
use libgmbus.Command.{new_with_name}
use libgmbus.Header.{MessageType}
use libgmbus.Message.{Message, message_new, message_assign}
use libgmbus.Table.{lookup, keys}
use libgmbus.Table.Keys.{Member}
use libgmbus.Transport.{
  Transport, TimeVal, Action, LinkMessage, Acknowledgement, ReliableMessage, link_send, same_place,
  same_number, same_address, transport_init,
}
use libgmbus.Transport.Sending.{keep, keep_reliable, find_ack, pass_acks, send, send_acks}
use libgmbus.Transport.Retransmission.{check_for_acks, retransmit_reliable}
use libgmbus.Transport.Receiving.{note_reliable, is_my_message, when_link_message}
use libgmbus.Transport.Pending.{IsPending, Acked, SameAcks, check_for_acks_lem}
use libgmbus.Transport.Retries.{Retried, retransmit_reliable_lem}
use libgmbus.Transport.Acks.{IsWaiting, send_acks_lem, note_reliable_lem}
use libgmbus.Transport.Handled.{when_link_message_lem}
use libgmbus.Transport.Runs.{IsSound, transport_init-IsSound, send-IsSound}
use libgmbus.Transport.Reachable.{run, Reachable, sends, retries, start, step, Reachable-run}
use libgmbus.Transport.Unanswered.{run_out, Reported, send-run_out}
use libgmbus.Transport.Freeing.{Orphans, transport_free, retransmit_orphan, expire, send-expire}
use libgmbus.Transport.Sent.{Waits, with_acks, Carried, Routed, send_lem}

abbrev pub first : Transport
first = transport_init mail true

-- A reliable message to all applications.
abbrev pub call : Message
call = record {
  header = record {
    type = MessageType.reliable;
    sequence_no = 0;
    timestamp = 0;
    source = address_new;
    destination = any_app;
    acks = [];
    ok = true;
  };
  payload = record { cmds = new_with_name (codes "app.call") ∷ []; ok = true };
  ok = true;
  current = 0;
}

abbrev second : Transport
second = (send platform first call).0

pub first-IsSound : IsSound platform first
first-IsSound = transport_init-IsSound platform mail true

second-IsSound : IsSound platform second
second-IsSound = send-IsSound platform first call first-IsSound

abbrev copy_of_call : ReliableMessage
copy_of_call = record {
  n = 1;
  message = message_assign message_new (record call {
    header = record call.header { sequence_no = first.sequence_no; source = first.address };
  });
}

pending : Member 1 (keys second.retransmit_timers)
unfolding send keep keep_reliable pass_acks find_ack is_unique find keys transport_init str_eq
pending = inl refl

reach : Reachable platform mail true second ((send platform first call).2 ∷ [])
unfolding run
reach = step start (sends call) refl

Reachable-run_example :
    (r : Transport × List Action) × (run platform second (retries 1 pending) ≡ ok r)
Reachable-run_example =
    Reachable-run platform mail true second ((send platform first call).2 ∷ []) reach
      (retries 1 pending)

send_lem_example :
    let r = send platform first call in
    ((acks : List ℕ) × (r.1 ≡ with_acks platform first call acks)
      × Carried platform first call.header.destination acks)
    × (r.0.sequence_no ≡ (first.sequence_no + 1) % 2 ^ 32)
    × (call.header.type ≡ MessageType.reliable
        → Waits r.0 first.sequence_no (record call {
          header = record call.header { sequence_no = first.sequence_no; source = first.address };
        }))
    × Routed platform first call.header.destination r.1 r.2
send_lem_example = send_lem platform first call first-IsSound

found : lookup same_place 1 second.heap ≡ some copy_of_call
unfolding send keep keep_reliable pass_acks find_ack is_unique find lookup transport_init str_eq
found = refl

send-run_out_example :
    (place : ℕ) × (lookup same_number first.sequence_no second.reliable_messages ≡ some place)
    × (r : Transport × List Action) × (run_out 3 second place ≡ ok r)
    × Reported second place first.sequence_no r
send-run_out_example = send-run_out platform first call first-IsSound refl

send-expire_example :
    let left = transport_free second in
    (place : ℕ) × (lookup same_number first.sequence_no second.reliable_messages ≡ some place)
    × ((ms : ℕ) × (lookup same_place place left.retransmit_timers ≡ some ms))
    × ((left' : Orphans) × (retransmit_orphan left place ≡ ok left'))
    × (expire 2 left place ≡ fault Fault.freed)
send-expire_example = send-expire platform first call first-IsSound refl

retransmit_reliable_lem_example :
    (r : Transport × List Action) × (retransmit_reliable second 1 ≡ ok r)
    × IsPending r.0
    × Retried second 1 copy_of_call r
retransmit_reliable_lem_example =
    retransmit_reliable_lem second 1 copy_of_call second-IsSound.pending found

check_for_acks_lem_example :
    (self' : Transport) × (check_for_acks second (0 ∷ 7 ∷ []) ≡ ok self')
    × IsPending self'
    × Acked second self' (0 ∷ 7 ∷ [])
    × SameAcks second self'
check_for_acks_lem_example = check_for_acks_lem second (0 ∷ 7 ∷ []) second-IsSound.pending

abbrev alert : LinkMessage
alert = record {
  message = record call { header = record call.header { source = any_app } };
  sender = codes "peer";
}

when_link_message_lem_example :
    (r : Transport × List Action) × (when_link_message platform
        (record { tv_sec = 9; tv_usec = 0 })
        second
        alert
      ≡ ok r)
    × IsSound platform r.0
    × (is_my_message platform second alert ≡ true → r ≡ (second, []))
when_link_message_lem_example =
    when_link_message_lem platform (record { tv_sec = 9; tv_usec = 0 }) second alert second-IsSound

-- An acknowledgement waits for any_app.
abbrev third : Transport
third =
    note_reliable platform first alert.message.header
      (lookup (same_address platform) any_app first.acknowledgements)

note_reliable_lem_example :
    let before =
      lookup (same_address platform) alert.message.header.source first.acknowledgements in
    let self' = note_reliable platform first alert.message.header before in
    IsWaiting platform self'
    × ((ack : Acknowledgement)
        → before ≡ some ack
        → (lookup (same_address platform) alert.message.header.source self'.acknowledgements
            ≡ some (record ack { acks = ack.acks ++ alert.message.header.sequence_no ∷ [] }))
          × (self'.ack_timers ≡ first.ack_timers))
    × (before ≡ none
        → (lookup (same_address platform) alert.message.header.source self'.acknowledgements
            ≡ some (record {
              source = alert.message.header.source;
              acks = alert.message.header.sequence_no ∷ [];
            }))
          × (self'.ack_timers ≡ first.ack_timers ++ alert.message.header.source ∷ []))
note_reliable_lem_example =
    note_reliable_lem platform first alert.message.header first-IsSound.waiting

due_timer : Member any_app third.ack_timers
unfolding note_reliable lookup transport_init
due_timer = inl refl

third-IsWaiting : IsWaiting platform third
third-IsWaiting = (note_reliable_lem platform first alert.message.header first-IsSound.waiting).0

send_acks_lem_example :
    (ack : Acknowledgement) × (lookup (same_address platform) any_app third.acknowledgements
      ≡ some ack)
    × (r : Transport × List Action) × (send_acks platform third any_app ≡ ok r)
    × IsWaiting platform r.0
    × (lookup (same_address platform) any_app r.0.acknowledgements ≡ none)
    × ((msg : Message) × (r.1 ≡ link_send msg ∷ [])
        × (msg.header.destination ≡ any_app)
        × (msg.header.source ≡ third.address)
        × (msg.header.acks ≡ ack.acks))
send_acks_lem_example = send_acks_lem platform third any_app third-IsWaiting due_timer

-- One entity was silent for an hour.
abbrev crowd : Transport
crowd = record first {
  entities =
      (any_app, record { endpoint = codes "peer"; last_hello = record { tv_sec = 1; tv_usec = 5 } })
      ∷ [];
}

abbrev later : TimeVal
later = record { tv_sec = 3601; tv_usec = 0 }
