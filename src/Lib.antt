-- ===== src/Lib.antt =====
-- The library gmbus: addresses, messages and the security of the Mbus, in C with GLib.
--
-- A message of the Mbus is a header line (version, sequence number, time, type, source and
-- destination address, acknowledgements) and a payload, a line for each command with its arguments.
-- What is sent has in front of it a line with the first twelve bytes of its HMAC-MD5 in base64.
--
--   Util      gmbus/mutil.c: blanks (mbus_util_cut_whitespaces), searches, decimal numbers, MError
--   Base64    gmbus/base64.c: base64encode and base64decode with the sizes of their arrays
--   Udp       gmbus/udp.c: endpoints, and their addresses from a text
--   Config    gmbus/mconfig.h and mconfig.c: the configuration and mbus_config_is_equal; Read has
--             mbus_config_new and mbus_config_read
--   Coder     gmbus/mcoder.c and hmac.c: mbus_coder_new, mbus_coder_encode, mbus_coder_decode
--   Address   gmbus/maddress.c: parser, printer, order, and the comparisons of addresses
--   Types     gmbus/mtypes.c: the objects that commands carry, and mbus_argument_check
--             of gmbus/mutil.c; Read has the parser mbus_list_read
--   Command   gmbus/mcommand.c and mpayload.c: commands and payloads; Read has the parsers
--   Header    gmbus/mheader.c: parser, printer and copy
--   Message   gmbus/mmessage.c: messages; Read has mbus_message_read
--   Link      gmbus/mlink.c: Link has sending, receiving and the callbacks (__mbus_link_do_send,
--             __mbus_link_udp_event), Opening mbus_link_new and mbus_link_free
--   Table     the GHashTable of GLib, as far as the transport uses it
--   Transport gmbus/mtrans.c: Entities (__mbus_transport_check_lost_entities), Sending
--             (mbus_transport_send, __mbus_transport_when_hello, __mbus_transport_send_acks),
--             Retransmission (__mbus_transport_check_for_acks, __retransmit_reliable), Receiving
--             (__mbus_transport_when_link_message), Freeing (mbus_transport_free); Reachable has the
--             steps of a session
--   Client    gmbus/mclient.c: __mbus_client_incoming_message, and the functions that are registered;
--             Arrival joins link, transport and client for a datagram that comes in
--   Rpc       gmbus/rpctypes.c: remote commands and returns as commands; Entity is gmbus/rpcentity.c,
--             and Exchange joins two entities
--
-- Base holds the helpers, Platform what the code calls outside the repository, Tests the runs.
--
-- How the model is made. A GString, a GByteArray or a C text is the list of its bytes; a text ends
-- with a terminator that the list leaves out. A GPtrArray, a GArray or a GSList is its list. An
-- unsigned integer is a natural number that is reduced where the code wraps; a gint64 is its 64-bit
-- pattern. A function that changes its object returns the new one. A read or write that C leaves
-- undefined, a failed g_assert and a g_error are faults of the result type `Outcome`, and so is a
-- loop whose fuel ran out. The loops of the header and of the addresses have one unit of fuel more
-- than the text has bytes; a round takes at least one byte, or the loop stays where it is for ever. The
-- loop of a list has a unit for each round and each list inside; it goes back only where a list inside
-- has failed, and then reads that list again.
--
-- A transport is one state; a timer is an entry of it that can run out at any time while it is
-- pending, and the time is an input. A reliable message is an object at a place of a heap, so that a
-- pointer that outlives it is seen. What goes out (messages to the link, callbacks of the user) is a
-- list of actions; a callback that calls the transport again is left out.
--
-- The parser of a list changes the text that it reads; it walks a text in two parts, what is in front
-- and what follows. The link, the client and the entity of remote calls are one state each, which a
-- function returns with the list of what it does: callbacks, datagrams, messages for the transport.
--
-- Not modelled: the sockets (mbus_socket_new and its helpers of gmbus/udp.c; what they give is an
-- input), the parser of key files of GLib (a key file is an input of mbus_config_read) and inet_pton (a
-- parameter), gmbus/init.c, MD5 (a parameter), floating-point formats (a gdouble is its 64-bit pattern,
-- its reader and printer are parameters), memory management where nothing is read after it is freed,
-- callbacks that change the object that calls them, and the text of warnings.
pub mod Base
pub mod Platform
pub mod Util
pub mod Base64
pub mod Udp
pub mod Config
pub mod Coder
pub mod Address
pub mod Types
pub mod Command
pub mod Header
pub mod Message
pub mod Table
pub mod Link
pub mod Transport
pub mod Client
pub mod Rpc
pub mod Tests
