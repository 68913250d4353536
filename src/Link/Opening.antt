-- ===== src/Link/Opening.antt =====
-- mbus_link_new and mbus_link_free, with the two sockets that mbus_socket_new gives or does not.
use libgmbus.Base.{
  ℕ, zero, suc, ◌+◌, ◌-◌, ◌%◌, ◌^◌, Bool, true, false, List, [], ◌∷◌, ◌++◌, Option, none, some, ◌≡◌,
  ◌≢◌, Bytes, codes, ◌==◌, if◌then◌else◌, Outcome, ok, fault, Fault, ◌>>=◌,
}
use libgmbus.Util.{ErrorType, error_reset, error_set}
use libgmbus.Config.{Config, is_equal}
use libgmbus.Coder.{coder_new}
use libgmbus.Link.{Channel, Link}

-- MSession.
pub record Session : Type 0 where
  pub link : Link
  pub config : Config

-- __mbus_session_find_link: the link, held once more, and the sessions with it.
pub find_link : List Session → Config → Option Link × List Session
find_link [] config = (none, [])
find_link (s ∷ sessions) config =
    let (link, rest) = find_link sessions config in
    let held = record s.link { ref_count = s.link.ref_count + 1 } in
    if is_equal s.config config
    then (some held, record s { link = held } ∷ sessions)
    else (link, s ∷ rest)

-- __mbus_sessions: nothing is ever put in.
abbrev pub mbus_sessions : List Session
mbus_sessions = []

-- A socket as mbus_socket_new and mbus_socket_get_name give it: its descriptor and local address.
abbrev pub Socket : Type 0
Socket = ℕ × Bytes

-- A new channel with the watch of g_io_add_watch, which holds it too.
watched : ℕ → Channel
watched fd = record { fd = fd; refs = 2 }

-- g_io_channel_unref, and g_source_remove for the watch.
drop_ref : Channel → Outcome Channel
drop_ref channel = elim channel.refs [
  | zero ↦ fault Fault.freed
  | suc refs ↦ ok (record channel { refs = refs })
]

drop_refs : Option Channel → Outcome (Option Channel)
unfolding drop_ref
drop_refs none = ok none
drop_refs (some channel) = drop_ref channel >>= λ c. ok (some c)

-- The label `done`; the members keep their pointers.
failed : Link → ErrorType → Bytes → Outcome Link
unfolding drop_refs
failed self type text = drop_refs self.multicast >>= λ multicast.
    drop_refs self.unicast >>= λ unicast.
    ok (record self { error = error_set type text; multicast = multicast; unicast = unicast })

new_link : Config → Link
new_link config = record {
  multicast = none;
  unicast = none;
  ep_multicast = none;
  ep_unicast = none;
  error = error_reset;
  buf = [];
  callbacks = [];
  coder = coder_new config;
  default_dest = config.group_addr;
  ref_count = 1;
}

open_unicast : Option Socket → Link → Outcome Link
unfolding failed watched
open_unicast none self = failed self ErrorType.unicast (codes "failed to setup unicast socket")
open_unicast (some (fd, name)) self =
    ok (record self { unicast = some (watched fd); ep_unicast = some name })

open_multicast : Option Socket → Option Socket → Link → Outcome Link
unfolding failed watched open_unicast
open_multicast none unicast self =
    failed self ErrorType.multicast_join (codes "failed to setup multicast socket")
open_multicast (some (fd, name)) unicast self =
    open_unicast unicast (record self { multicast = some (watched fd); ep_multicast = some name })

-- The opening behind mbus_coder_ok.
open_link : Bool → Option Socket → Option Socket → Link → Outcome Link
unfolding failed open_multicast
open_link true multicast unicast self = open_multicast multicast unicast self
open_link false multicast unicast self =
    failed self ErrorType.coder_setup (codes "failed to setup message coder")

-- mbus_link_new: the link and the sessions.
pub link_new : List Session → Config → Option Socket → Option Socket → Outcome (Link × List Session)
unfolding new_link open_link
link_new sessions config multicast unicast =
    let (found, sessions') = find_link sessions config in
    let self = new_link config in
    elim found [
      | some link ↦ ok (link, sessions')
      | none ↦ open_link self.coder.ok multicast unicast self >>= λ link. ok (link, sessions')
    ]

-- The descriptor of a channel that nothing holds any more: the channel is freed, and GLib leaves the
-- descriptor of a channel of g_io_channel_unix_new open.
released : Option Channel → List ℕ
released none = []
released (some channel) = if channel.refs == 0 then channel.fd ∷ [] else []

-- A channel of mbus_link_free, with its watch: what is released.
close_channel : Option Channel → Outcome (List ℕ)
unfolding drop_refs released
close_channel channel = drop_refs channel >>= λ c. drop_refs c >>= λ c'. ok (released c')

-- mbus_link_free: the link if it is still held, and `none` when its memory is freed; and the descriptors
-- of the channels that are freed.
pub link_free : Link → Outcome (Option Link × List ℕ)
unfolding close_channel
link_free self =
    let ref_count = (self.ref_count + 2 ^ 32 - 1) % 2 ^ 32 in
    if ref_count == 0
    then (close_channel self.multicast >>= λ m.
        close_channel self.unicast >>= λ u. ok (none, m ++ u))
    else ok (some (record self { ref_count = ref_count }), [])

-- The first step of the opening that fails.
abbrev pub opening_error : Bool → Option Socket → Option Socket → ErrorType
opening_error false multicast unicast = ErrorType.coder_setup
opening_error true none unicast = ErrorType.multicast_join
opening_error true (some m) none = ErrorType.unicast
opening_error true (some m) (some u) = ErrorType.noerr

-- The descriptors of a link whose opening has succeeded; where it has failed, there is no channel that
-- mbus_link_free can free.
abbrev pub opened_sockets : Bool → Option Socket → Option Socket → List ℕ
opened_sockets true (some m) (some u) = m.0 ∷ u.0 ∷ []
opened_sockets ready multicast unicast = []

-- What is said of a link that was opened.
abbrev Opened : Outcome (Link × List Session) → ErrorType → List ℕ → Type 0
Opened opened error sockets =
    (self : Link) × (opened ≡ ok (self, []))
    × (self.ref_count ≡ 1)
    × (self.error.type ≡ error)
    × (self.error.type ≡ ErrorType.unicast → link_free self ≡ fault Fault.freed)
    × (self.error.type ≢ ErrorType.unicast → link_free self ≡ ok (none, sockets))
