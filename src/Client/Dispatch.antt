-- ===== src/Client/Dispatch.antt =====
-- Which functions __mbus_client_incoming_message calls.
use libgmbus.Base.{
  ℕ, ◌+◌, true, false, List, [], ◌∷◌, ◌++◌, map, map-append, Option, none, some, ◌≡◌, refl, ap, ap₂,
  ◌∙◌, Bytes, str_eq, All, Bool-cases, inl, inr, ok, if◌then◌else◌,
}
use libgmbus.Platform.{Platform}
use libgmbus.Command.{Command}
use libgmbus.Message.{Message, message_as_string}
use libgmbus.Client.{
  Callback, CommandCallback, Client, Call, find_callback, unknown_call, callback_call, command_call,
  dispatch, marked, incoming_message,
}

-- No entry whose memory was freed.
abbrev pub Live : List CommandCallback → Type 0
Live = All (λ cb. cb.freed ≡ false)

-- The function for a name: that of the first entry with the name if it has one, or else `unknown`.
abbrev pub or_else : Callback → Callback → Callback
or_else none unknown = unknown
or_else (some f) unknown = some f

unfoldable pub handler : List CommandCallback → Callback → Bytes → Callback
handler [] unknown cmd = unknown
handler (cb ∷ callbacks) unknown cmd =
    if str_eq cb.command cmd then or_else cb.callback unknown else handler callbacks unknown cmd

-- The functions for the commands that have one, in their order.
abbrev listed : Callback → List ℕ
listed none = []
listed (some f) = f ∷ []

unfoldable pub handlers : List CommandCallback → Callback → List Command → List ℕ
handlers callbacks unknown [] = []
handlers callbacks unknown (c ∷ cmds) =
    listed (handler callbacks unknown c.cmd) ++ handlers callbacks unknown cmds

-- The walk finds what decides about the function.
abbrev pub Decides : Callback → Callback → Option CommandCallback → Type 0
Decides f unknown none = f ≡ unknown
Decides f unknown (some cb) = f ≡ or_else cb.callback unknown

pub find_callback-Live :
    (callbacks : List CommandCallback) (unknown : Callback) (cmd : Bytes)
    → Live callbacks
    → (found : Option CommandCallback) × (find_callback callbacks cmd ≡ ok found)
      × Decides (handler callbacks unknown cmd) unknown found
unfolding find_callback handler
find_callback-Live [] unknown cmd h = (none, refl, refl)
find_callback-Live (cb ∷ callbacks) unknown cmd h = elim (Bool-cases (str_eq cb.command cmd)) [
  | inl e ↦ rw (h.0, e) (some (record cb { freed = false }), refl, refl)
  | inr e ↦ rw (h.0, e) (find_callback-Live callbacks unknown cmd h.1)
]

unknown_call_functions :
    (unknown : Callback) (msg : Message)
    → map (λ c. c.function) (unknown_call unknown msg).1 ≡ listed unknown
unfolding unknown_call
unknown_call_functions none msg = refl
unknown_call_functions (some f) msg = refl

callback_call_functions :
    (unknown cb : Callback) (i : ℕ) (msg : Message)
    → map (λ c. c.function) (callback_call unknown cb i msg).1 ≡ listed (or_else cb unknown)
unfolding callback_call
callback_call_functions unknown none i msg = unknown_call_functions unknown msg
callback_call_functions unknown (some f) i msg = refl

command_call_functions :
    (unknown f : Callback) (found : Option CommandCallback) (i : ℕ) (msg : Message)
    → Decides f unknown found
    → map (λ c. c.function) (command_call unknown found i msg).1 ≡ listed f
unfolding command_call
command_call_functions unknown f none i msg d = rw d (unknown_call_functions unknown msg)
command_call_functions unknown f (some cb) i msg d =
    rw d (callback_call_functions unknown cb.callback i msg)

dispatch_step :
    (self : Client) (c : Command) (cmds : List Command) (i : ℕ) (msg : Message)
    (found : Option CommandCallback) (r : Message × List Call)
    → find_callback self.callbacks c.cmd ≡ ok found
    → dispatch self cmds (i + 1) (command_call self.unknown_message found i msg).0 ≡ ok r
    → dispatch self (c ∷ cmds) i msg
      ≡ ok (r.0, (command_call self.unknown_message found i msg).1 ++ r.1)
unfolding dispatch
dispatch_step self c cmds i msg found r e k = rw (e, k) refl

dispatch_functions :
    (self : Client) (cmds : List Command) (i : ℕ) (msg : Message)
    → Live self.callbacks
    → (r : Message × List Call) × (dispatch self cmds i msg ≡ ok r)
      × (map (λ c. c.function) r.1 ≡ handlers self.callbacks self.unknown_message cmds)
unfolding handlers
dispatch_functions self [] i msg h = ((msg, []), unfold dispatch in refl, refl)
dispatch_functions self (c ∷ cmds) i msg h =
    let unknown = self.unknown_message in
    let (found, e, d) = find_callback-Live self.callbacks unknown c.cmd h in
    let call = command_call unknown found i msg in
    let (r, run, rest) = dispatch_functions self cmds (i + 1) call.0 h in
    let first = command_call_functions unknown _ found i msg d in
    (
      (r.0, call.1 ++ r.1),
      dispatch_step self c cmds i msg found r e run,
      map-append (λ c. c.function) call.1 r.1 ∙ ap₂ ◌++◌ first rest,
    )

map_marked :
    (callbacks : List CommandCallback) (unknown : Callback) (cmds : List Command)
    → handlers callbacks unknown (map (λ (c : Command). record c { ok = true }) cmds)
      ≡ handlers callbacks unknown cmds
unfolding handlers
map_marked callbacks unknown [] = refl
map_marked callbacks unknown (c ∷ cmds) =
    ap (◌++◌ (listed (handler callbacks unknown c.cmd))) (map_marked callbacks unknown cmds)

-- As long as no command was unregistered, a message that can be printed calls, in the order of its
-- commands, for each command the function of the first registration of its name, or else the one for
-- unknown messages, where they are set; and nothing else.
pub incoming_message-handlers :
    (p : Platform) (tv_sec tv_usec : ℕ) (self : Client) (msg : Message) (text : Bytes)
    → Live self.callbacks
    → message_as_string p tv_sec tv_usec msg ≡ ok text
    → (r : Message × List Call) × (incoming_message p tv_sec tv_usec self msg ≡ ok r)
      × (map (λ c. c.function) r.1 ≡ handlers self.callbacks self.unknown_message msg.payload.cmds)
unfolding incoming_message
incoming_message-handlers p tv_sec tv_usec self msg text h e =
    let (r, run, functions) = dispatch_functions self (marked msg).payload.cmds 0 (marked msg) h in
    (
      r,
      rw e run,
      functions ∙ unfold marked in map_marked self.callbacks self.unknown_message msg.payload.cmds,
    )
