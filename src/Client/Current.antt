-- ===== src/Client/Current.antt =====
-- Which command a registered function finds by mbus_message_get_current_command.
use libgmbus.Base.{
  Bytes, ℕ, ◌+◌, List, [], ◌∷◌, ◌++◌, none, some, ◌≡◌, refl, ◌∙◌, sym, subst, arith, All,
  All-append, length, get_elem?, append_assoc, length-append, ok, ok_injective, Outcome, ◌>>=◌,
  >>=-eq-ok, Option,
}
use libgmbus.Platform.{Platform}
use libgmbus.Command.{Command}
use libgmbus.Message.{Message, message_as_string, get_current_command}
use libgmbus.Client.{
  CommandCallback, Client, Call, find_callback, unknown_call, callback_call, command_call, dispatch,
  marked, incoming_message,
}
use libgmbus.Client.Dispatch.{Live, handler, or_else, Decides, find_callback-Live}

get_elem?-append :
    {A : Type 0} (xs ys : List A) (y : A) → get_elem? (xs ++ y ∷ ys) (length xs) ≡ some y
get_elem?-append [] ys y = refl
get_elem?-append (x ∷ xs) ys y = get_elem?-append xs ys y

-- The current command of the message is one whose name is registered with the function.
abbrev pub IsCurrent : List CommandCallback → Call → Type 0
IsCurrent callbacks call =
    (c : Command) × (get_current_command call.message ≡ some c)
    × (handler callbacks none c.cmd ≡ some call.function)

module _ (callbacks : List CommandCallback) (before : List Command) (c : Command)
    (behind : List Command) (msg : Message) (whole : msg.payload.cmds ≡ before ++ c ∷ behind) where
  current_command : get_current_command (record msg { current = length before }) ≡ some c
  unfolding get_current_command
  current_command =
      let l = length-append before (c ∷ behind) in
      rw (whole, get_elem?-append before behind c) (ground (arith, l))

  call-IsCurrent :
      (found : Option CommandCallback)
      → Decides (handler callbacks none c.cmd) none found
      → All (IsCurrent callbacks) (command_call none found (length before) msg).1
        × ((command_call none found (length before) msg).0.payload.cmds ≡ before ++ c ∷ behind)
  unfolding command_call callback_call unknown_call
  call-IsCurrent none d = (tt, whole)
  call-IsCurrent (some cb) d =
      elim cb.callback
          as (λ k.
            (handler callbacks none c.cmd ≡ or_else k none)
            → All (IsCurrent callbacks) (callback_call none k (length before) msg).1
              × ((callback_call none k (length before) msg).0.payload.cmds
                  ≡ before ++ c ∷ behind)) [
                    | none ↦ λ e. (tt, whole)
                    | some f ↦ λ e. (((c, current_command, e), tt), whole)
                  ]
        d

dispatch_found :
    (self : Client) (c : Command) (cmds : List Command) (i : ℕ) (msg : Message)
    (found : Option CommandCallback)
    → find_callback self.callbacks c.cmd ≡ ok found
    → let call = command_call self.unknown_message found i msg in
      dispatch self (c ∷ cmds) i msg
      ≡ (dispatch self cmds (i + 1) call.0 >>= λ r. ok (r.0, call.1 ++ r.1))
unfolding dispatch
dispatch_found self c cmds i msg found e = rw e refl

dispatch-IsCurrent :
    (self : Client) (cmds before : List Command) (i : ℕ) (msg : Message) (r : Message × List Call)
    → Live self.callbacks
    → self.unknown_message ≡ none
    → i ≡ length before
    → msg.payload.cmds ≡ before ++ cmds
    → dispatch self cmds i msg ≡ ok r
    → All (IsCurrent self.callbacks) r.1
unfolding dispatch
dispatch-IsCurrent self [] before i msg r h unset place whole e =
    subst (λ (r : Message × List Call). All (IsCurrent self.callbacks) r.1) (ok_injective e) tt
dispatch-IsCurrent self (c ∷ cmds) before i msg r h unset place whole e =
    let (found, finds, d) = find_callback-Live self.callbacks none c.cmd h in
    let call = command_call self.unknown_message found i msg in
    let facts : All (IsCurrent self.callbacks) call.1 × (call.0.payload.cmds ≡ before ++ c ∷ cmds) =
      rw (unset, place) (call-IsCurrent self.callbacks before c cmds msg whole found d) in
    let k : Message × List Call → Outcome (Message × List Call) = λ r. ok (r.0, call.1 ++ r.1) in
    let run : (dispatch self cmds (i + 1) call.0 >>= k) ≡ ok r =
      sym (dispatch_found self c cmds i msg found finds) ∙ e in
    let (r', rest, end) = >>=-eq-ok (dispatch self cmds (i + 1) call.0) k run in
    let next : i + 1 ≡ length (before ++ c ∷ []) = omega (arith, length-append before (c ∷ [])) in
    let others =
      dispatch-IsCurrent self cmds (before ++ c ∷ []) (i + 1) call.0 r' h unset next
        (facts.1 ∙ sym (append_assoc before (c ∷ []) cmds)) rest in
    subst (λ (r : Message × List Call). All (IsCurrent self.callbacks) r.1) (ok_injective end)
      (All-append (IsCurrent self.callbacks) call.1 r'.1 facts.0 others)

-- As long as no command was unregistered and no function is set for unknown messages, a function is
-- only called with a message whose current command has a name that is registered with the function.
pub incoming_message-IsCurrent :
    (p : Platform) (tv_sec tv_usec : ℕ) (self : Client) (msg msg' : Message) (calls : List Call)
    → Live self.callbacks
    → self.unknown_message ≡ none
    → incoming_message p tv_sec tv_usec self msg ≡ ok (msg', calls)
    → All (IsCurrent self.callbacks) calls
unfolding incoming_message
incoming_message-IsCurrent p tv_sec tv_usec self msg msg' calls h unset e =
    let k : Bytes → Outcome (Message × List Call) =
      λ text. dispatch self (marked msg).payload.cmds 0 (marked msg) in
    let (text, printed, run) = >>=-eq-ok (message_as_string p tv_sec tv_usec msg) k e in
    dispatch-IsCurrent self (marked msg).payload.cmds [] 0 (marked msg) (msg', calls) h unset refl
      refl run
