-- ===== src/Client/Registry.antt =====
-- mbus_client_register and mbus_client_unregister.
use libgmbus.Base.{
  true, false, List, [], ◌∷◌, ◌++◌, ◌≡◌, refl, append_assoc, Bytes, str_eq, str_eq_self, All, none,
  some, arith, ok, fault, Fault,
}
use libgmbus.Client.{
  Callback, CommandCallback, Client, find_callback, register, free_callback, unregister,
}
use libgmbus.Client.Dispatch.{Live}

-- No entry has the name.
abbrev pub Unregistered : Bytes → List CommandCallback → Type 0
Unregistered cmd = All (λ cb. str_eq cb.command cmd ≡ false)

-- An entry that was added changes nothing for a name that is not its own.
find_callback_other :
    (callbacks : List CommandCallback) (cb : CommandCallback) (name : Bytes)
    → cb.freed ≡ false
    → str_eq cb.command name ≡ false
    → find_callback (callbacks ++ cb ∷ []) name ≡ find_callback callbacks name
unfolding find_callback
find_callback_other [] cb name live e = rw (live, e) refl
find_callback_other (x ∷ callbacks) cb name live e =
    rw (find_callback_other callbacks cb name live e) refl

find_callback_first :
    (xs ys : List CommandCallback) (cb : CommandCallback) (name : Bytes)
    → Live xs
    → Unregistered name xs
    → cb.freed ≡ false
    → str_eq cb.command name ≡ true
    → find_callback (xs ++ cb ∷ ys) name ≡ ok (some cb)
unfolding find_callback
find_callback_first [] ys cb name live h f e = ground (arith, f, e)
find_callback_first (x ∷ xs) ys cb name live h f e =
    rw (live.0, h.0, find_callback_first xs ys cb name live.1 h.1 f e) refl

find_callback-none :
    (callbacks : List CommandCallback) (name : Bytes)
    → Live callbacks
    → Unregistered name callbacks
    → find_callback callbacks name ≡ ok none
unfolding find_callback
find_callback-none [] name live h = refl
find_callback-none (x ∷ callbacks) name live h =
    rw (live.0, h.0, find_callback-none callbacks name live.1 h.1) refl

-- After a function was registered, the walk to another name goes as before, also where it reads a freed
-- entry. Where nothing in front of it was freed, the walk to a name that is new finds the function,
-- and the walk to a name that has an entry finds the first such entry, as before, so that the function
-- is never called.
pub register_lem :
    (self : Client) (cmd : Bytes) (func : Callback)
    → let after = (register self cmd func).callbacks in
      ((name : Bytes)
        → str_eq cmd name ≡ false
        → find_callback after name ≡ find_callback self.callbacks name)
      × (Live self.callbacks
          → Unregistered cmd self.callbacks
          → (find_callback self.callbacks cmd ≡ ok none)
            × (find_callback after cmd
                ≡ ok (some (record { command = cmd; callback = func; freed = false }))))
      × ((xs ys : List CommandCallback) (cb : CommandCallback)
          → self.callbacks ≡ xs ++ cb ∷ ys
          → Live xs
          → Unregistered cmd xs
          → cb.freed ≡ false
          → str_eq cb.command cmd ≡ true
          → (find_callback self.callbacks cmd ≡ ok (some cb))
            × (find_callback after cmd ≡ ok (some cb)))
unfolding register
register_lem self cmd func =
    let new : CommandCallback = record { command = cmd; callback = func; freed = false } in
    (
      (λ name e. find_callback_other self.callbacks new name refl e),
      (λ live h. (
        find_callback-none self.callbacks cmd live h,
        find_callback_first self.callbacks [] new cmd live h refl (str_eq_self cmd),
      )),
      (λ xs ys cb e live h f k. (
        rw e (find_callback_first xs ys cb cmd live h f k),
        rw (e, append_assoc xs (cb ∷ ys) (new ∷ []))
            (find_callback_first xs (ys ++ new ∷ []) cb cmd live h f k),
      )),
    )

free_callback-registered :
    (xs ys : List CommandCallback) (cb : CommandCallback) (cmd : Bytes)
    → Live xs
    → Unregistered cmd xs
    → cb.freed ≡ false
    → str_eq cb.command cmd ≡ true
    → free_callback (xs ++ cb ∷ ys) cmd ≡ ok (xs ++ record cb { freed = true } ∷ ys)
unfolding free_callback
free_callback-registered [] ys cb cmd live h f e = rw (f, e) refl
free_callback-registered (x ∷ xs) ys cb cmd live h f e =
    rw (live.0, h.0, free_callback-registered xs ys cb cmd live.1 h.1 f e) refl

find_callback-freed :
    (xs ys : List CommandCallback) (cb : CommandCallback) (name : Bytes)
    → Live xs
    → Unregistered name xs
    → find_callback (xs ++ record cb { freed = true } ∷ ys) name ≡ fault Fault.freed
unfolding find_callback
find_callback-freed [] ys cb name live h = refl
find_callback-freed (x ∷ xs) ys cb name live h =
    rw (live.0, h.0) (find_callback-freed xs ys cb name live.1 h.1)

-- Unregistering a name keeps its first entry in the list and frees it, so that the next command reads
-- freed memory whose name is not registered in front of it.
pub unregister_lem :
    (self : Client) (xs ys : List CommandCallback) (cb : CommandCallback) (cmd : Bytes)
    → self.callbacks ≡ xs ++ cb ∷ ys
    → Live xs
    → Unregistered cmd xs
    → cb.freed ≡ false
    → str_eq cb.command cmd ≡ true
    → (self' : Client) × (unregister self cmd ≡ ok self')
      × ((name : Bytes)
          → Unregistered name xs
          → find_callback self'.callbacks name ≡ fault Fault.freed)
unfolding unregister
unregister_lem self xs ys cb cmd e live h f k = (
  record self { callbacks = xs ++ record cb { freed = true } ∷ ys },
  rw (e, free_callback-registered xs ys cb cmd live h f k) refl,
  (λ name new. find_callback-freed xs ys cb name live new),
)
