-- ===== src/Link/Callbacks.antt =====
-- mbus_link_attach and mbus_link_detach.
use libgmbus.Base.{true, false, List, [], ◌∷◌, ◌++◌, ◌≡◌, refl, ==_self, All, append-nil}
use libgmbus.Link.{Callback, Link, is_callback, remove_callback, attach, detach}

-- No callback of the list is the one.
abbrev pub Absent : Callback → List Callback → Type 0
Absent c = All (λ cb. is_callback cb c ≡ false)

is_callback_self : (c : Callback) → is_callback c c ≡ true
unfolding is_callback
is_callback_self c = rw (==_self c.object, ==_self c.when_message, ==_self c.when_error) refl

remove_callback-first :
    (c : Callback) (xs ys : List Callback)
    → Absent c xs
    → remove_callback c (xs ++ c ∷ ys) ≡ (true, xs ++ ys)
unfolding remove_callback
remove_callback-first c [] ys h = rw (is_callback_self c) refl
remove_callback-first c (x ∷ xs) ys h = rw (h.0, remove_callback-first c xs ys h.1) refl

remove_callback-Absent :
    (c : Callback) (xs : List Callback) → Absent c xs → remove_callback c xs ≡ (false, xs)
unfolding remove_callback
remove_callback-Absent c [] h = refl
remove_callback-Absent c (x ∷ xs) h = rw (h.0, remove_callback-Absent c xs h.1) refl

-- Detaching takes away the first equal callback and leaves the order of the others; if there is none it
-- changes nothing and says so; and it undoes the attaching of a callback that was not there.
pub detach_lem :
    (self : Link) (c : Callback)
    → ((xs ys : List Callback)
        → Absent c xs
        → detach (record self { callbacks = xs ++ c ∷ ys }) c
          ≡ (true, record self { callbacks = xs ++ ys }))
      × (Absent c self.callbacks → detach self c ≡ (false, self))
      × (Absent c self.callbacks → detach (attach self c) c ≡ (true, self))
unfolding detach attach
detach_lem self c = (
  (λ xs ys h. rw (remove_callback-first c xs ys h) refl),
  (λ h. rw (remove_callback-Absent c self.callbacks h) refl),
  (λ h. rw (remove_callback-first c self.callbacks [] h, append-nil self.callbacks) refl),
)
