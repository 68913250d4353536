-- ===== src/Transport/Acks.antt =====
-- Acknowledgements that wait: noted for a reliable message that came, sent with a message to its
-- source or by their timer.
use libgmbus.Base.{
  true, false, List, [], ◌∷◌, ◌++◌, none, some, ◌≡◌, refl, sym, ap, subst, ◌∙◌, arith, ==_self, All,
  All-append, Option-cases, inl, inr, ok,
}
use libgmbus.Platform.{Platform}
use libgmbus.Address.{Address, hash}
use libgmbus.Address.Match.{is_equal_self, is_equal_comm}
use libgmbus.Header.{Header, header_new}
use libgmbus.Message.{Message, message_new}
use libgmbus.Table.{lookup, remove, drop_key, keys}
use libgmbus.Table.Entries.{
  Pairwise, Pairwise-append, All-map, All-both, All-remove, Pairwise-remove, lookup-All,
}
use libgmbus.Table.Keys.{
  Member, keys-remove, keys-modify, insert_new, keys-append, lookup-none, lookup-none_of,
  All-modify, Pairwise-modify, lookup-modify_self, lookup-append_new, lookup-Member, Member-keys,
  remove_own,
}
use libgmbus.Transport.{Transport, Acknowledgement, Action, follow, same_address, link_send}
use libgmbus.Transport.Sending.{pass_acks, flush_acks, send_acks}
use libgmbus.Transport.Receiving.{note_number, note_reliable}

module _ (p : Platform) where
  pub same_address_self : (a : Address) → same_address p a a ≡ true
  same_address_self a = rw (==_self (hash p a), is_equal_self a) refl

  same_address_comm : (a b : Address) → same_address p a b ≡ false → same_address p b a ≡ false
  same_address_comm a b h = ground (arith, is_equal_comm a b)

  -- Neither finds the other.
  abbrev pub Strangers : Address × Acknowledgement → Address × Acknowledgement → Type 0
  Strangers a b = (same_address p a.0 b.0 ≡ false) × (same_address p b.0 a.0 ≡ false)

  abbrev pub Own : Address × Acknowledgement → Type 0
  Own e = e.1.source ≡ e.0

  pub record IsWaiting (self : Transport) : Type 0 where
    pub apart : Pairwise Strangers self.acknowledgements
    pub own : All Own self.acknowledgements
    pub timed : self.ack_timers ≡ keys self.acknowledgements

  Pairwise-one_way :
      (m : List (Address × Acknowledgement))
      → Pairwise Strangers m
      → Pairwise (λ a b. same_address p a.0 b.0 ≡ false) m
  Pairwise-one_way [] h = tt
  Pairwise-one_way (x ∷ m) h = (
    All-map (Strangers x) (λ b. same_address p x.0 b.0 ≡ false) (λ b s. s.0) m h.0,
    Pairwise-one_way m h.1,
  )

  -- The acknowledgement of one source and its timer are removed.
  removed-IsWaiting :
      (self : Transport) (source : Address)
      → IsWaiting self
      → IsWaiting (record self {
        acknowledgements = remove (same_address p) source self.acknowledgements;
        ack_timers = drop_key (same_address p) source self.ack_timers;
      })
  removed-IsWaiting self source inv = record {
    apart = Pairwise-remove (same_address p) Strangers source self.acknowledgements inv.apart;
    own = All-remove (same_address p) Own source self.acknowledgements inv.own;
    timed =
        ap (drop_key (same_address p) source) inv.timed
        ∙ sym (keys-remove (same_address p) source self.acknowledgements);
  }

  -- The acknowledgement that is found has its key for its source.
  found-Own :
      (self : Transport) (dest : Address) (ack : Acknowledgement)
      → IsWaiting self
      → lookup (same_address p) dest self.acknowledgements ≡ some ack
      → Member ack.source (keys self.acknowledgements)
  found-Own self dest ack inv found =
      let m = self.acknowledgements in
      let (k, s, (own, here)) =
        lookup-All (same_address p) (λ e. Own e × Member e.0 (keys m)) dest m ack
          (All-both Own (λ e. Member e.0 (keys m)) m inv.own (Member-keys (same_address p) m))
          found in
      rw own here

  -- Nothing is left for a source that was removed.
  removed_none :
      (self : Transport) (source : Address)
      → IsWaiting self
      → Member source (keys self.acknowledgements)
      → lookup (same_address p) source (remove (same_address p) source self.acknowledgements) ≡ none
  removed_none self source inv mem =
      lookup-none_of (same_address p) source (remove (same_address p) source self.acknowledgements)
        (remove_own (same_address p) same_address_self source self.acknowledgements inv.apart mem)

  -- A message that finds an acknowledgement for its destination takes all its numbers along; the
  -- acknowledgement and its timer are gone. Without one nothing changes.
  pub pass_acks_lem :
      (self : Transport) (msg : Message)
      → IsWaiting self
      → let r =
          pass_acks p self msg
            (lookup (same_address p) msg.header.destination self.acknowledgements) in
        IsWaiting r.0
        × ((ack : Acknowledgement)
            → lookup (same_address p) msg.header.destination self.acknowledgements ≡ some ack
            → (r.1.header.acks ≡ msg.header.acks ++ ack.acks)
              × (lookup (same_address p) ack.source r.0.acknowledgements ≡ none))
        × (lookup (same_address p) msg.header.destination self.acknowledgements ≡ none
            → r ≡ (self, msg))
  unfolding pass_acks
  pass_acks_lem self msg inv =
      elim (Option-cases (lookup (same_address p) msg.header.destination self.acknowledgements)) [
        | inl e ↦ rw e (inv, (λ ack h. cc), (λ h. refl))
        | inr (ack, e) ↦ rw e (
          removed-IsWaiting self ack.source inv,
          (λ other h.
              let same : ack ≡ other = cc in
              rw (← same) (
                refl,
                removed_none self ack.source inv (found-Own self msg.header.destination ack inv e),
              )),
          (λ h. cc),
        )
      ]

  -- The state in which __mbus_transport_send_acks runs for a source: its timer is gone.
  abbrev due : Transport → Address → Transport
  due self source = record self { ack_timers = drop_key (same_address p) source self.ack_timers }

  flush_acks-IsWaiting :
      (self : Transport) (source : Address) (ack : Acknowledgement)
      → IsWaiting self
      → ack.source ≡ source
      → IsWaiting (flush_acks p (due self source) ack).0
  unfolding flush_acks
  flush_acks-IsWaiting self source ack inv own = record {
    apart = Pairwise-remove (same_address p) Strangers ack.source self.acknowledgements inv.apart;
    own = All-remove (same_address p) Own ack.source self.acknowledgements inv.own;
    timed =
        ap (drop_key (same_address p) source) inv.timed
        ∙ sym (keys-remove (same_address p) source self.acknowledgements)
        ∙ ap (λ s. keys (remove (same_address p) s self.acknowledgements)) (sym own);
  }

  -- Where the acknowledgements that wait are apart, each under its own source and with one timer, the
  -- timer of a source reads no freed memory and leaves such a state: one message goes to the source,
  -- from the address of the transport, with just the numbers that waited for it, and none is left.
  pub send_acks_lem :
      (self : Transport) (source : Address)
      → IsWaiting self
      → Member source self.ack_timers
      → (ack : Acknowledgement) × (lookup (same_address p) source self.acknowledgements ≡ some ack)
        × (r : Transport × List Action) × (send_acks p self source ≡ ok r)
        × IsWaiting r.0
        × (lookup (same_address p) source r.0.acknowledgements ≡ none)
        × ((msg : Message) × (r.1 ≡ link_send msg ∷ [])
            × (msg.header.destination ≡ source)
            × (msg.header.source ≡ self.address)
            × (msg.header.acks ≡ ack.acks))
  unfolding send_acks flush_acks message_new header_new
  send_acks_lem self source inv mem =
      let m = self.acknowledgements in
      let here = subst (λ l. Member source l) inv.timed mem in
      let (ack, found, own) =
        lookup-Member (same_address p) same_address_self Own source m (Pairwise-one_way m inv.apart)
          inv.own here in
      let r = flush_acks p (due self source) ack in
      (
        ack,
        found,
        r,
        rw found (unfold follow in refl),
        flush_acks-IsWaiting self source ack inv own,
        ap (λ s. lookup (same_address p) source (remove (same_address p) s m)) own
            ∙ removed_none self source inv here,
        (_, refl, own, refl, refl),
      )

  note_new :
      (self : Transport) (header : Header)
      → IsWaiting self
      → lookup (same_address p) header.source self.acknowledgements ≡ none
      → let self' = note_reliable p self header none in
        IsWaiting self'
        × (lookup (same_address p) header.source self'.acknowledgements
            ≡ some (record { source = header.source; acks = header.sequence_no ∷ [] }))
  unfolding note_reliable
  note_new self header inv e =
      let m = self.acknowledgements in
      let ack : Acknowledgement = record {
        source = header.source;
        acks = header.sequence_no ∷ [];
      } in
      let appended = insert_new (same_address p) header.source ack m e in
      (
        record {
          apart = rw appended (
              Pairwise-append Strangers m (header.source, ack) inv.apart
                (All-map (λ b. same_address p b.0 header.source ≡ false)
                  (λ b. Strangers b (header.source, ack))
                  (λ b s. (s, same_address_comm b.0 header.source s)) m
                  (lookup-none (same_address p) header.source m e)));
          own = rw appended (All-append Own m ((header.source, ack) ∷ []) inv.own (refl, tt));
          timed =
              ap (λ l. l ++ header.source ∷ []) inv.timed
              ∙ sym (ap keys appended ∙ keys-append (same_address p) m header.source ack);
        },
        rw appended (lookup-append_new (same_address p) same_address_self header.source ack m e),
      )

  note_more :
      (self : Transport) (header : Header) (ack : Acknowledgement)
      → IsWaiting self
      → lookup (same_address p) header.source self.acknowledgements ≡ some ack
      → let self' = note_reliable p self header (some ack) in
        IsWaiting self'
        × (lookup (same_address p) header.source self'.acknowledgements
            ≡ some (record ack { acks = ack.acks ++ header.sequence_no ∷ [] }))
  unfolding note_reliable
  note_more self header ack inv e =
      let m = self.acknowledgements in
      let f = note_number p header.sequence_no in
      (
        record {
          apart =
              Pairwise-modify (same_address p)
                (λ a b. (same_address p a b ≡ false) × (same_address p b a ≡ false)) f header.source
                m inv.apart;
          own = All-modify (same_address p) Own f header.source m (λ j v own. own) inv.own;
          timed = inv.timed ∙ sym (keys-modify (same_address p) f header.source m);
        },
        lookup-modify_self (same_address p) f header.source m ack e,
      )

  -- Where the acknowledgements that wait are apart, each under its own source and with one timer, a
  -- reliable message leaves such a state: its number is added behind those that wait for its source
  -- and no timer is started, or it is the only one and a timer is started.
  pub note_reliable_lem :
      (self : Transport) (header : Header)
      → IsWaiting self
      → let before = lookup (same_address p) header.source self.acknowledgements in
        let self' = note_reliable p self header before in
        IsWaiting self'
        × ((ack : Acknowledgement)
            → before ≡ some ack
            → (lookup (same_address p) header.source self'.acknowledgements
                ≡ some (record ack { acks = ack.acks ++ header.sequence_no ∷ [] }))
              × (self'.ack_timers ≡ self.ack_timers))
        × (before ≡ none
            → (lookup (same_address p) header.source self'.acknowledgements
                ≡ some (record { source = header.source; acks = header.sequence_no ∷ [] }))
              × (self'.ack_timers ≡ self.ack_timers ++ header.source ∷ []))
  unfolding note_reliable
  note_reliable_lem self header inv =
      elim (Option-cases (lookup (same_address p) header.source self.acknowledgements)) [
        | inl e ↦
            let (inv', found) = note_new self header inv e in
            rw e (inv', (λ ack h. cc), (λ h. (found, refl)))
        | inr (ack, e) ↦
            let (inv', found) = note_more self header ack inv e in
            rw e (
              inv',
              (λ other h. let same : ack ≡ other = cc in rw (← same) (found, refl)),
              (λ h. cc),
            )
      ]
