-- ===== src/Tests/Addressing.antt =====
-- Runs of the operations on addresses.
use mathlib.Core.List.{Perm}
use libgmbus.Address.Match.{WildcardId}
use libgmbus.Address.{element_is_equal}
use libgmbus.Base.{
  str_eq, ◌⊎◌, true, [], ◌∷◌, ◌++◌, ◌≡◌, ◌≢◌, refl, arith, Bytes, codes, if◌then◌else◌, ok, fault,
  Fault,
}
use libgmbus.Tests.{platform}
use libgmbus.Address.{
  AddressElement, Address, address_new, address_read, as_string, is_equal, is_subset_of, is_unique,
  hash, disambiguate, id_key,
}
use libgmbus.Address.Ends.{Closes, Returns, address_read-Returns}
use libgmbus.Address.Match.{hash-is_equal}
use libgmbus.Address.Parse.{IsReadable, address_read-as_string_sorted}
use libgmbus.Address.Sort.{IsSorted, disambiguate_lem}

abbrev pub element : Bytes → Bytes → AddressElement
element k v = record { key = k; value = v }

-- (app:mail id:7)
abbrev pub mail : Address
mail = record {
  elements = element (codes "app") (codes "mail") ∷ element (codes "id") (codes "7") ∷ [];
  ok = true;
}

-- (app:*)
abbrev pub any_app : Address
any_app = record { elements = element (codes "app") (codes "*") ∷ []; ok = true }

pub element-IsReadable_app : IsReadable (element (codes "app") (codes "mail"))
element-IsReadable_app = record {
  key_chars = (refl, (refl, (refl, tt)));
  key_fits = omega arith;
  value_chars = unfold libgmbus.Address.is_value_char in (refl, (refl, (refl, (refl, tt))));
  value_fits = omega arith;
}

pub element-IsReadable_id : IsReadable (element (codes "id") (codes "7"))
element-IsReadable_id = record {
  key_chars = (refl, (refl, tt));
  key_fits = omega arith;
  value_chars = unfold libgmbus.Address.is_value_char in (refl, tt);
  value_fits = omega arith;
}

pub mail-IsSorted : IsSorted mail.elements
mail-IsSorted = unfold libgmbus.Address.str_le in ((refl, tt), (tt, tt))

address_read-as_string_sorted_example :
    address_read address_new (as_string mail ++ codes " rest") ≡ ok (true, mail, codes " rest")
address_read-as_string_sorted_example =
    address_read-as_string_sorted mail (codes " rest")
      (element-IsReadable_app, (element-IsReadable_id, tt)) mail-IsSorted

address_read-Returns_example :
    (Closes (codes "(a:b c:d e)") → Returns (address_read mail (codes "(a:b c:d e)")))
    × (address_read mail (codes "(a:b c:d e)") ≢ fault Fault.endless)
address_read-Returns_example = address_read-Returns mail (codes "(a:b c:d e)")

-- (app:* id:7), which equals mail by its wildcard.
abbrev any_mail : Address
any_mail = record {
  elements = element (codes "app") (codes "*") ∷ element (codes "id") (codes "7") ∷ [];
  ok = true;
}

mail-any_mail : is_equal mail any_mail ≡ true
unfolding is_equal element_is_equal str_eq
mail-any_mail = refl

hash-is_equal_example :
    (hash platform mail ≡ hash platform any_mail) ⊎ WildcardId mail ⊎ WildcardId any_mail
hash-is_equal_example = hash-is_equal platform mail any_mail mail-any_mail

disambiguate_lem_example :
    (is_unique (disambiguate (codes "9") any_app) ≡ true)
    × IsSorted (disambiguate (codes "9") any_app).elements
    × Perm (disambiguate (codes "9") any_app).elements (
        if is_unique any_app
        then any_app.elements
        else any_app.elements ++ element id_key (codes "9") ∷ [])
disambiguate_lem_example = disambiguate_lem (codes "9") any_app
