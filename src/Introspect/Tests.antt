-- ===== src/Introspect/Tests.antt =====
-- A driver like the power client of the tests, and the theorems about its listing.
use yession.Prelude.{◌≡◌, ◌↔◌, refl, true, false, List, [], ◌∷◌, Text, codes, text_eq}
use yession.Introspect.{
  function, coroutine_function, property, static_method, Members, Class, offered, resolve, found,
  is_hidden, mem_text, getattr_static,
}
use yession.Introspect.Listing.{Distinct, names_of, offered_iff}

abbrev base_names : List Text
base_names = codes "call" ∷ codes "status" ∷ []

abbrev power_members : Members
power_members =
    (codes "_ask", function)
    ∷ (codes "call", function)
    ∷ (codes "on", function)
    ∷ (codes "off", static_method function)
    ∷ (codes "status", property)
    ∷ (codes "get_async", coroutine_function)
    ∷ []

-- The metaclass has a function that the class has not.
abbrev power_client : Class
power_client = record { members = power_members; of_metaclass = (codes "register", function) ∷ [] }

on_metaclass :
    (resolve base_names power_client (codes "register") (codes "power") ≡ found function)
    × (mem_text (codes "register") (offered base_names power_client) ≡ false)
unfolding resolve offered getattr_static mem_text text_eq codes
on_metaclass = (refl, refl)

listing_runs : offered base_names power_client ≡ codes "off" ∷ codes "on" ∷ []
unfolding offered text_eq codes
listing_runs = refl

names_of-Distinct : Distinct (names_of power_members)
unfolding mem_text text_eq codes
names_of-Distinct = (refl, (refl, (refl, (refl, (refl, (refl, tt))))))

offered_iff_example : (mem_text (codes "off") (offered base_names power_client) ≡ true) ↔ (
    (mem_text (codes "off") (names_of power_members) ≡ true)
    × (resolve base_names power_client (codes "off") (codes "power") ≡ found function)
    × (is_hidden (codes "off") ≡ false)
    × (mem_text (codes "off") base_names ≡ false))
offered_iff_example =
    offered_iff base_names power_client (codes "off") (codes "power") names_of-Distinct
