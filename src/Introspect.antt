-- ===== src/Introspect.antt =====
-- examples/jumpstarter/src/jumpstarter_provider/introspect.py: what a driver offers, and what a name is.
pub mod Listing
mod Tests
use yession.Prelude.{
  ℕ, Bool, true, false, not, ◌&&◌, ◌||◌, Option, none, some, List, [], ◌∷◌, ◌++◌, Text, codes,
  text_eq, leb, ltb, ◌==◌, if◌then◌else◌,
}
use yession.Words.{join}

-- What `inspect.getattr_static` finds on a class, as far as the file tells it apart. A static or class
-- method holds what it wraps in `__func__`.
pub data Attribute : Type 0 where
  function coroutine_function async_generator_function property other : Attribute
  static_method class_method : Attribute → Attribute

-- Names, each with its attribute. Names are distinct.
abbrev pub Members : Type 0
Members = List (Text × Attribute)

-- A class: the names of `dir(cls)`; and those of its metaclass, which `dir` leaves out.
pub record Class : Type 0 where
  pub members : Members
  pub of_metaclass : Members

unfoldable pub lookup : Text → Members → Option Attribute
lookup name [] = none
lookup name ((k, a) ∷ ms) = if text_eq k name then some a else lookup name ms

-- What is found on the class, or else on its metaclass.
abbrev pub or_else : Option Attribute → Option Attribute → Option Attribute
or_else (some a) later = some a
or_else none later = later

-- `inspect.getattr_static(cls, name, None)`
unfoldable pub getattr_static : Text → Class → Option Attribute
unfolding lookup
getattr_static name cls = or_else (lookup name cls.members) (lookup name cls.of_metaclass)

-- `attribute.__func__` if it is a static or class method.
unfoldable pub unwrapped : Attribute → Attribute
unwrapped (static_method a) = a
unwrapped (class_method a) = a
unwrapped a = a

unfoldable pub is_async : Attribute → Bool
is_async coroutine_function = true
is_async async_generator_function = true
is_async _ = false

-- `inspect.isfunction`, which is true of functions of any kind.
unfoldable pub is_function : Attribute → Bool
is_function function = true
is_function coroutine_function = true
is_function async_generator_function = true
is_function _ = false

-- `name.startswith("_")`: the code point of the underscore is 95.
unfoldable pub is_hidden : Text → Bool
is_hidden [] = false
is_hidden (c ∷ s) = c == 95

unfoldable pub mem_text : Text → List Text → Bool
mem_text name [] = false
mem_text name (n ∷ ns) = text_eq n name || mem_text name ns

-- The tests of the loop of `offered` that do not `continue`.
unfoldable pub is_offered : List Text → Text → Attribute → Bool
unfolding unwrapped is_async is_function is_hidden mem_text
is_offered base name a =
    not (is_hidden name || mem_text name base)
    && (is_function (unwrapped a) && not (is_async (unwrapped a)))

-- The order of `sorted` on texts.
unfoldable pub text_le : Text → Text → Bool
text_le [] t = true
text_le (a ∷ s) [] = false
text_le (a ∷ s) (b ∷ t) = if a == b then text_le s t else ltb a b

unfoldable pub insert : Text → List Text → List Text
unfolding text_le
insert n [] = n ∷ []
insert n (m ∷ ms) = if text_le n m then n ∷ m ∷ ms else m ∷ insert n ms

-- `sorted(names)`: the sorted list of the same names.
unfoldable pub sorted : List Text → List Text
unfolding insert
sorted [] = []
sorted (n ∷ ns) = insert n (sorted ns)

-- The loop of `offered`; the names come from `dir(cls)`, so each has an attribute.
unfoldable pub collect : List Text → Members → List Text
unfolding is_offered
collect base [] = []
collect base ((name, a) ∷ ms) =
    let rest = collect base ms in if is_offered base name a then name ∷ rest else rest

unfoldable pub offered : List Text → Class → List Text
unfolding collect sorted
offered base cls = sorted (collect base cls.members)

-- A function of the class, or the reason of a `Refusal`.
pub data Resolved : Type 0 where
  found : Attribute → Resolved
  refusal : Text → Resolved

abbrev pub unwrapped_option : Option Attribute → Option Attribute
unwrapped_option none = none
unwrapped_option (some a) = some (unwrapped a)

-- The three tests of `resolve`, in their order; `listing` is what it quotes.
unfoldable pub judge : Text → Text → Text → Option Attribute → Resolved
judge name driver listing (some property) = refusal (
    codes "'"
    ++ (name
        ++ (codes
              "' is a property of the SDK's driver client, not a driver method — there is nothing to call. "
            ++ (driver ++ (codes " offers: " ++ listing)))))
judge name driver listing (some coroutine_function) = refusal (
    codes "'"
    ++ (name
        ++ (codes "' is asynchronous, and this provider calls synchronous driver methods. "
            ++ (driver ++ (codes " offers: " ++ listing)))))
judge name driver listing (some async_generator_function) = refusal (
    codes "'"
    ++ (name
        ++ (codes "' is asynchronous, and this provider calls synchronous driver methods. "
            ++ (driver ++ (codes " offers: " ++ listing)))))
judge name driver listing (some function) = found function
judge name driver listing _ = refusal (
    codes "no method '"
    ++ (name ++ (codes "' on " ++ (driver ++ (codes " — it offers: " ++ listing)))))

unfoldable pub resolve : List Text → Class → Text → Text → Resolved
unfolding judge getattr_static unwrapped offered
resolve base cls name driver =
    judge name driver (join (codes ", ") (offered base cls))
      (unwrapped_option (getattr_static name cls))
