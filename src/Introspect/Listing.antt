-- ===== src/Introspect/Listing.antt =====
-- The list of `offered` and the verdict of `resolve` (introspect.py, lines 42 to 99).
use yession.Prelude.{
  ◌≡◌, ◌↔◌, refl, Bool, true, false, ◌||◌, Option, none, some, List, [], ◌∷◌, arith, Text, codes,
  text_eq, text_eq_iff, text_eq_refl, ap, sym, ◌∙◌, Bool-cases, inl, inr,
}
use yession.Words.{join}
use yession.Introspect.{
  Attribute, function, coroutine_function, async_generator_function, property, other, static_method,
  class_method, Members, Class, lookup, getattr_static, unwrapped, is_async, is_function, is_hidden,
  mem_text, is_offered, text_le, insert, sorted, collect, offered, found, judge, resolve,
  unwrapped_option,
}

mem_text-insert :
    (x n : Text) (l : List Text) → mem_text x (insert n l) ≡ (text_eq n x || mem_text x l)
unfolding mem_text insert
mem_text-insert x n [] = refl
mem_text-insert x n (m ∷ l) = ground (arith, mem_text-insert x n l)

mem_text-sorted : (x : Text) (l : List Text) → mem_text x (sorted l) ≡ mem_text x l
unfolding mem_text sorted
mem_text-sorted x [] = refl
mem_text-sorted x (n ∷ l) =
    mem_text-insert x n (sorted l) ∙ ap (λ b. text_eq n x || b) (mem_text-sorted x l)

-- The names of `dir(cls)` are distinct.
abbrev pub Distinct : List Text → Type 0
Distinct [] = Unit
Distinct (n ∷ ns) = (mem_text n ns ≡ false) × Distinct ns

abbrev pub names_of : Members → List Text
names_of [] = []
names_of ((k, a) ∷ ms) = k ∷ names_of ms

abbrev offered_as : List Text → Text → Option Attribute → Bool
offered_as base name none = false
offered_as base name (some a) = is_offered base name a

collect-absent :
    (base : List Text) (x : Text) (ms : Members)
    → mem_text x (names_of ms) ≡ false
    → mem_text x (collect base ms) ≡ false
unfolding collect mem_text
collect-absent base x [] h = refl
collect-absent base x ((k, a) ∷ ms) h = ground (arith, collect-absent base x ms)

mem_text-collect :
    (base : List Text) (x : Text) (ms : Members)
    → Distinct (names_of ms)
    → mem_text x (collect base ms) ≡ offered_as base x (lookup x ms)
unfolding collect mem_text lookup
mem_text-collect base x [] d = refl
mem_text-collect base x ((k, a) ∷ ms) d = elim (Bool-cases (text_eq k x)) [
  | inl same ↦
      ground (arith, (text_eq_iff k x).0 same, text_eq_refl x, collect-absent base k ms d.0)
  | inr other_name ↦ ground (arith, mem_text-collect base x ms d.1)
]

judge-function :
    (name driver listing : Text) (a : Attribute)
    → (judge name driver listing (some a) ≡ found function)
      ↔ ((is_function a ≡ true) × (is_async a ≡ false))
unfolding judge is_function is_async
judge-function name driver listing function = (λ e. (refl, refl), λ h. refl)
judge-function name driver listing coroutine_function = ground arith
judge-function name driver listing async_generator_function = ground arith
judge-function name driver listing property = ground arith
judge-function name driver listing other = ground arith
judge-function name driver listing (static_method a) = ground arith
judge-function name driver listing (class_method a) = ground arith

is_offered-parts :
    (base : List Text) (name : Text) (a : Attribute)
    → is_offered base name a ≡ true
    → (is_hidden name ≡ false)
      × (mem_text name base ≡ false)
      × (is_function (unwrapped a) ≡ true)
      × (is_async (unwrapped a) ≡ false)
unfolding is_offered
is_offered-parts base name a e = ground arith

offered_as_iff :
    (base : List Text) (name driver listing : Text) (o : Option Attribute)
    → (offered_as base name o ≡ true) ↔ (
        (judge name driver listing (unwrapped_option o) ≡ found function)
        × (is_hidden name ≡ false)
        × (mem_text name base ≡ false))
unfolding is_offered
offered_as_iff base name driver listing none = unfold judge in (λ e. cc, λ h. cc)
offered_as_iff base name driver listing (some a) =
    let verdict = judge-function name driver listing (unwrapped a) in
    (
      λ e.
          let parts = is_offered-parts base name a e in
          (verdict.1 (parts.2, parts.3), parts.0, parts.1),
      λ h. let kind = verdict.0 h.0 in ground (arith, kind.0, kind.1, h.1, h.2),
    )

lookup-absent : (x : Text) (ms : Members) → mem_text x (names_of ms) ≡ false → lookup x ms ≡ none
unfolding lookup mem_text
lookup-absent x [] h = refl
lookup-absent x ((k, a) ∷ ms) h = ground (arith, h, lookup-absent x ms)

lookup-present :
    (x : Text) (ms : Members)
    → mem_text x (names_of ms) ≡ true
    → (a : Attribute) × (lookup x ms ≡ some a)
unfolding lookup mem_text
lookup-present x [] h = cc
lookup-present x ((k, a) ∷ ms) h = elim (Bool-cases (text_eq k x)) [
  | inl same ↦ (a, rw same refl)
  | inr other_name ↦
      let (b, e) = lookup-present x ms (ground (arith, h, other_name)) in (b, rw other_name e)
]

-- What is on the class itself is what `getattr_static` finds.
getattr_static-present :
    (name : Text) (cls : Class)
    → mem_text name (names_of cls.members) ≡ true
    → getattr_static name cls ≡ lookup name cls.members
unfolding getattr_static
getattr_static-present name cls h = let (a, e) = lookup-present name cls.members h in rw e refl

-- The listing and the verdict agree: `offered` lists a name exactly if it is among the names of the
-- class, `resolve` finds a synchronous function under it, the name has no leading underscore, and the
-- SDK's base class does not carry it. What `resolve` finds on the metaclass alone is not listed.
pub offered_iff :
    (base : List Text) (cls : Class) (name driver : Text)
    → Distinct (names_of cls.members)
    → (mem_text name (offered base cls) ≡ true) ↔ (
        (mem_text name (names_of cls.members) ≡ true)
        × (resolve base cls name driver ≡ found function)
        × (is_hidden name ≡ false)
        × (mem_text name base ≡ false))
unfolding offered resolve
offered_iff base cls name driver d =
    let words = join (codes ", ") (sorted (collect base cls.members)) in
    let verdict = offered_as_iff base name driver words (lookup name cls.members) in
    let listed =
      mem_text-sorted name (collect base cls.members) ∙ mem_text-collect base name cls.members d in
    elim (Bool-cases (mem_text name (names_of cls.members))) [
      | inl there ↦
          let same = getattr_static-present name cls there in
          (
            λ e.
                let parts = verdict.0 (sym listed ∙ e) in
                (there, rw same parts.0, parts.1, parts.2),
            λ h. listed ∙ verdict.1 (rw same at h.1, h.2, h.3),
          )
      | inr absent ↦ (
        λ e.
            let gone = ap (offered_as base name) (lookup-absent name cls.members absent) in
            cc (sym gone ∙ sym listed ∙ e),
        λ h. cc (h.0, absent),
      )
    ]

-- Each text is at most the next.
abbrev pub Sorted : List Text → Type 0
Sorted [] = Unit {0}
Sorted (a ∷ []) = Unit {0}
Sorted (a ∷ b ∷ l) = (text_le a b ≡ true) × Sorted (b ∷ l)

text_le_total : (s t : Text) → text_le s t ≡ false → text_le t s ≡ true
unfolding text_le
text_le_total [] t h = cc
text_le_total (a ∷ s) [] h = refl
text_le_total (a ∷ s) (b ∷ t) h = ground (arith, text_le_total s t)

insert-Sorted : (n : Text) (l : List Text) → Sorted l → Sorted (insert n l)
unfolding insert
insert-Sorted n [] s = tt
insert-Sorted n (m ∷ []) s = ground (arith, text_le_total n m)
insert-Sorted n (m ∷ k ∷ l) s =
    ground (arith, text_le_total n m, text_le_total n k, insert-Sorted n (k ∷ l) s.1)

sorted-Sorted : (l : List Text) → Sorted (sorted l)
unfolding sorted
sorted-Sorted [] = tt
sorted-Sorted (n ∷ l) = insert-Sorted n (sorted l) (sorted-Sorted l)

-- The listing is in the order of code points.
pub offered-Sorted : (base : List Text) (cls : Class) → Sorted (offered base cls)
unfolding offered
offered-Sorted base cls = sorted-Sorted (collect base cls.members)
