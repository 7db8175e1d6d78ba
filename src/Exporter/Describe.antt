-- ===== src/Exporter/Describe.antt =====
-- `_describe` of exporter.py (lines 238 to 275): what a driver method returned, as text.
use yession.Prelude.{
  ℕ, ◌+◌, ◌≤◌, ◌<◌, ◌≡◌, refl, Bool, true, false, ◌||◌, List, [], ◌∷◌, ◌++◌, arith, Text, codes,
  leb, if◌then◌else◌, length, length-append, inl, inr, Bool-cases, ap,
}
use yession.Words.{join, decimal}
use yession.Provider.{Result, ok, error}

-- A generator as far as it is asked: each item is its `repr` and the reading of the clock after it;
-- then the generator returns or raises. At most `max_items` are asked for.
pub data Stream : Type 0 where
  ends : Stream
  raises : Text → Stream
  yields : Text → ℕ → Stream → Stream

pub data Returned : Type 0 where
  coroutine async_generator : Returned
  generator : Stream → Returned
  value : Text → Returned

-- MAX_ITEMS
abbrev pub max_items : ℕ
max_items = 10

-- The loop over the items: what was taken, and whether it broke off.
unfoldable pub collect : ℕ → Stream → List Text → Result (List Text × Bool)
collect deadline ends taken = ok (taken, false)
collect deadline (raises e) taken = error e
collect deadline (yields item now s) taken =
    let more = taken ++ item ∷ [] in
    let rest = collect deadline s more in
    if leb max_items (length more) || leb deadline now then ok (more, true) else rest

unfoldable pub describe_items : List Text × Bool → Text
describe_items ([], truncated) = codes "the stream ended without yielding anything"
describe_items (i ∷ items, truncated) =
    let body = join (codes ", ") (i ∷ items) in
    if truncated
    then body ++ (codes " (still going — first " ++ (decimal (length (i ∷ items)) ++ codes ")"))
    else body

-- `started + DRAIN_SECONDS` is the deadline. An exception of the generator goes on to the caller.
unfoldable pub described : Result (List Text × Bool) → Result Text
unfolding describe_items
described (ok r) = ok (describe_items r)
described (error e) = error e

unfoldable pub describe : ℕ → Returned → Result Text
unfolding collect described
describe deadline coroutine = ok (
    codes "that method is asynchronous, and this provider calls synchronous ones — nothing was run")
describe deadline async_generator = ok (
    codes "that method streams asynchronously, which this provider cannot drain — nothing was read")
describe deadline (generator s) = described (collect deadline s [])
describe deadline (value repr) = ok repr

-- The items that a stream yields.
abbrev pub items_of : Stream → List Text
items_of ends = []
items_of (raises e) = []
items_of (yields item now s) = item ∷ items_of s

-- What the loop takes is a beginning of what is there, at most `max_items` of it, and all of it
-- unless the answer says that it was cut.
abbrev pub Takes : Stream → List Text → List Text × Bool → Type 0
Takes s taken (items, truncated) =
    (length items ≤ max_items)
    × ((rest : List Text) × (taken ++ items_of s ≡ items ++ rest) × (truncated ≡ false → rest ≡ []))

-- The items, each with its reading of the clock, and then `s`.
abbrev pub yielding : List (Text × ℕ) → Stream → Stream
yielding [] s = s
yielding ((item, now) ∷ is) s = yields item now (yielding is s)

collect-cap :
    (deadline : ℕ) (is : List (Text × ℕ)) (s s' : Stream) (taken : List Text)
    → length taken < max_items
    → length taken + length is ≡ max_items
    → collect deadline (yielding is s) taken ≡ collect deadline (yielding is s') taken
unfolding collect
collect-cap deadline [] s s' taken h e = absurd (omega arith)
collect-cap deadline ((item, now) ∷ is) s s' taken h e =
    let more = taken ++ item ∷ [] in
    let grown = length-append taken (item ∷ []) in
    elim (Bool-cases (leb max_items (length more) || leb deadline now)) [
      | inl stop ↦ rw stop refl
      | inr go ↦
          rw go (
            collect-cap deadline is s s' more (ground (arith, go, grown))
              (ground (arith, grown, e)))
    ]

-- A stream that ends with its tenth item gets the very answer of a stream that goes on after it, be it
-- with more items or with an exception.
pub describe-cap :
    (deadline : ℕ) (is : List (Text × ℕ)) (s : Stream)
    → length is ≡ max_items
    → describe deadline (generator (yielding is ends))
      ≡ describe deadline (generator (yielding is s))
unfolding describe
describe-cap deadline is s e =
    ap described (collect-cap deadline is ends s [] (omega arith) (omega arith))
