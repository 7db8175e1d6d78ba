-- ===== src/Provider/Power.antt =====
-- What the tools ask of the exporter, against an exporter that answers as it likes (provider.py,
-- lines 272 to 308).
use yession.Prelude.{
  ℕ, ◌*◌, ◌≡◌, Bool, List, [], ◌∷◌, ◌++◌, Text, codes, text_eq, ◌⊎◌, if◌then◌else◌,
}
use yession.Words.{strip, lower}
use yession.Provider.{
  Answer, Task, done, asks, calls, sleeps, Result, ok, error, Listing, power_call, said,
  ticks_per_second,
}

-- What a task does on the outside, in order.
pub data Act (V : Type 0) : Type 0 where
  listing : Listing → Act V
  called : Text → Text → List V → Act V
  slept : ℕ → Act V

module _ {V : Type 0} (lines : List (Act V) → Result (List Text))
    (reply : List (Act V) → Result Text) where
  -- A task run to its end. Each answer may depend on all that was done before it.
  unfoldable pub run : Task V → List (Act V) → List (Act V) × Answer
  run (done answer) acts = (acts, answer)
  run (asks l k) acts = let more = acts ++ listing l ∷ [] in run (k (lines more)) more
  run (calls d m args k) acts = let more = acts ++ called d m args ∷ [] in run (k (reply more)) more
  run (sleeps n k) acts = run k (acts ++ slept n ∷ [])

  abbrev power_method : Text → Act V
  power_method m = called (codes "power") m []

  -- The acts of a power action that goes through.
  abbrev pub power_acts : Text → List (Act V)
  power_acts wanted =
      if text_eq wanted (codes "cycle")
      then power_method (codes "off")
        ∷ slept (2 * ticks_per_second)
        ∷ power_method (codes "on")
        ∷ []
      else power_method wanted ∷ []

  abbrev wanted_of : Text → Text
  wanted_of action = lower (strip action)

  -- Each call among the acts to come returned, after all that was done before it.
  abbrev pub Returned : List (Act V) → List (Act V) → Type 0
  Returned before [] = Unit {0}
  Returned before (listing l ∷ more) = Returned (before ++ listing l ∷ []) more
  Returned before (called d m args ∷ more) =
      ((v : Text) × (reply (before ++ called d m args ∷ []) ≡ ok v))
      × Returned (before ++ called d m args ∷ []) more
  Returned before (slept n ∷ more) = Returned (before ++ slept n ∷ []) more

  -- The acts are those of the action, all of them if every call returned, or else those up to the call
  -- that raised, whose message is then the answer.
  abbrev pub Performed : Text → List (Act V) × Answer → Type 0
  Performed wanted r =
      ((r.0 ≡ power_acts wanted)
        × (r.1 ≡ said (codes "power " ++ (wanted ++ codes " done")))
        × Returned [] r.0)
      ⊎ ((e : Text) × (rest : List (Act V)) × (reply r.0 ≡ error e)
          × (power_acts wanted ≡ r.0 ++ rest)
          × (r.1 ≡ said (codes "the power driver refused: " ++ e)))

  abbrev finished : Text → Task V
  finished wanted = done (said (codes "power " ++ (wanted ++ codes " done")))

  abbrev refused : Text → Answer
  refused e = said (codes "the power driver refused: " ++ e)

  abbrev off_first : List (Act V)
  off_first = power_method (codes "off") ∷ []

  abbrev paused : List (Act V)
  paused = power_method (codes "off") ∷ slept (2 * ticks_per_second) ∷ []

  abbrev steps_by : Bool → Text → Task V
  steps_by b w =
      if b
      then power_call (codes "off")
          (sleeps (2 * ticks_per_second) (power_call (codes "on") (finished w)))
      else power_call w (finished w)
