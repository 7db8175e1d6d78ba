-- ===== src/Exporter/Drain.antt =====
-- `_drain` of exporter.py (lines 298 to 322): everything that the console has said, consumed.
use yession.Prelude.{
  ℕ, zero, suc, ◌<◌, ◌≡◌, Option, none, some, List, [], ◌∷◌, ◌++◌, arith, Text, length,
  append_assoc, append-nil, subst, refl,
}
use yession.Provider.{Result, ok, error}

-- Waits, in milliseconds: QUIET_SECONDS.
abbrev pub quiet_ms : ℕ
quiet_ms = 50

-- `"".join(chunks)`
unfoldable pub joined : List Text → Text
joined [] = []
joined (t ∷ ts) = t ++ joined ts

-- `console.after`, as pexpect leaves it.
pub data After : Type 0 where
  nothing : After
  bytes : List ℕ → After
  str : Text → After

-- `_text`; `decode` is `bytes.decode(errors="replace")`.
unfoldable pub text_of : (List ℕ → Text) → After → Text
text_of decode nothing = []
text_of decode (bytes b) = decode b
text_of decode (str t) = t

-- What comes of `console.expect([(?s).+, TIMEOUT], timeout=wait)` of pexpect: a match, with what is then in
-- `after`; the time-out; or an exception, as at the end of the console.
pub data Heard : Type 0 where
  matched : After → Heard
  timed_out : Heard
  raises : Text → Heard

-- `expect wait c` is such a call, and the console after it.
module _ (decode : List ℕ → Text) {C : Type 0} (expect : ℕ → C → Heard × C) where
  -- What follows one `expect`, given the rest of the loop.
  abbrev pub after_expect :
      List Text → (List Text → C → Option (Result Text × C)) → Heard × C → Option (Result Text × C)
  after_expect chunks rest (timed_out, c) = some (ok (joined chunks), c)
  after_expect chunks rest (matched a, c) = rest (chunks ++ text_of decode a ∷ []) c
  after_expect chunks rest (raises e, c) = some (error e, c)

  -- The fuel is the number of `expect` calls; `none` says that it ran out.
  unfoldable pub drain_loop : ℕ → ℕ → List Text → C → Option (Result Text × C)
  unfolding joined text_of
  drain_loop zero wait chunks c = none
  drain_loop (suc fuel) wait chunks c =
      after_expect chunks (drain_loop fuel quiet_ms) (expect wait c)

  -- What the console says in answer to the first wait, and then to quiet ones, until the last of these
  -- calls; that call, and the console then.
  pub data Says (last : Heard) : ℕ → C → List Text → C → Type 0 where
    ends : {wait : ℕ} {c d : C} → expect wait c ≡ (last, d) → Says last wait c [] d
    speech :
        {wait : ℕ} {c d e : C} {a : After} {t : Text} {ts : List Text}
        → expect wait c ≡ (matched a, d)
        → text_of decode a ≡ t
        → Says last quiet_ms d ts e
        → Says last wait c (t ∷ ts) e

  -- What `_drain` makes of the chunks, by the last call of `expect`.
  abbrev pub outcome : Heard → List Text → Option (Result Text)
  outcome timed_out ts = some (ok (joined ts))
  outcome (raises e) ts = some (error e)
  outcome (matched a) ts = none

  abbrev Gives : Option (Result Text) → C → Option (Result Text × C) → Type 0
  Gives none d got = Unit {0}
  Gives (some r) d got = got ≡ some (r, d)

  drain_loop-Says :
      (fuel : ℕ) {last : Heard} {wait : ℕ} {c d : C} {ts : List Text} (chunks : List Text)
      → Says last wait c ts d
      → length ts < fuel
      → Gives (outcome last (chunks ++ ts)) d (drain_loop fuel wait chunks c)
  unfolding drain_loop
  drain_loop-Says zero chunks s h = absurd (omega arith)
  drain_loop-Says (suc fuel) {last = timed_out} chunks (ends e) h = rw (e, append-nil chunks) refl
  drain_loop-Says (suc fuel) {last = raises m} chunks (ends e) h = rw e refl
  drain_loop-Says (suc fuel) {last = matched a} chunks (ends e) h = tt
  drain_loop-Says (suc fuel) {last = last} {d = d} chunks
        (speech {d = x} {t = t} {ts = ts} e same s) h =
      rw (e, same)
        (subst (λ l. Gives (outcome last l) d (drain_loop fuel quiet_ms (chunks ++ t ∷ []) x))
          (append_assoc chunks (t ∷ []) ts)
          (drain_loop-Says fuel (chunks ++ t ∷ []) s (omega arith)))

  -- A console that says finitely many chunks before it is silent: the read ends, and returns those
  -- chunks, in order and each once, and leaves the console as it was at the silence. So the next
  -- read begins behind them.
  pub drain-Says :
      {wait : ℕ} {c d : C} {ts : List Text}
      → Says timed_out wait c ts d
      → drain_loop (suc (length ts)) wait [] c ≡ some (ok (joined ts), d)
  drain-Says {ts = ts} s = drain_loop-Says (suc (length ts)) [] s (omega arith)

  -- A console that raises after some chunks: the read ends with the exception, and the chunks are in no
  -- answer.
  pub drain-raises :
      {wait : ℕ} {c d : C} {ts : List Text} (e : Text)
      → Says (raises e) wait c ts d
      → drain_loop (suc (length ts)) wait [] c ≡ some (error e, d)
  drain-raises {ts = ts} e s = drain_loop-Says (suc (length ts)) [] s (omega arith)
