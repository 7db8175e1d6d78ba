-- ===== src/Claims/Streams.antt =====
-- The dict `_streaming` (provider.py, lines 78 and 88 to 111): the count of the open streams of each
-- session.
use yession.Prelude.{
  ℕ, ◌+◌, ◌-◌, ◌≤◌, ◌≡◌, refl, ap, sym, subst, List, [], ◌∷◌, arith, Text, All, text_eq,
  text_eq_iff, if◌then◌else◌, ltb, Bool-cases, inl, inr,
}
use yession.Dict.{Dict, get, All-put, All-pop}
use yession.Claims.{
  Claims, or_zero, open_stream, close_stream, open_streams, touch, current, acquire, take_claim,
  release,
}
use yession.Claims.Laws.{open_streams-open, open_streams-close}
use yession.Claims.History.{
  Call, expires, touches, reads_holder, acquires, releases, opens, closes, step, run,
}

-- Every entry counts at least one stream.
abbrev pub CountsStreams : Dict ℕ → Type 0
CountsStreams d = All (λ e. 1 ≤ e.1) d

open_stream-CountsStreams :
    (h : Text) (c : Claims) → CountsStreams c.streaming → CountsStreams (open_stream h c).streaming
unfolding open_stream
open_stream-CountsStreams h c v =
    All-put (λ n. 1 ≤ n) h (open_streams h c + 1) c.streaming (omega arith) v

close_stream-CountsStreams :
    (now : ℕ) (h : Text) (c : Claims)
    → CountsStreams c.streaming
    → CountsStreams (close_stream now h c).streaming
unfolding close_stream
close_stream-CountsStreams now h c v = elim (Bool-cases (ltb 1 (open_streams h c))) [
  | inl many ↦ rw many (All-put (λ n. 1 ≤ n) h (open_streams h c - 1) c.streaming (ground arith) v)
  | inr last ↦ rw last (All-pop (λ n. 1 ≤ n) h c.streaming v)
]

-- How many streams of `h` are open after the calls, given how many were before.
abbrev pub tally : Text → List Call → ℕ → ℕ
tally h [] n = n
tally h (opens j ∷ cs) n = tally h cs (if text_eq j h then n + 1 else n)
tally h (closes now j ∷ cs) n = tally h cs (if text_eq j h then n - 1 else n)
tally h (_ ∷ cs) n = tally h cs n

abbrev streaming_after : Call → Claims → Dict ℕ
streaming_after (opens h) c = (open_stream h c).streaming
streaming_after (closes now h) c = (close_stream now h c).streaming
streaming_after _ c = c.streaming

streaming_after-CountsStreams :
    (call : Call) (c : Claims) → CountsStreams c.streaming → CountsStreams (streaming_after call c)
streaming_after-CountsStreams (opens h) c v = open_stream-CountsStreams h c v
streaming_after-CountsStreams (closes now h) c v = close_stream-CountsStreams now h c v
streaming_after-CountsStreams _ c v = v

-- The count of one session's streams after one call.
abbrev pub count_after : Text → Call → ℕ → ℕ
count_after h (opens j) n = if text_eq j h then n + 1 else n
count_after h (closes now j) n = if text_eq j h then n - 1 else n
count_after h _ n = n

tally-cons :
    (h : Text) (c : Call) (cs : List Call) (n : ℕ)
    → tally h (c ∷ cs) n ≡ tally h cs (count_after h c n)
tally-cons h (opens j) cs n = refl
tally-cons h (closes now j) cs n = refl
tally-cons h _ cs n = refl

module _ {ℓ} {S : Type ℓ} (on_release : S → S) where
  step-streaming :
      (c : Call) (w : Claims × S) → (step on_release c w).0.streaming ≡ streaming_after c w.0
  unfolding step current touch acquire take_claim release
  step-streaming (opens h) w = refl
  step-streaming (closes now h) w = refl
  step-streaming _ w = ground arith

  pub step-open_streams :
      (h : Text) (c : Call) (w : Claims × S)
      → open_streams h (step on_release c w).0 ≡ count_after h c (open_streams h w.0)
  unfolding step
  step-open_streams h (opens j) w = ground (arith, open_streams-open j h w.0, text_eq_iff j h)
  step-open_streams h (closes now j) w =
      ground (arith, open_streams-close now j h w.0, text_eq_iff j h)
  step-open_streams h (expires now) w =
      unfold open_streams in ap (λ d. or_zero (get h d)) (step-streaming (expires now) w)
  step-open_streams h (touches now later j) w =
      unfold open_streams in ap (λ d. or_zero (get h d)) (step-streaming (touches now later j) w)
  step-open_streams h (reads_holder now) w =
      unfold open_streams in ap (λ d. or_zero (get h d)) (step-streaming (reads_holder now) w)
  step-open_streams h (acquires now later j) w =
      unfold open_streams in ap (λ d. or_zero (get h d)) (step-streaming (acquires now later j) w)
  step-open_streams h (releases now j) w =
      unfold open_streams in ap (λ d. or_zero (get h d)) (step-streaming (releases now j) w)

  -- After any history, the count of a session's open streams is the number that its own opens and
  -- closes make of it, whatever the other sessions did and whether or not claims ended meanwhile.
  pub open_streams-run :
      (h : Text) (cs : List Call) (w : Claims × S)
      → open_streams h (run on_release cs w).0 ≡ tally h cs (open_streams h w.0)
  unfolding run
  open_streams-run h [] w = refl
  open_streams-run h (c ∷ cs) w =
      rw (tally-cons h c cs (open_streams h w.0), ← step-open_streams h c w)
        (open_streams-run h cs (step on_release c w))

  -- Where every stored count is at least one, as in the empty dict at the start, it is so after any
  -- history: no entry is left behind for a session without an open stream.
  pub run-CountsStreams :
      (cs : List Call) (w : Claims × S)
      → CountsStreams w.0.streaming
      → CountsStreams (run on_release cs w).0.streaming
  unfolding run
  run-CountsStreams [] w v = v
  run-CountsStreams (c ∷ cs) w v =
      run-CountsStreams cs (step on_release c w)
        (subst CountsStreams (sym (step-streaming c w)) (streaming_after-CountsStreams c w.0 v))
