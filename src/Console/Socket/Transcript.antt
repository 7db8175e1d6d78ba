-- ===== src/Console/Socket/Transcript.antt =====
-- What one conversation sends and writes (stream.py, lines 110 to 185), by the events up to the one that
-- ends the stream.
use yession.Prelude.{
  ℕ, ◌+◌, ◌≡◌, refl, ap, sym, ◌∙◌, subst, Bool, true, false, Option, none, some, List, [], ◌∷◌,
  ◌++◌, arith, Text, if◌then◌else◌, append_assoc, append-nil, Bool-cases, inl, inr,
}
use yession.Console.Socket.{
  Json, connect, disconnect, receive, unknown, Frame, accept, data_frame, exited, failed, close,
  Event, arrives, says, breaks, read_raises, write_raises, Link, Session, is_kill, out, turn,
  converse, farewell, read_raised, serve_admitted, admitted,
}
use yession.Console.Socket.Course.{raises, ends, lively_from, lively, raises_from, heard, typed}

module _ (up : ℕ → Bool) (encode : Text → List ℕ) (decode : List ℕ → Text)
    (loads : Text → Option Json) where
  -- Frames sent one after the other.
  abbrev pub outs : List Frame → Link → Link
  outs [] l = l
  outs (f ∷ fs) l = outs fs (out up encode decode loads f l)

  outs-append : (fs gs : List Frame) (l : Link) → outs (fs ++ gs) l ≡ outs gs (outs fs l)
  outs-append [] gs l = refl
  outs-append (f ∷ fs) gs l = outs-append fs gs (out up encode decode loads f l)

  converse-stopped :
      (es : List Event) (s : Session) → s.pumping ≡ false → converse up encode decode loads es s ≡ s
  unfolding converse
  converse-stopped [] s p = refl
  converse-stopped (e ∷ es) s p = ground arith

  converse-cons :
      (e : Event) (es : List Event) (s : Session)
      → s.pumping ≡ true
      → converse up encode decode loads (e ∷ es) s
        ≡ converse up encode decode loads es (turn up encode decode loads e s)
  unfolding converse
  converse-cons e es s p = ground arith

  abbrev Agrees : List Event → Session → Type 0
  Agrees es s =
      ((converse up encode decode loads es s).link
        ≡ outs (if s.draining then heard encode (lively_from loads s.draining es) else []) s.link)
      × ((converse up encode decode loads es s).written
          ≡ s.written ++ typed decode (lively_from loads s.draining es))
      × ((converse up encode decode loads es s).raised ≡ raises_from loads s.draining es)

  stop-Agrees :
      (e : Event) (es : List Event) (s : Session)
      → s.pumping ≡ true
      → s.raised ≡ false
      → ends loads s.draining e ≡ true
      → turn up encode decode loads e s ≡ record s { pumping = false; raised = raises s.draining e }
      → Agrees (e ∷ es) s
  stop-Agrees e es s p q stop t =
      rw
        (
          converse-cons e es s p,
          t,
          stop,
          converse-stopped es (record s { pumping = false; raised = raises s.draining e }) refl,
        )
        (ground arith, sym (append-nil s.written), refl)

  -- A conversation sends what is heard, and writes what is typed, before the event that ends it, and
  -- raises if that event does.
  converse-Agrees :
      (es : List Event) (s : Session) → s.pumping ≡ true → s.raised ≡ false → Agrees es s
  unfolding turn
  converse-Agrees [] s p q = unfold converse in (ground arith, sym (append-nil s.written), q)
  converse-Agrees (arrives disconnect taken ∷ es) s p q =
      stop-Agrees (arrives disconnect taken) es s p q refl (rw q refl)
  converse-Agrees (arrives connect taken ∷ es) s p q =
      rw (converse-cons (arrives connect taken) es s p) (converse-Agrees es s p q)
  converse-Agrees (arrives unknown taken ∷ es) s p q =
      rw (converse-cons (arrives unknown taken) es s p) (converse-Agrees es s p q)
  converse-Agrees (arrives (receive (some d) t) false ∷ es) s p q =
      stop-Agrees (arrives (receive (some d) t) false) es s p q refl (rw q refl)
  converse-Agrees (arrives (receive (some d) t) true ∷ es) s p q =
      let ih = converse-Agrees es (record s { written = s.written ++ decode d ∷ [] }) p q in
      rw (converse-cons (arrives (receive (some d) t) true) es s p) (
        ih.0,
        ih.1
            ∙ append_assoc s.written (decode d ∷ [])
                (typed decode (lively_from loads s.draining es)),
        ih.2,
      )
  converse-Agrees (arrives (receive none none) taken ∷ es) s p q =
      rw (converse-cons (arrives (receive none none) taken) es s p) (converse-Agrees es s p q)
  converse-Agrees (arrives (receive none (some [])) taken ∷ es) s p q =
      rw (converse-cons (arrives (receive none (some [])) taken) es s p) (converse-Agrees es s p q)
  converse-Agrees (arrives (receive none (some (c ∷ t))) taken ∷ es) s p q =
      elim (Bool-cases (is_kill (loads (c ∷ t)))) [
        | inl kill ↦
            stop-Agrees (arrives (receive none (some (c ∷ t))) taken) es s p q kill
              (rw (kill, q) refl)
        | inr go ↦
            rw (converse-cons (arrives (receive none (some (c ∷ t))) taken) es s p, go)
              (converse-Agrees es s p q)
      ]
  converse-Agrees (says [] ∷ es) s p q =
      rw (converse-cons (says []) es s p) (converse-Agrees es s p q)
  converse-Agrees (says (c ∷ t) ∷ es) s p q =
      let told = record s {
        link = out up encode decode loads (data_frame (encode (c ∷ t))) s.link;
      } in
      let heard_it = converse-Agrees es told p q in
      let deaf = converse-Agrees es s p q in
      rw (converse-cons (says (c ∷ t)) es s p) (ground (arith, heard_it, deaf))
  converse-Agrees (breaks reason ∷ es) s p q =
      let told = record s {
        link = out up encode decode loads (failed reason) s.link;
        draining = false;
      } in
      let heard_it = converse-Agrees es told p q in
      let deaf = converse-Agrees es s p q in
      rw (converse-cons (breaks reason) es s p) (ground (arith, heard_it, deaf))
  converse-Agrees (read_raises ∷ es) s p q = elim (Bool-cases s.draining) [
    | inl reading ↦
        stop-Agrees read_raises es s p q reading (unfold read_raised in ground (arith, reading))
    | inr deaf ↦
        let same : turn up encode decode loads read_raises s ≡ s =
          unfold read_raised in ground (arith, deaf) in
        let ih = converse-Agrees es s p q in
        ground (arith, converse-cons read_raises es s p, same, deaf, ih)
  ]
  converse-Agrees (write_raises d ∷ es) s p q = stop-Agrees (write_raises d) es s p q refl refl

  -- The last frames of a conversation that ends without an exception.
  abbrev pub goodbye : List Event → List Frame
  goodbye es = if raises_from loads true es then [] else exited 0 ∷ close 1000 ∷ []

  -- The whole of what a conversation is to send.
  abbrev pub transcript : List Event → List Frame
  transcript es = accept ∷ (heard encode (lively loads es) ++ goodbye es)

  farewell-link :
      (s : Session) (r : Bool)
      → s.raised ≡ r
      → (farewell up encode decode loads s).link
        ≡ outs (if r then [] else exited 0 ∷ close 1000 ∷ []) s.link
  unfolding farewell
  farewell-link s true e = rw e refl
  farewell-link s false e = rw e refl

  farewell-written : (s : Session) → (farewell up encode decode loads s).written ≡ s.written
  unfolding farewell
  farewell-written s = ground arith

  serve-link :
      (es : List Event)
      → (serve_admitted up encode decode loads es).link
        ≡ outs (heard encode (lively loads es) ++ goodbye es) admitted.link
  unfolding serve_admitted
  serve-link es =
      let agrees = converse-Agrees es admitted refl refl in
      farewell-link (converse up encode decode loads es admitted) (raises_from loads true es)
        agrees.2
      ∙ ap (outs (goodbye es)) agrees.0
      ∙ sym (outs-append (heard encode (lively loads es)) (goodbye es) admitted.link)

  -- What reaches the console is what was typed before the stream ended, decoded, all of it and in
  -- order: whether or not the client could still be written to.
  pub serve-written :
      (es : List Event)
      → (serve_admitted up encode decode loads es).written ≡ typed decode (lively loads es)
  unfolding serve_admitted
  serve-written es =
      farewell-written (converse up encode decode loads es admitted)
      ∙ (converse-Agrees es admitted refl refl).1

  -- Sending `fs` on `l` leaves of `whole` an unsent end, which is empty unless a send failed.
  abbrev Sends : List Frame → List Frame → Link → Type 0
  Sends whole fs l =
      (unsent : List Frame) × (whole ≡ (outs fs l).sent ++ unsent)
      × ((outs fs l).gone ≡ false → unsent ≡ [])

  out-gone : (f : Frame) (l : Link) → l.gone ≡ true → out up encode decode loads f l ≡ l
  unfolding out
  out-gone f l g = ground arith

  out-taken :
      (f : Frame) (l : Link)
      → l.gone ≡ false
      → up l.attempts ≡ true
      → out up encode decode loads f l
        ≡ record l { attempts = l.attempts + 1; sent = l.sent ++ f ∷ [] }
  unfolding out
  out-taken f l g u = ground arith

  out-lost :
      (f : Frame) (l : Link)
      → l.gone ≡ false
      → up l.attempts ≡ false
      → out up encode decode loads f l ≡ record l { attempts = l.attempts + 1; gone = true }
  unfolding out
  out-lost f l g u = ground arith

  outs-gone : (fs : List Frame) (l : Link) → l.gone ≡ true → outs fs l ≡ l
  outs-gone [] l g = refl
  outs-gone (f ∷ fs) l g = rw (out-gone f l g) (outs-gone fs l g)

  gone-Sends : (fs unsent : List Frame) (l : Link) → l.gone ≡ true → Sends (l.sent ++ unsent) fs l
  gone-Sends fs unsent l g =
      (unsent, rw (outs-gone fs l g), λ alive. cc (outs-gone fs l g, alive, g))

  outs-Sends : (fs : List Frame) (l : Link) → Sends (l.sent ++ fs) fs l
  outs-Sends [] l = ([], refl, λ g. refl)
  outs-Sends (f ∷ fs) l = elim (Bool-cases l.gone) [
    | inl dead ↦ gone-Sends (f ∷ fs) (f ∷ fs) l dead
    | inr alive ↦ elim (Bool-cases (up l.attempts)) [
      | inl taken ↦
          let next : Link = record l { attempts = l.attempts + 1; sent = l.sent ++ f ∷ [] } in
          subst (Sends (l.sent ++ f ∷ fs) fs) (sym (out-taken f l alive taken)) (
            subst (λ whole. Sends whole fs next) (append_assoc l.sent (f ∷ []) fs)
              (outs-Sends fs next))
      | inr lost ↦
          let next : Link = record l { attempts = l.attempts + 1; gone = true } in
          subst (Sends (l.sent ++ f ∷ fs) fs) (sym (out-lost f l alive lost))
            (gone-Sends fs (f ∷ fs) next refl)
    ]
  ]

  -- Whatever the transport does, what a client is sent is a beginning of the transcript, and the whole of
  -- it unless a send to it failed. The transcript ends with the frame "exited" 0 and the close if no read
  -- and no write of the console raises what is no `ExporterError`; if one does, it ends before them, with
  -- what was heard.
  pub serve-sent :
      (es : List Event)
      → (unsent : List Frame) × (transcript es
          ≡ (serve_admitted up encode decode loads es).link.sent ++ unsent)
        × ((serve_admitted up encode decode loads es).link.gone ≡ false → unsent ≡ [])
  serve-sent es =
      let fs = heard encode (lively loads es) ++ goodbye es in
      subst
        (λ l.
          (unsent : List Frame) × (transcript es ≡ l.sent ++ unsent)
          × (l.gone ≡ false → unsent ≡ []))
        (sym (serve-link es)) (outs-Sends fs admitted.link)
