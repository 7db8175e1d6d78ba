-- ===== src/Console/Token.antt =====
-- The token: what it opens, how often, and whose it is (stream.py, lines 55 to 84 and 105 to 136).
use yession.Prelude.{
  ◌≡◌, ◌↔◌, refl, true, false, none, some, List, [], ◌∷◌, arith, Text, text_eq_iff, ◌++◌, codes,
  Option-cases, Bool-cases, ◌⊎◌, inl, inr,
}
use yession.Console.{Console, Offer, offer, release, attach, detach}

attach_needs :
    (t : Text) (c d : Console) → attach t c ≡ some d → (c.token ≡ some t) × (c.attached ≡ false)
unfolding attach
attach_needs t c d e = elim (Option-cases c.token) [
  | inl none_left ↦ absurd (ground arith)
  | inr (u, minted) ↦ ground (arith, text_eq_iff t u)
]

attach_admits :
    (t : Text) (c : Console)
    → c.token ≡ some t
    → c.attached ≡ false
    → (d : Console) × (attach t c ≡ some d)
unfolding attach
attach_admits t c e free =
    (record c { token = none; attached = true }, ground (arith, text_eq_iff t t))

-- `serve` admits a client exactly when no stream is attached and it shows the outstanding token.
pub attach_iff :
    (t : Text) (c : Console)
    → ((d : Console) × (attach t c ≡ some d)) ↔ ((c.token ≡ some t) × (c.attached ≡ false))
attach_iff t c = (λ h. attach_needs t c h.0 h.1, λ h. attach_admits t c h.0 h.1)

-- What is done to a console between requests.
pub data Act : Type 0 where
  attaches : Text → Act
  detaches : Act
  releases : Act

unfoldable pub act : Act → Console → Console
act (attaches t) c = elim (attach t c) [ none ↦ c | some d ↦ d ]
act detaches c = detach c
act releases c = release c

unfoldable pub acts : List Act → Console → Console
acts [] c = c
acts (a ∷ rest) c = acts rest (act a c)

attach-spent : (u : Text) (c : Console) → c.token ≡ none → attach u c ≡ none
unfolding attach
attach-spent u c e = ground arith

attach-spends : (t : Text) (c d : Console) → attach t c ≡ some d → d.token ≡ none
unfolding attach
attach-spends t c d e = ground arith

acts-spent : (rest : List Act) (c : Console) → c.token ≡ none → (acts rest c).token ≡ none
unfolding acts act release detach
acts-spent [] c e = e
acts-spent (attaches t ∷ rest) c e = acts-spent rest _ (ground (arith, attach-spent t c e))
acts-spent (detaches ∷ rest) c e = acts-spent rest _ e
acts-spent (releases ∷ rest) c e = acts-spent rest _ refl

-- A token opens the stream once: after it has, no attach with it is admitted any more, whatever
-- attaches, ends of streams and releases follow, until another one is minted.
pub attach_once :
    (t u : Text) (c d : Console) (rest : List Act)
    → attach t c ≡ some d
    → attach u (acts rest d) ≡ none
attach_once t u c d rest e =
    attach-spent u (acts rest d) (acts-spent rest d (attach-spends t c d e))

-- While no stream is attached, an offer carries a fresh token, and that token then opens the stream.
-- So asking again works, whatever became of the tokens before.
pub offer-attach :
    (minted origin h : Text) (c : Console)
    → c.attached ≡ false
    → (o : Offer) × (d : Console) × ((offer minted origin h c).0 ≡ some o)
      × (o.url ≡ origin ++ (codes "/attach/" ++ minted))
      × (attach minted (offer minted origin h c).1 ≡ some d)
      × (d.attached ≡ true)
unfolding offer attach
offer-attach minted origin h c free = (
  record {
    url = origin ++ (codes "/attach/" ++ minted);
    label = c.console_name ++ codes " console";
    renewable = true;
  },
  record c { token = none; holder = some h; attached = true },
  ground arith,
  refl,
  ground (arith, text_eq_iff minted minted),
  refl,
)

-- An offer is refused, and changes nothing, while a stream is attached; otherwise its token and its
-- holder are the console's.
pub offer-cases :
    (minted origin h : Text) (c : Console)
    → ((c.attached ≡ true) × (offer minted origin h c ≡ (none, c)))
      ⊎ ((o : Offer) × (c.attached ≡ false)
          × (offer minted origin h c ≡ (some o, record c { token = some minted; holder = some h })))
unfolding offer
offer-cases minted origin h c = elim (Bool-cases c.attached) [
  | inl busy ↦ inl (busy, ground arith)
  | inr free ↦ inr (
    record {
      url = origin ++ (codes "/attach/" ++ minted);
      label = c.console_name ++ codes " console";
      renewable = true;
    },
    free,
    ground arith,
  )
]

-- An admitted attach spends the token and attaches, and does nothing else.
pub attach-admitted :
    (t : Text) (c d : Console)
    → attach t c ≡ some d
    → d ≡ record c { token = none; attached = true }
unfolding attach
attach-admitted t c d e = ground arith
