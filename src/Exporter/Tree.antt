-- ===== src/Exporter/Tree.antt =====
-- `_resolve` of exporter.py (lines 278 to 287): a dotted path into the tree of drivers.
use yession.Prelude.{
  ◌≡◌, ◌↔◌, refl, false, Option, none, some, List, [], ◌∷◌, ◌++◌, arith, Text, codes, text_eq,
  if◌then◌else◌, ◌==◌, All, ap, inl, inr, Option-cases, sym, ◌∙◌, subst, append-nil, append_assoc,
}
use yession.Words.{join}
use yession.Provider.{Result, ok, error}

-- A client object: its own name, for the caller's use, and the dict `children`, which is empty for an
-- object without that attribute.
mutual
  pub data Client : Type 0 where
    client : Text → Children → Client

  pub data Children : Type 0 where
    end : Children
    child : Text → Client → Children → Children

abbrev pub children_of : Client → Children
children_of (client name cs) = cs

unfoldable pub find : Text → Children → Option Client
find part end = none
find part (child k c cs) = if text_eq k part then some c else find part cs

abbrev pub names : Children → List Text
names end = []
names (child k c cs) = k ∷ names cs

-- `path.split(".")`: the code point of the dot is 46.
unfoldable pub split_dots : Text → Text → List Text
split_dots part [] = part ∷ []
split_dots part (c ∷ s) =
    let rest = split_dots [] s in
    let longer = split_dots (part ++ c ∷ []) s in if c == 46 then part ∷ rest else longer

-- `", ".join(children) or "nothing"`
unfoldable pub known : Children → Text
known cs = elim (join (codes ", ") (names cs)) [ [] ↦ codes "nothing" | c ∷ s ↦ c ∷ s ]

unfoldable pub no_driver : Text → Text → Children → Text
unfolding known
no_driver path part cs =
    codes "no driver '"
    ++ (path ++ (codes "' — at '" ++ (part ++ (codes "' this exporter has " ++ known cs))))

-- One turn of the loop, given what `children[part]` is.
abbrev or_refuse : Text → Text → Children → Option Client → Result Client
or_refuse path part cs none = error (no_driver path part cs)
or_refuse path part cs (some c) = ok c

infixl 5 ◌>>=◌
abbrev ◌>>=◌ : Result Client → (Client → Result Client) → Result Client
ok c >>= k = k c
error e >>= k = error e

-- The loop over the parts, from `target` on.
unfoldable pub walk : Text → List Text → Client → Result Client
walk path [] target = ok target
walk path (part ∷ parts) target = do
  next ← or_refuse path part (children_of target) (find part (children_of target))
  walk path parts next

unfoldable pub resolve : Client → Text → Result Client
unfolding walk split_dots
resolve root path = walk path (split_dots [] path) root

-- The driver at the end of the parts, each looked up among the children of the one before it.
pub data Leads : Client → List Text → Client → Type 0 where
  here : (c : Client) → Leads c [] c
  down :
      {c d e : Client} {part : Text} {parts : List Text}
      → find part (children_of c) ≡ some d
      → Leads d parts e
      → Leads c (part ∷ parts) e

ok-injective : {c e : Client} → ok c ≡ ok e → c ≡ e
ok-injective h = cc

walk-Leads :
    (path : Text) (parts : List Text) (c e : Client) → walk path parts c ≡ ok e → Leads c parts e
unfolding walk
walk-Leads path [] c e h = subst (Leads c []) (ok-injective h) (here c)
walk-Leads path (part ∷ parts) c e h = elim (Option-cases (find part (children_of c))) [
  | inl missing ↦ absurd (ground (arith, missing, h))
  | inr (d, found) ↦ down found (walk-Leads path parts d e (rw found at h))
]

Leads-walk :
    (path : Text) {parts : List Text} {c e : Client} → Leads c parts e → walk path parts c ≡ ok e
unfolding walk
Leads-walk path (here c) = refl
Leads-walk path (down f l) = rw f (Leads-walk path l)

-- The name has no dot in it.
abbrev pub IsPart : Text → Type 0
IsPart = All (λ c. (c == 46) ≡ false)

split_dots-last : (acc p : Text) → IsPart p → split_dots acc p ≡ (acc ++ p) ∷ []
unfolding split_dots
split_dots-last acc [] h = ap (λ t. t ∷ []) (sym (append-nil acc))
split_dots-last acc (c ∷ p) h =
    rw h.0 (split_dots-last (acc ++ c ∷ []) p h.1 ∙ ap (λ t. t ∷ []) (append_assoc acc (c ∷ []) p))

split_dots-first :
    (acc p s : Text) → IsPart p → split_dots acc (p ++ 46 ∷ s) ≡ (acc ++ p) ∷ split_dots [] s
unfolding split_dots
split_dots-first acc [] s h = ap (λ t. t ∷ split_dots [] s) (sym (append-nil acc))
split_dots-first acc (c ∷ p) s h = rw h.0 (
    split_dots-first (acc ++ c ∷ []) p s h.1
    ∙ ap (λ t. t ∷ split_dots [] s) (append_assoc acc (c ∷ []) p))

-- Names without dots, joined by dots, are split into those names again.
split_dots-join :
    (p : Text) (ps : List Text)
    → All IsPart (p ∷ ps)
    → split_dots [] (join (46 ∷ []) (p ∷ ps)) ≡ p ∷ ps
unfolding join
split_dots-join p [] h = split_dots-last [] p h.0
split_dots-join p (q ∷ ps) h =
    split_dots-first [] p (join (46 ∷ []) (q ∷ ps)) h.0 ∙ ap (λ t. p ∷ t) (split_dots-join q ps h.1)

-- A path of names joined by dots resolves to a driver exactly if the names lead to it through the
-- tree, each among the children of the one before; every other path is refused.
pub resolve_iff :
    (root e : Client) (p : Text) (ps : List Text)
    → All IsPart (p ∷ ps)
    → (resolve root (join (46 ∷ []) (p ∷ ps)) ≡ ok e) ↔ Leads root (p ∷ ps) e
unfolding resolve
resolve_iff root e p ps h = rw (split_dots-join p ps h) (
  walk-Leads (join (46 ∷ []) (p ∷ ps)) (p ∷ ps) root e,
  λ l. Leads-walk (join (46 ∷ []) (p ∷ ps)) l,
)
