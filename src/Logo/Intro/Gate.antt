-- ===== src/Logo/Intro/Gate.antt =====
-- When the panels may appear (gen.py, lines 140 to 148).
use yession.Prelude.{
  ℕ, zero, suc, ◌≡◌, refl, Bool, true, false, ◌&&◌, Option, none, some, List, [], ◌∷◌, map, drop,
  All, subst, ap, ◌++◌, inl, inr, Bool-cases,
}
use yession.Logo.Number.{Float}
use yession.Logo.Intro.{
  Params, Rig, all_true, index_of, first_from, grid, inside, gate, checked, gated, rigged, intro,
}

module _ (F : Float) where
  open F use {Num, le, eq}

  some-injective : (a b : Num) → some a ≡ some b → a ≡ b
  some-injective a b h = cc

  and-both : (a b : Bool) → (a && b) ≡ true → (a ≡ true) × (b ≡ true)
  and-both true b h = (refl, h)
  and-both false b h = cc

  first_from-fits :
      (gs : List Num) (ok : List Bool) (ts : List Num) (os : List Bool) (g : Num)
      → first_from F gs ok ts os ≡ some g
      → all_true F (drop (index_of F g gs) ok) ≡ true
  unfolding first_from
  first_from-fits gs ok [] os g e = cc
  first_from-fits gs ok (t ∷ ts) [] g e = cc
  first_from-fits gs ok (t ∷ ts) (o ∷ os) g e =
      elim (Bool-cases (o && all_true F (drop (index_of F t gs) ok))) [
        | inr miss ↦ first_from-fits gs ok ts os g (rw miss at e)
        | inl hit ↦
            let same = some-injective t g (rw hit at e) in
            subst (λ x. all_true F (drop (index_of F x gs) ok) ≡ true) same (and-both o _ hit).1
      ]

  all_true-drop :
      (test : Num → Bool) (n : ℕ) (ts : List Num)
      → all_true F (drop n (map test ts)) ≡ true
      → All (λ t. test t ≡ true) (drop n ts)
  all_true-drop test zero [] h = tt
  all_true-drop test zero (t ∷ ts) h =
      let (first, rest) = and-both (test t) _ h in (first, all_true-drop test zero ts rest)
  all_true-drop test (suc n) [] h = tt
  all_true-drop test (suc n) (t ∷ ts) h = all_true-drop test n ts h

  checked-late :
      (o : Option Num) (j i : Rig F)
      → checked F j o ≡ some i
      → (g : Num) × (o ≡ some g) × (le g j.params.panels.0 ≡ true) × (j ≡ i)
  checked-late none j i e = cc
  checked-late (some g) j i e = elim (Bool-cases (le g j.params.panels.0)) [
    | inl late ↦ (g, refl, late, cc (rw late at e))
    | inr early ↦ cc (rw early at e)
  ]

  gated-late :
      (o : Option (Rig F)) (i : Rig F)
      → gated F o ≡ some i
      → (g : Num) × (gate F i ≡ some g) × (le g i.params.panels.0 ≡ true)
  gated-late none i e = cc
  gated-late (some j) i e =
      let (g, found, late, same) = checked-late (gate F j) j i e in
      subst (λ x. (g : Num) × (gate F x ≡ some g) × (le g x.params.panels.0 ≡ true)) same
        (g, found, late)

  first_from-among :
      (gs : List Num) (ok : List Bool) (ts : List Num) (os : List Bool) (g : Num)
      → first_from F gs ok ts os ≡ some g
      → (before after : List Num) × (ts ≡ before ++ g ∷ after)
  unfolding first_from
  first_from-among gs ok [] os g e = cc
  first_from-among gs ok (t ∷ ts) [] g e = cc
  first_from-among gs ok (t ∷ ts) (o ∷ os) g e =
      elim (Bool-cases (o && all_true F (drop (index_of F t gs) ok))) [
        | inl hit ↦ ([], ts, ap (λ x. x ∷ ts) (some-injective t g (rw hit at e)))
        | inr miss ↦
            let (before, after, same) = first_from-among gs ok ts os g (rw miss at e) in
            (t ∷ before, after, ap (λ l. t ∷ l) same)
      ]

  All-end : (P : Num → Type 0) (before after : List Num) → All P (before ++ after) → All P after
  All-end P [] after v = v
  All-end P (b ∷ before) after v = All-end P before after v.1

  -- `index` finds an element at its place or before it.
  All-from_index :
      (P : Num → Type 0) (before after : List Num) (g : Num)
      → eq g g ≡ true
      → All P (drop (index_of F g (before ++ g ∷ after)) (before ++ g ∷ after))
      → All P (g ∷ after)
  All-from_index P [] after g same v = rw same at v
  All-from_index P (b ∷ before) after g same v = elim (Bool-cases (eq b g)) [
    | inl hit ↦ All-end P (b ∷ before) (g ∷ after) (rw hit at v)
    | inr miss ↦ All-from_index P before after g same (rw miss at v)
  ]

  -- Nothing arrives cropped: if an intro is made at all, its panels start no earlier than some instant
  -- of the grid such that at this instant and at every later one of the grid, the panels in their far
  -- position lie inside the frame with the margin. This asks that a number equals itself, as Python's
  -- `index` takes for granted, which compares by identity first.
  pub intro-fits :
      (p : Params F) (i : Rig F)
      → ((a : Num) → eq a a ≡ true)
      → intro F p ≡ some i
      → (g : Num) × (before after : List Num) × (grid F ≡ before ++ g ∷ after)
        × (le g i.params.panels.0 ≡ true)
        × All (λ t. inside F i t ≡ true) (g ∷ after)
  unfolding intro gate
  intro-fits p i same e =
      let (g, found, late) = gated-late (rigged F p) i e in
      let ok = map (inside F i) (grid F) in
      let (before, after, there) = first_from-among (grid F) ok (grid F) ok g found in
      (
        g,
        before,
        after,
        there,
        late,
        All-from_index (λ t. inside F i t ≡ true) before after g (same g)
            (subst (λ l. All (λ t. inside F i t ≡ true) (drop (index_of F g l) l)) there
              (all_true-drop (inside F i) (index_of F g (grid F)) (grid F)
                (first_from-fits (grid F) ok (grid F) ok g found))),
      )
