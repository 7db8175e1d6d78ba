-- ===== src/Exporter/Commands/Callable.antt =====
-- What `call` lets through to a driver (exporter.py, lines 190 to 206, and introspect.py, lines 67 to 99).
use yession.Prelude.{
  ℕ, ◌≡◌, ◌≢◌, refl, Option, none, some, List, Text, ap, sym, subst, ◌⊎◌, inl, inr,
}
use yession.Provider.{Result, ok, error}
use yession.Introspect
use yession.Introspect.{
  Attribute, Class, function, coroutine_function, async_generator_function, property, other,
  static_method, class_method, Resolved, found, refusal, judge,
}
use yession.Exporter.Tree
use yession.Exporter.Tree.{Client}
use yession.Exporter.Worker.{Seen}
use yession.Exporter.Commands.{Sdk, ◌>>=◌, unrefused, call_target, call_run}

pub Result-split {ℓ} :
    {A : Type ℓ} (r : Result A) → ((a : A) × (r ≡ ok a)) ⊎ ((e : Text) × (r ≡ error e))
Result-split (ok a) = inl (a, refl)
Result-split (error e) = inr (e, refl)

module _ {D V : Type 0} (sdk : Sdk D V) where
  judge-function :
      (name driver words : Text) (o : Option Attribute) (a : Attribute)
      → judge name driver words o ≡ found a
      → a ≡ function
  unfolding judge
  judge-function name driver words none a e = cc
  judge-function name driver words (some function) a e = cc
  judge-function name driver words (some coroutine_function) a e = cc
  judge-function name driver words (some async_generator_function) a e = cc
  judge-function name driver words (some property) a e = cc
  judge-function name driver words (some other) a e = cc
  judge-function name driver words (some (static_method b)) a e = cc
  judge-function name driver words (some (class_method b)) a e = cc

  -- What `call` lets through.
  abbrev pub Callable : Text → Text → Client → Type 0
  Callable driver method target =
      (Tree.resolve sdk.root driver ≡ ok target)
      × (Introspect.resolve sdk.base_names (sdk.members target) method driver ≡ found function)

  unrefused-function :
      (r : Resolved) (name driver words : Text) (o : Option Attribute)
      → r ≡ judge name driver words o
      → unrefused r ≡ ok tt
      → r ≡ found function
  unrefused-function (found a) name driver words o e u =
      ap (λ b. found b) (judge-function name driver words o a (sym e))
  unrefused-function (refusal t) name driver words o e u = cc

  resolve-function :
      (base : List Text) (cls : Class) (name driver : Text)
      → unrefused (Introspect.resolve base cls name driver) ≡ ok tt
      → Introspect.resolve base cls name driver ≡ found function
  unfolding Introspect.resolve
  resolve-function base cls name driver u = unrefused-function _ name driver _ _ refl u

  target_of :
      (u : Result (Unit {0})) (t target : Client)
      → (u >>= λ go. ok t) ≡ ok target
      → (u ≡ ok tt) × (t ≡ target)
  target_of (ok x) t target e = (refl, cc)
  target_of (error m) t target e = cc

  pub call_target-Callable :
      (driver method : Text) (target : Client)
      → call_target sdk driver method ≡ ok target
      → Callable driver method target
  unfolding call_target
  call_target-Callable driver method target e = elim (Result-split (Tree.resolve sdk.root driver)) [
    | inr (m, lost) ↦ cc (rw lost at e)
    | inl (t, here) ↦
        let (good, same) = target_of _ t target (rw here at e) in
        subst (Callable driver method) same (here, resolve-function _ _ method driver good)
  ]

  -- `call` reaches the hardware through a synchronous function of a driver alone: if it changes
  -- anything on the worker's thread, then the path leads to a driver, and the method is found on its
  -- class as a synchronous function.
  pub call_run-Callable :
      (deadline : ℕ) (driver method : Text) (args : List V) (s : Seen D)
      → (call_run sdk deadline driver method args s).1 ≢ s
      → (target : Client) × Callable driver method target
  unfolding call_run
  call_run-Callable deadline driver method args s changed =
      elim (Result-split (call_target sdk driver method)) [
        | inl (t, e) ↦ (t, call_target-Callable driver method t e)
        | inr (m, e) ↦ absurd (changed (rw e refl))
      ]
