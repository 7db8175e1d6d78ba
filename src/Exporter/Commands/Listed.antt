-- ===== src/Exporter/Commands/Listed.antt =====
-- The tools and the exporter together: what `driver_call` and `status` list can be called (provider.py,
-- lines 217 to 232 and 292 to 308, exporter.py, lines 171 to 206, and introspect.py).
use yession.Prelude.{
  append_assoc, append-nil, sym, ap, ◌∙◌, ℕ, ◌≡◌, refl, true, some, List, [], ◌∷◌, ◌++◌, Text,
  codes, text_eq, text_eq_iff, text_eq_refl, Bool-cases, inl, inr, arith,
}
use yession.Words.{join}
use yession.Provider.{Result, ok, error, said, drivers, methods, driver_task, status_task, listed}
use yession.Provider.Power.{Act, listing, called, run}
use yession.Introspect.{offered, mem_text}
use yession.Introspect.Listing.{Distinct, names_of, offered_iff}
use yession.Exporter.Describe.{describe}
use yession.Exporter.Tree
use yession.Exporter.Tree.{
  Client, Children, end, child, children_of, find, names, IsPart, split_dots, walk, Leads, here,
  down, resolve_iff,
}
use yession.Exporter.Worker.{Seen}
use yession.Exporter.Commands.{
  Sdk, replied, asked, ◌>>=◌, drivers_run, methods_run, call_target, call_run, driver_lines,
}

-- What `driver_call` says of a call that was made.
abbrev pub call_words : Text → Text → Result Text → Text
call_words driver method (ok result) =
    driver ++ (codes "." ++ (method ++ (codes " returned " ++ result)))
call_words driver method (error e) = e

module _ {V : Type 0} (lines : List (Act V) → Result (List Text))
    (reply : List (Act V) → Result Text) where
  run_call :
      (driver : Text) (m : ℕ) (ethod : Text) (args : List V) (r : Result Text)
      → reply (called driver (m ∷ ethod) args ∷ []) ≡ r
      → run lines reply (driver_task driver (m ∷ ethod) args) []
        ≡ (called driver (m ∷ ethod) args ∷ [], said (call_words driver (m ∷ ethod) r))
  unfolding run driver_task
  run_call driver m ethod args (ok t) e = rw (e, run) refl
  run_call driver m ethod args (error t) e = rw (e, run) refl

  run_listing :
      (driver : Text) (args : List V) (names : List Text)
      → lines (listing (methods driver) ∷ []) ≡ ok names
      → run lines reply (driver_task driver [] args) [] ≡ (
        listing (methods driver) ∷ [],
        said (driver ++ (codes " offers: " ++ join (codes ", ") names)),
      )
  unfolding run driver_task
  run_listing driver args names e = rw (e, run) refl

module _ {D V : Type 0} (sdk : Sdk D V) (host : Text) (deadline : ℕ) (s : Seen D) where
  -- An exporter whose worker serves and answers in time, for a tool that asks once: the last act is what
  -- it asks for.
  abbrev pub lines_of : List (Act V) → Result (List Text)
  lines_of [] = ok []
  lines_of (listing drivers ∷ []) = asked host (replied (drivers_run sdk s).0)
  lines_of (listing (methods driver) ∷ []) = asked host (replied (methods_run sdk driver s).0)
  lines_of (a ∷ acts) = lines_of acts

  abbrev pub reply_of : List (Act V) → Result Text
  reply_of [] = ok []
  reply_of (called driver method args ∷ []) =
      asked host (replied (call_run sdk deadline driver method args s).0)
  reply_of (a ∷ acts) = reply_of acts

  -- The call itself, described.
  abbrev pub outcome_of : Client → Text → List V → Result Text
  outcome_of target method args = (sdk.invoke target method args s.1).0 >>= describe deadline

  call_target-listed :
      (driver method : Text) (target : Client)
      → Tree.resolve sdk.root driver ≡ ok target
      → Distinct (names_of (sdk.members target).members)
      → mem_text method (offered sdk.base_names (sdk.members target)) ≡ true
      → call_target sdk driver method ≡ ok target
  unfolding call_target
  call_target-listed driver method target r d m =
      let resolved = ((offered_iff sdk.base_names (sdk.members target) method driver d).0 m).1 in
      rw (r, resolved) refl

  call_run-listed :
      (driver method : Text) (target : Client) (args : List V)
      → call_target sdk driver method ≡ ok target
      → (call_run sdk deadline driver method args s).0 ≡ outcome_of target method args
  unfolding call_run
  call_run-listed driver method target args e = rw e refl

  call_run-left :
      (driver method : Text) (target : Client) (args : List V)
      → call_target sdk driver method ≡ ok target
      → (call_run sdk deadline driver method args s).1
        ≡ (s.0, (sdk.invoke target method args s.1).1)
  unfolding call_run
  call_run-left driver method target args e = rw e refl

  methods_run-resolved :
      (driver : Text) (target : Client)
      → Tree.resolve sdk.root driver ≡ ok target
      → (methods_run sdk driver s).0 ≡ ok (offered sdk.base_names (sdk.members target))
  unfolding methods_run
  methods_run-resolved driver target r = rw r refl

  -- `driver_call` without a method lists what it can call: for each name that it lists, the call goes
  -- through to that method of the driver with the arguments as they are, and the answer is the
  -- description of what came back, or the message of what it raised; and what the command leaves of the
  -- SDK's objects is what one such call leaves, on the same connection.
  pub driver_call_listed :
      (driver : Text) (target : Client) (m : ℕ) (ethod : Text) (args : List V)
      → Tree.resolve sdk.root driver ≡ ok target
      → Distinct (names_of (sdk.members target).members)
      → mem_text (m ∷ ethod) (offered sdk.base_names (sdk.members target)) ≡ true
      → (run lines_of reply_of (driver_task driver [] args) [] ≡ (
        listing (methods driver) ∷ [],
        said (
            driver
            ++ (codes " offers: "
                ++ join (codes ", ") (offered sdk.base_names (sdk.members target)))),
      ))
        × (run lines_of reply_of (driver_task driver (m ∷ ethod) args) [] ≡ (
          called driver (m ∷ ethod) args ∷ [],
          said (call_words driver (m ∷ ethod) (outcome_of target (m ∷ ethod) args)),
        ))
        × ((call_run sdk deadline driver (m ∷ ethod) args s).1
            ≡ (s.0, (sdk.invoke target (m ∷ ethod) args s.1).1))
  unfolding asked
  driver_call_listed driver target m ethod args r d listed_name = (
    run_listing lines_of reply_of driver args _ (methods_run-resolved driver target r),
    run_call lines_of reply_of driver m ethod args _ (
        call_run-listed driver (m ∷ ethod) target args
          (call_target-listed driver (m ∷ ethod) target r d listed_name)),
    call_run-left driver (m ∷ ethod) target args
        (call_target-listed driver (m ∷ ethod) target r d listed_name),
  )

  -- The line of `status` on a driver.
  abbrev pub line_of : Text → Client → Text
  line_of k c = k ++ (codes " — " ++ sdk.type_text c)

  some-same : (d c : Client) → some d ≡ some c → d ≡ c
  some-same d c e = cc

  mem_text-driver_lines :
      (k : Text) (c : Client) (cs : Children)
      → find k cs ≡ some c
      → mem_text (line_of k c) (driver_lines sdk cs) ≡ true
  unfolding find mem_text
  mem_text-driver_lines k c end e = cc
  mem_text-driver_lines k c (child j d cs) e = elim (Bool-cases (text_eq j k)) [
    | inl same ↦
        let name : j ≡ k = (text_eq_iff j k).0 same in
        let driver : d ≡ c = some-same d c (rw same at e) in
        let line : line_of j d ≡ line_of k c = cc (name, driver) in
        rw (line, text_eq_refl (line_of k c)) refl
    | inr other ↦ ground (arith, mem_text-driver_lines k c cs (rw other at e))
  ]

  run_status :
      (held : Text) (names : List Text)
      → lines_of (listing drivers ∷ []) ≡ ok names
      → run lines_of reply_of (status_task host held) [] ≡ (
        listing drivers ∷ [],
        said (
            codes "exporter at "
            ++ (host ++ (codes ", " ++ (held ++ (codes ".\nDrivers:\n" ++ listed names))))),
      )
  unfolding run status_task
  run_status held names e = rw (e, run) refl

  lines_of-drivers : lines_of (listing drivers ∷ []) ≡ ok (driver_lines sdk (children_of sdk.root))
  unfolding drivers_run asked
  lines_of-drivers = refl

  -- A line for each driver, in the order of the tree.
  abbrev pub status_rows : Children → Text
  status_rows end = []
  status_rows (child k c cs) =
      codes "\n  " ++ (k ++ (codes " — " ++ (sdk.type_text c ++ status_rows cs)))

  row-append :
      (k type rest : Text)
      → codes "\n" ++ ((codes "  " ++ (k ++ (codes " — " ++ type))) ++ rest)
        ≡ codes "\n  " ++ (k ++ (codes " — " ++ (type ++ rest)))
  unfolding codes
  row-append k type rest = simp (append_assoc) refl

  listed-status_rows :
      (k : Text) (c : Client) (cs : Children)
      → codes "\n" ++ listed (driver_lines sdk (child k c cs)) ≡ status_rows (child k c cs)
  unfolding listed join codes
  listed-status_rows k c end =
      ap (λ t. codes "\n" ++ t) (sym (append-nil (codes "  " ++ line_of k c)))
      ∙ row-append k (sdk.type_text c) []
  listed-status_rows k c (child j d cs) =
      row-append k (sdk.type_text c) (codes "\n" ++ listed (driver_lines sdk (child j d cs)))
      ∙ ap (λ t. codes "\n  " ++ (k ++ (codes " — " ++ (sdk.type_text c ++ t))))
          (listed-status_rows j d cs)

  found-status_rows :
      (name : Text) (target : Client) (cs : Children)
      → find name cs ≡ some target
      → codes ".\nDrivers:\n" ++ listed (driver_lines sdk cs)
        ≡ codes ".\nDrivers:" ++ status_rows cs
  unfolding find codes
  found-status_rows name target end e = cc
  found-status_rows name target (child k c cs) e =
      ap (λ t. codes ".\nDrivers:" ++ t) (listed-status_rows k c cs)

  -- What `status` lists can be called: on an exporter that answers and has drivers, the answer of
  -- `status` is the exporter, who holds it, and a line for each of its drivers, in order, with its name
  -- and its type; and for every driver of it whose name has no dot, `driver_call` with that name and
  -- without a method finds this very driver, and answers with what can be called on it.
  pub status_listed :
      (held name : Text) (target : Client) (args : List V)
      → find name (children_of sdk.root) ≡ some target
      → IsPart name
      → (run lines_of reply_of (status_task host held) [] ≡ (
        listing drivers ∷ [],
        said (
            codes "exporter at "
            ++ (host
                ++ (codes ", "
                    ++ (held ++ (codes ".\nDrivers:" ++ status_rows (children_of sdk.root)))))),
      ))
        × (mem_text (line_of name target) (driver_lines sdk (children_of sdk.root)) ≡ true)
        × (Tree.resolve sdk.root name ≡ ok target)
        × (run lines_of reply_of (driver_task name [] args) [] ≡ (
          listing (methods name) ∷ [],
          said (
              name
              ++ (codes " offers: "
                  ++ join (codes ", ") (offered sdk.base_names (sdk.members target)))),
        ))
  unfolding asked
  status_listed held name target args there part =
      let reached = (resolve_iff sdk.root target name [] (part, tt)).1 (down there (here target)) in
      (
        run_status held (driver_lines sdk (children_of sdk.root)) lines_of-drivers
            ∙ ap
                (λ (t : Text). (
                  listing drivers ∷ [],
                  said (codes "exporter at " ++ (host ++ (codes ", " ++ (held ++ t)))),
                ))
                (found-status_rows name target (children_of sdk.root) there),
        mem_text-driver_lines name target (children_of sdk.root) there,
        (unfold join in reached),
        run_listing lines_of reply_of name args _
            (methods_run-resolved name target (unfold join in reached)),
      )
