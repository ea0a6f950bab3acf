-- ===== src/Styling/Shadcn/Commands.antt =====
-- Which commands the installer runs.
-- The command that was run, if one was.
use package.true.Prelude.{
  All, AllSome, AllSome-imp, Bool, Bool-cases, List, Option, [], arith, false, if-P_of,
  if◌then◌else◌, inl, inr, is_empty, none, not, refl, select, some, sym, true, ◌&&◌, ◌++◌, ◌∙◌, ◌∷◌,
  ◌≡◌, ◌≢◌,
}
use package.true.Styling.Shadcn.{
  Installation, Project, Ran, add_components, already_installed, called_process_error, command,
  completed, done, execute, get_installed_components, get_shadcn_version, index_error, not_found,
  not_initialized, report,
}
use package.true.Text.{Text, contains, lit}
use package.true.Text.Cut.{join}

abbrev pub run_of : Installation → Option (List Text)
run_of index_error = none
run_of (done ok message ran) = ran

-- The command is that of the components, the project is initialized, and nothing that is installed
-- is installed again unless it may be overwritten.
abbrev pub IsAllowed : Project → Bool → List Text → Bool → List Text → Type 0
IsAllowed project dry_run components overwrite cmd =
    (dry_run ≡ false)
    × (components ≢ [])
    × (project.components_json_exists ≡ true)
    × (overwrite ≡ false
        → All (λ c. contains (get_installed_components project) c ≡ false) components)
    × ((version : Text) × (get_shadcn_version project ≡ some version)
        × (cmd ≡ command version components overwrite))

module _ (run : List Text → Ran) (project : Project) where
  report-run :
      (success failure : Text) (cmd : List Text) (ran : Ran)
      → run_of (report success failure cmd ran) ≡ some cmd
  unfolding report
  report-run success failure cmd (completed out) = refl
  report-run success failure cmd (called_process_error err out text) = refl
  report-run success failure cmd not_found = refl

  execute-run :
      (dry_run : Bool) (version : Option Text) (what : List Text) (overwrite : Bool)
      (success failure : Text)
      → AllSome
          (λ cmd.
            (dry_run ≡ false)
            × ((v : Text) × (version ≡ some v) × (cmd ≡ command v what overwrite)))
          (run_of (execute run dry_run version what overwrite success failure))
  unfolding execute
  execute-run dry_run none what overwrite success failure = tt
  execute-run true (some v) what overwrite success failure = tt
  execute-run false (some v) what overwrite success failure =
      rw (report-run success failure (command v what overwrite) (run (command v what overwrite)))
        (refl, (v, refl, refl))

some-inj : {a b : List Text} → some a ≡ some b → a ≡ b
some-inj e = cc

select_empty :
    (p : Text → Bool) (xs : List Text) → is_empty (select p xs) ≡ true → All (λ x. p x ≡ false) xs
select_empty p [] e = tt
select_empty p (x ∷ xs) e = elim (Bool-cases (p x)) [
  | inl f ↦ let g : false ≡ true = rw (f, is_empty) at e in absurd (cc)
  | inr f ↦
      let g : is_empty (select p xs) ≡ true = rw (f, is_empty) at e in (f, select_empty p xs g)
]

-- A command is run only without dry run, for some components, in an initialized project, and, unless
-- components may be overwritten, only if none of them is installed; it is the command of exactly
-- these components with the version that the project asks for.
pub add_components-IsAllowed :
    (run : List Text → Ran) (project : Project) (dry_run : Bool) (components : List Text)
    (overwrite : Bool)
    → AllSome
        (IsAllowed project dry_run components overwrite)
        (run_of (add_components run project dry_run components overwrite))
unfolding add_components already_installed
add_components-IsAllowed run project dry_run components overwrite =
    let installed = get_installed_components project in
    let Good : Installation → Type 0 =
      λ o. AllSome (IsAllowed project dry_run components overwrite) (run_of o) in
    if-P_of Good (is_empty components) (λ _. tt)
      (λ some_components.
        if-P_of Good (not project.components_json_exists) (λ _. tt)
          (λ initialized.
            if-P_of Good (not (is_empty (select (contains installed) components)) && not overwrite)
              (λ _. tt)
              (λ free.
                let ran =
                  execute-run run project dry_run (get_shadcn_version project) components overwrite
                    (lit "Successfully added components: " ++ join (lit ", ") components)
                    (lit "Failed to add components: ") in
                AllSome-imp
                  (λ (cmd : List Text)
                      (h : (dry_run ≡ false)
                        × ((v : Text) × (get_shadcn_version project ≡ some v)
                            × (cmd ≡ command v components overwrite))).
                    (
                      h.0,
                      λ e. let f : is_empty components ≡ true = rw e refl in absurd (cc),
                      ground (arith, initialized),
                      λ e. select_empty (contains installed) components (ground (arith, free, e)),
                      h.1,
                    ))
                  (run_of (
                    execute run dry_run (get_shadcn_version project) components overwrite
                      (lit "Successfully added components: " ++ join (lit ", ") components)
                      (lit "Failed to add components: ")))
                  ran)))

-- a guard that refuses runs nothing
past_guard :
    (b : Bool) (message : Text) (cmd : List Text) (o p q : Installation)
    → run_of (if b then done false message none else o) ≡ some cmd
    → (run_of o ≡ some cmd → p ≡ q)
    → (if b then done false message none else p) ≡ q
past_guard true message cmd o p q e f = absurd (cc)
past_guard false message cmd o p q e f = f e

execute-dry_run :
    (run : List Text → Ran) (project : Project) (version : Option Text) (what : List Text)
    (overwrite : Bool) (success failure : Text) (cmd : List Text)
    → run_of (execute run false version what overwrite success failure) ≡ some cmd
    → execute run true version what overwrite success failure
      ≡ done true (lit "Would run: " ++ join (lit " ") cmd) none
unfolding execute
execute-dry_run run project none what overwrite success failure cmd e = absurd (cc)
execute-dry_run run project (some v) what overwrite success failure cmd e =
    let full = command v what overwrite in
    let same : full ≡ cmd =
      some-inj (sym (report-run run project success failure full (run full)) ∙ e) in
    rw same refl

-- A dry run says which command the same call without dry run runs.
pub add_components-dry_run :
    (run : List Text → Ran) (project : Project) (components : List Text) (overwrite : Bool)
    (cmd : List Text)
    → run_of (add_components run project false components overwrite) ≡ some cmd
    → add_components run project true components overwrite
      ≡ done true (lit "Would run: " ++ join (lit " ") cmd) none
unfolding add_components
add_components-dry_run run project components overwrite cmd e =
    let already = select (contains (get_installed_components project)) components in
    past_guard (is_empty components) (lit "No components specified") cmd _ _ _ e (λ e1.
      past_guard (not project.components_json_exists) not_initialized cmd _ _ _ e1 (λ e2.
        past_guard (not (is_empty already) && not overwrite)
          (lit "Components already installed: "
            ++ join (lit ", ") already
            ++ lit ". Use --overwrite to reinstall")
          cmd _ _ _ e2
          (λ e3.
            execute-dry_run run project (get_shadcn_version project) components overwrite
              (lit "Successfully added components: " ++ join (lit ", ") components)
              (lit "Failed to add components: ") cmd e3)))
