-- ===== src/Styling/Shadcn.antt =====
-- The class `ShadcnInstaller` of shadcn_add.py.
pub mod Commands
use package.true.Prelude.{
  Bool, List, Option, [], eqb, false, if◌then◌else◌, is_empty, map, none, not, select, some, true,
  ℕ, ◌&&◌, ◌++◌, ◌||◌, ◌∷◌,
}
use package.true.Sort.{sort_asc}
use package.true.Text.{Text, contains, lit, text_less}
use package.true.Text.Cut.{join, lstrip, words}

-- What `subprocess.run` comes to: CalledProcessError carries stderr, stdout and str(e).
pub data Ran : Type 0 where
  completed : Text → Ran
  called_process_error : Text → Text → Text → Ran
  not_found : Ran

-- A project as the installer sees it. Of components.json only the alias of the components is read,
-- of package.json only the versions of shadcn; an absent outer value is a file that is no JSON.
pub record Project : Type 0 where
  pub components_json_exists : Bool
  pub components_alias : Option (Option Text)
  -- the stems of the *.tsx files below a directory and "/ui", where that directory exists
  pub ui_stems : Text → Option (List Text)
  -- the versions in dependencies and in devDependencies
  pub package_versions : Option (Option Text × Option Text)

-- The result of an operation: IndexError of an empty version, or success, message and the command
-- that was run.
pub data Installation : Type 0 where
  index_error : Installation
  done : Bool → Text → Option (List Text) → Installation

-- .replace("@/", "")
unfoldable pub without_at : Text → Text
without_at [] = []
without_at (c ∷ []) = c ∷ []
without_at (c ∷ d ∷ t) = elim (eqb c b'@' && eqb d b'/') [
  | true ↦ without_at t
  | false ↦ c ∷ without_at (d ∷ t)
]

unfoldable pub alias_or_default : Option Text → Text
alias_or_default none = lit "components"
alias_or_default (some alias) = alias

unfoldable pub stems_or_none : Option (List Text) → List Text
stems_or_none none = []
stems_or_none (some stems) = stems

unfoldable pub installed_below : Project → Option (Option Text) → List Text
unfolding without_at alias_or_default stems_or_none
installed_below project none = []
installed_below project (some alias) =
    stems_or_none (project.ui_stems (without_at (alias_or_default alias)))

-- `get_installed_components`
unfoldable pub get_installed_components : Project → List Text
unfolding installed_below
get_installed_components project =
    if not project.components_json_exists
    then []
    else installed_below project project.components_alias

unfoldable pub is_range_char : ℕ → Bool
is_range_char c = eqb c b'^' || eqb c b'~' || eqb c b'>' || eqb c b'=' || eqb c b'<'

-- version.lstrip("^~>=<").split()[0], where the list may be empty
unfoldable pub first_word : List Text → Option Text
first_word [] = none
first_word (w ∷ ws) = some w

-- the loop over the sections; an empty version is falsy
unfoldable pub version_in : Option Text → Option Text → Option Text
unfolding is_range_char first_word
version_in none rest = rest
version_in (some version) rest =
    if is_empty version then rest else first_word (words (lstrip is_range_char version))

unfoldable pub version_of : Option (Option Text × Option Text) → Option Text
unfolding version_in
version_of none = some (lit "2.3.0")
version_of (some (dependency, dev_dependency)) =
    version_in dependency (version_in dev_dependency (some (lit "2.3.0")))

-- `_get_shadcn_version`, or `none` for an IndexError
unfoldable pub get_shadcn_version : Project → Option Text
unfolding version_of
get_shadcn_version project = version_of project.package_versions

abbrev not_initialized : Text
not_initialized = lit "shadcn not initialized. Run 'npx shadcn@latest init' first"

-- the command, with what stands behind "add"
unfoldable pub command : Text → List Text → Bool → List Text
command version what overwrite =
    lit "npx" ∷ (lit "shadcn@" ++ version) ∷ lit "add" ∷ what
    ++ (if overwrite then lit "--overwrite" ∷ [] else [])

unfoldable pub with_output : Text → Text → Text
with_output message out =
    if is_empty out then message else message ++ b'\n' ∷ b'\n' ∷ lit "Output:" ++ b'\n' ∷ out

-- e.stderr or e.stdout or str(e)
error_text : Text → Text → Text → Text
error_text err out text =
    if not (is_empty err) then err else if not (is_empty out) then out else text

unfoldable pub report : Text → Text → List Text → Ran → Installation
unfolding with_output error_text
report success failure cmd (completed out) = done true (with_output success out) (some cmd)
report success failure cmd (called_process_error err out text) =
    done false (failure ++ error_text err out text) (some cmd)
report success failure cmd not_found =
    done false (lit "npx not found. Ensure Node.js is installed") (some cmd)

-- the end of both operations
unfoldable pub execute :
    (List Text → Ran) → Bool → Option Text → List Text → Bool → Text → Text → Installation
unfolding report command
execute run dry_run none what overwrite success failure = index_error
execute run dry_run (some version) what overwrite success failure =
    let cmd = command version what overwrite in
    if dry_run
    then done true (lit "Would run: " ++ join (lit " ") cmd) none
    else report success failure cmd (run cmd)

unfoldable pub already_installed : List Text → List Text → List Text
already_installed installed components = select (contains installed) components

-- `add_components`
unfoldable pub add_components : (List Text → Ran) → Project → Bool → List Text → Bool → Installation
unfolding execute already_installed
add_components run project dry_run components overwrite =
    let already = already_installed (get_installed_components project) components in
    if is_empty components
    then done false (lit "No components specified") none
    else if not project.components_json_exists
    then done false not_initialized none
    else if not (is_empty already) && not overwrite
    then done false
        (lit "Components already installed: "
          ++ join (lit ", ") already
          ++ lit ". Use --overwrite to reinstall")
        none
    else execute run dry_run (get_shadcn_version project) components overwrite
        (lit "Successfully added components: " ++ join (lit ", ") components)
        (lit "Failed to add components: ")

-- `add_all_components`
unfoldable pub add_all_components : (List Text → Ran) → Project → Bool → Bool → Installation
unfolding execute
add_all_components run project dry_run overwrite =
    if not project.components_json_exists
    then done false not_initialized none
    else execute run dry_run (get_shadcn_version project) (lit "--all" ∷ []) overwrite
        (lit "Successfully added all components") (lit "Failed to add all components: ")

-- `list_installed`
unfoldable pub list_installed : Project → Bool × Text
list_installed project =
    let installed = get_installed_components project in
    if not project.components_json_exists
    then (false, lit "shadcn not initialized")
    else if is_empty installed
    then (true, lit "No components installed")
    else (
      true,
      lit "Installed components:"
          ++ b'\n' ∷ join (b'\n' ∷ []) (map (λ c. lit "  - " ++ c) (sort_asc text_less installed)),
    )
