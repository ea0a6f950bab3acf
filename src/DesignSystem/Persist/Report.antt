-- ===== src/DesignSystem/Persist/Report.antt =====
-- `persist_design_system`: MASTER.md of a project, and the file of a page, with the report on them.
pub mod Paths
pub mod Stored
pub mod Refines
use package.true.DesignSystem.Persist.{
  Call, Disk, Written, done, exists_already, os_error, safe_slug, write_persisted_file,
}
use package.true.Prelude.{
  Bool, List, Option, [], false, if◌then◌else◌, is_empty, none, some, true, ◌++◌, ◌∷◌,
}
use package.true.Text.{Text, lit}

pub data Status : Type 0 where
  success skipped_exists : Status

-- The dict that the function returns.
pub record Report : Type 0 where
  pub status : Status
  pub design_system_dir : Text
  pub master_file : Text
  pub created_files : List Text
  pub message : Option Text

-- directory / name
unfoldable pub in_dir : Text → Text → Text
in_dir dir name = dir ++ (lit "/" ++ name)

-- design_system.get("project_name") or "default"
unfoldable pub or_default : Option Text → Text
or_default none = lit "default"
or_default (some []) = lit "default"
or_default (some (c ∷ t)) = c ∷ t

unfoldable pub system_dir : Text → Option Text → Text
unfolding in_dir or_default safe_slug
system_dir base project_name =
    in_dir (in_dir base (lit "design-system")) (safe_slug (or_default project_name) (lit "default"))

unfoldable pub master_path : Text → Text
unfolding in_dir
master_path dir = in_dir dir (lit "MASTER.md")

unfoldable pub page_name : Text → Text
unfolding safe_slug
page_name page = safe_slug page (lit "page") ++ lit ".md"

unfoldable pub page_path : Text → Text → Text
unfolding in_dir page_name
page_path dir page = in_dir (in_dir dir (lit "pages")) (page_name page)

-- The temporary file stands in the directory of a file: its name has a dot, the name of the file, a
-- random part and ".tmp".
unfoldable pub temp_path : Text → Text → Text → Text
unfolding in_dir
temp_path dir name random = in_dir dir (lit "." ++ (name ++ (lit "." ++ (random ++ lit ".tmp"))))

-- What the system does in a run: which calls fail, for the two directories and the two files, and
-- the random parts of the names of temporary files.
pub record System : Type 0 where
  pub dir_fails : Bool
  pub pages_dir_fails : Bool
  pub master_fails : Call → Bool
  pub page_fails : Call → Bool
  pub master_random : Text
  pub page_random : Text
  pub torn : Text

unfoldable pub master_temp : System → Text → Text
unfolding temp_path
master_temp system dir = temp_path dir (lit "MASTER.md") system.master_random

unfoldable pub page_temp : System → Text → Text → Text
unfolding temp_path in_dir page_name
page_temp system dir page = temp_path (in_dir dir (lit "pages")) (page_name page) system.page_random

-- `none` where an OSError leaves the function
abbrev pub Persisted : Type 0
Persisted = Option Report × Disk

skipped_message : Text → Text
skipped_message master_file =
    master_file
    ++ (lit " already exists and was not modified. "
        ++ (lit "Read it first to check for prior design decisions, then "
            ++ lit "re-run with force=True / --force to overwrite."))

report_of : Status → Text → List Text → Option Text → Option Report
unfolding master_path
report_of status dir created message = some (record {
  status = status;
  design_system_dir = dir;
  master_file = master_path dir;
  created_files = created;
  message = message;
})

-- the path of a file that was written
unfoldable pub added : Written → Text → List Text
added done path = path ∷ []
added exists_already path = []
added os_error path = []

-- after the file of the page
page_report : Text → Text → List Text → Written × Disk → Persisted
unfolding report_of added
page_report dir page_file created (os_error, disk) = (none, disk)
page_report dir page_file created (done, disk) =
    (report_of success dir (created ++ page_file ∷ []) none, disk)
page_report dir page_file created (exists_already, disk) =
    if is_empty created
    then (
      report_of skipped_exists dir []
          (some (page_file ++ lit " already exists and was not modified.")),
      disk,
    )
    else (report_of success dir created none, disk)

-- bool(page)
unfoldable pub has_page : Option Text → Bool
has_page none = false
has_page (some []) = false
has_page (some (c ∷ t)) = true

module _ (system : System) (dir : Text) (page : Option Text) (page_content : Text)
    (force : Bool) where
  -- `if page:`
  unfoldable pub page_step : List Text → Disk → Persisted
  unfolding report_of page_report page_path page_temp write_persisted_file
  page_step created disk = elim page [
    | none ↦ (report_of success dir created none, disk)
    | some [] ↦ (report_of success dir created none, disk)
    | some (c ∷ t) ↦ page_report dir (page_path dir (c ∷ t)) created (
        write_persisted_file system.page_fails (page_temp system dir (c ∷ t)) system.torn
          (page_path dir (c ∷ t)) page_content force disk)
  ]

  -- after MASTER.md
  master_step : Written × Disk → Persisted
  unfolding page_step report_of skipped_message has_page
  master_step (os_error, disk) = (none, disk)
  master_step (done, disk) = page_step (master_path dir ∷ []) disk
  master_step (exists_already, disk) =
      if has_page page
      then page_step [] disk
      else (report_of skipped_exists dir [] (some (skipped_message (master_path dir))), disk)

  written_master : Text → Disk → Persisted
  unfolding master_step master_temp master_path write_persisted_file
  written_master master_content disk = master_step (
      write_persisted_file system.master_fails (master_temp system dir) system.torn
        (master_path dir) master_content force disk)

made : Text → Disk → Disk
made dir disk = record disk { dirs = disk.dirs ++ dir ∷ [] }

-- `persist_design_system`, with the texts of the two files, in the base directory
unfoldable pub persist_design_system :
    System → Text → Option Text → Option Text → Text → Text → Bool → Disk → Persisted
unfolding system_dir written_master made in_dir
persist_design_system system base project_name page master_content page_content force disk =
    let dir = system_dir base project_name in
    let with_dir = made dir disk in
    let with_pages = made (in_dir dir (lit "pages")) with_dir in
    if system.dir_fails
    then (none, disk)
    else if system.pages_dir_fails
    then (none, with_dir)
    else written_master system dir page page_content force master_content with_pages
