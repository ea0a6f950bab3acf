-- ===== src/DesignSystem/Persist/Report/Refines.antt =====
-- A run of `persist_design_system` refines its report: the disk afterwards is the disk before with
-- the files that the report lists.
use package.true.DesignSystem.Persist.{
  Disk, Written, done, exists_already, os_error, write_persisted_file,
}
use package.true.DesignSystem.Persist.Atomic.{IsAtomic, write_persisted_file-IsAtomic}
use package.true.DesignSystem.Persist.Report.{
  Persisted, System, has_page, in_dir, made, master_path, master_step, master_temp, page_name,
  page_path, page_report, page_step, page_temp, persist_design_system, report_of, skipped_exists,
  success, system_dir, temp_path, written_master,
}
use package.true.DesignSystem.Persist.Report.Paths.{pages-ne-master, path-ne-temp}
use package.true.DesignSystem.Persist.Report.Stored.{
  IsTrue, Stored, done-Stored, is_empty-snoc, same-Stored, same-everywhere, texts-everywhere,
  unchanged-Stored,
}
use package.true.Dict.{Dict, get}
use package.true.Prelude.{
  AllSome, Bool, List, Option, [], ap, arith, false, if-P, if-P_of, if◌then◌else◌, is_empty, none,
  not, refl, some, true, ◌||◌, ◌∷◌, ◌≡◌,
}
use package.true.Text.{Text, contains, lit, ◌==◌}

-- What stands in a file of the run.
unfoldable pub text_at : Text → Text → Text → Text → Text
text_at dir master_content page_content p =
    if p == master_path dir then master_content else page_content

text_at-page :
    (dir master_content page_content name : Text)
    → text_at dir master_content page_content (page_path dir name) ≡ page_content
unfolding text_at page_path
text_at-page dir master_content page_content name =
    ground (arith, pages-ne-master dir (page_name name))

text_at-master :
    (dir master_content page_content : Text)
    → text_at dir master_content page_content (master_path dir) ≡ master_content
unfolding text_at
text_at-master dir master_content page_content = ground arith

page-ne-master : (dir name : Text) → (page_path dir name == master_path dir) ≡ false
unfolding page_path
page-ne-master dir name = pages-ne-master dir (page_name name)

page_temp-ne-master :
    (system : System) (dir name : Text) → (page_temp system dir name == master_path dir) ≡ false
unfolding page_temp temp_path
page_temp-ne-master system dir name = pages-ne-master dir _

master-ne-temp :
    (system : System) (dir : Text) → (master_path dir == master_temp system dir) ≡ false
unfolding master_path master_temp
master-ne-temp system dir = path-ne-temp dir (lit "MASTER.md") system.master_random

page-ne-temp :
    (system : System) (dir name : Text) → (page_path dir name == page_temp system dir name) ≡ false
unfolding page_path page_temp
page-ne-temp system dir name =
    path-ne-temp (in_dir dir (lit "pages")) (page_name name) system.page_random

-- The temporary file of the page is new.
abbrev pub FreshPage : System → Text → Dict Text → Option Text → Type 0
FreshPage system dir before page =
    AllSome (λ name. get before (page_temp system dir name) ≡ none) page

module _ (system : System) (dir master_content page_content : Text) (force : Bool) where
  abbrev pub Right : Dict Text → Persisted → Type 0
  Right before result =
      AllSome (IsTrue force (text_at dir master_content page_content) before result.1.files)
        result.0

  found-Stored :
      (before middle : Dict Text) (name : Text) (created : List Text) (disk : Disk)
      → Stored force (text_at dir master_content page_content) before middle created
      → IsAtomic
          (page_temp system dir name)
          (page_path dir name)
          page_content
          force
          middle
          system.page_fails
          (exists_already, disk)
      → get middle (page_temp system dir name) ≡ none
      → Stored force (text_at dir master_content page_content) before disk.files created
  found-Stored before middle name created disk s a fresh =
      let fails = system.page_fails in
      same-Stored force (text_at dir master_content page_content) fails (page_temp system dir name)
        (page_path dir name) page_content before middle disk created s
        (same-everywhere force (text_at dir master_content page_content) fails
          (page_temp system dir name) (page_path dir name) page_content middle disk a fresh)

  page_report-IsTrue :
      (before middle : Dict Text) (name : Text) (created : List Text) (outcome : Written)
      (disk : Disk)
      → Stored force (text_at dir master_content page_content) before middle created
      → contains created (page_path dir name) ≡ false
      → IsAtomic
          (page_temp system dir name)
          (page_path dir name)
          page_content
          force
          middle
          system.page_fails
          (outcome, disk)
      → get middle (page_temp system dir name) ≡ none
      → Right before (page_report dir (page_path dir name) created (outcome, disk))
  unfolding page_report report_of
  page_report-IsTrue before middle name created os_error disk s new a fresh = tt
  page_report-IsTrue before middle name created done disk s new a fresh = record {
    stored =
        done-Stored force (text_at dir master_content page_content) system.page_fails
          (page_temp system dir name) (page_path dir name) page_content before middle disk created s
          new (text_at-page dir master_content page_content name) a.ended.allowed
          (texts-everywhere force (text_at dir master_content page_content) system.page_fails
            (page_temp system dir name) (page_path dir name) page_content middle disk a
            (page-ne-temp system dir name) fresh);
    skipped = (
      λ e. absurd (cc),
      λ e. absurd (cc (ap is_empty e, is_empty-snoc created (page_path dir name))),
    );
  }
  page_report-IsTrue before middle name [] exists_already disk s new a fresh = record {
    stored = found-Stored before middle name [] disk s a fresh;
    skipped = (λ e. refl, λ e. refl);
  }
  page_report-IsTrue before middle name (c ∷ created) exists_already disk s new a fresh = record {
    stored = found-Stored before middle name (c ∷ created) disk s a fresh;
    skipped = (λ e. absurd (cc), λ e. absurd (cc (ap is_empty e)));
  }

  no_page-IsTrue :
      (before : Dict Text) (disk : Disk) (created : List Text)
      → Stored force (text_at dir master_content page_content) before disk.files created
      → is_empty created ≡ false
      → Right before (report_of success dir created none, disk)
  unfolding report_of
  no_page-IsTrue before disk created s some_file = record {
    stored = s;
    skipped = (λ e. absurd (cc), λ e. absurd (cc (ap is_empty e, some_file)));
  }

  page_step-IsTrue :
      (before : Dict Text) (disk : Disk) (page : Option Text) (created : List Text)
      → Stored force (text_at dir master_content page_content) before disk.files created
      → ((name : Text) → contains created (page_path dir name) ≡ false)
      → ((name : Text) → contains created (page_temp system dir name) ≡ false)
      → (has_page page || not (is_empty created)) ≡ true
      → FreshPage system dir before page
      → Right before (page_step system dir page page_content force created disk)
  unfolding page_step has_page
  page_step-IsTrue before disk none created s new temp some_file fresh =
      no_page-IsTrue before disk created s (ground arith)
  page_step-IsTrue before disk (some []) created s new temp some_file fresh =
      no_page-IsTrue before disk created s (ground arith)
  page_step-IsTrue before disk (some (c ∷ t)) created s new temp some_file fresh =
      let name : Text = c ∷ t in
      let (outcome, after) =
        write_persisted_file system.page_fails (page_temp system dir name) system.torn
          (page_path dir name) page_content force disk in
      page_report-IsTrue before disk.files name created outcome after s (new name)
        (write_persisted_file-IsAtomic system.page_fails (page_temp system dir name) system.torn
          (page_path dir name) page_content force disk (page-ne-temp system dir name))
        (ground (arith, s.texts (page_temp system dir name), temp name, fresh))

  skipped-IsTrue :
      (before : Dict Text) (disk : Disk) (message : Text)
      → Stored force (text_at dir master_content page_content) before disk.files []
      → Right before (report_of skipped_exists dir [] (some message), disk)
  unfolding report_of
  skipped-IsTrue before disk message s = record { stored = s; skipped = (λ e. refl, λ e. refl) }

  master-Stored :
      (before : Dict Text) (disk : Disk)
      → IsAtomic
          (master_temp system dir)
          (master_path dir)
          master_content
          force
          before
          system.master_fails
          (done, disk)
      → get before (master_temp system dir) ≡ none
      → Stored force
          (text_at dir master_content page_content)
          before
          disk.files
          (master_path dir ∷ [])
  master-Stored before disk a fresh =
      let text = text_at dir master_content page_content in
      let fails = system.master_fails in
      let temp = master_temp system dir in
      done-Stored force text fails temp (master_path dir) master_content before before disk []
        (unchanged-Stored force text before before (λ _. refl)) refl
        (text_at-master dir master_content page_content) a.ended.allowed
        (texts-everywhere force text fails temp (master_path dir) master_content before disk a
          (master-ne-temp system dir) fresh)

  master_step-IsTrue :
      (before : Dict Text) (page : Option Text) (outcome : Written) (disk : Disk)
      → IsAtomic
          (master_temp system dir)
          (master_path dir)
          master_content
          force
          before
          system.master_fails
          (outcome, disk)
      → get before (master_temp system dir) ≡ none
      → FreshPage system dir before page
      → Right before (master_step system dir page page_content force (outcome, disk))
  unfolding master_step
  master_step-IsTrue before page os_error disk a fresh fresh_page = tt
  master_step-IsTrue before page done disk a fresh fresh_page =
      page_step-IsTrue before disk page (master_path dir ∷ []) (master-Stored before disk a fresh)
        (λ name. ground (arith, page-ne-master dir name))
        (λ name. ground (arith, page_temp-ne-master system dir name)) (ground arith) fresh_page
  master_step-IsTrue before page exists_already disk a fresh fresh_page =
      let s = unchanged-Stored force (text_at dir master_content page_content) before disk.files (
        same-everywhere force (text_at dir master_content page_content) system.master_fails
          (master_temp system dir) (master_path dir) master_content before disk a fresh) in
      if-P_of (Right before) (has_page page)
        (λ e.
          page_step-IsTrue before disk page [] s (λ _. refl) (λ _. refl) (ground (arith, e))
            fresh_page)
        (λ _. skipped-IsTrue before disk _ s)

  written_master-IsTrue :
      (page : Option Text) (disk : Disk)
      → get disk.files (master_temp system dir) ≡ none
      → FreshPage system dir disk.files page
      → Right disk.files (written_master system dir page page_content force master_content disk)
  unfolding written_master
  written_master-IsTrue page disk fresh fresh_page =
      let (outcome, after) =
        write_persisted_file system.master_fails (master_temp system dir) system.torn
          (master_path dir) master_content force disk in
      master_step-IsTrue disk.files page outcome after
        (write_persisted_file-IsAtomic system.master_fails (master_temp system dir) system.torn
          (master_path dir) master_content force disk (master-ne-temp system dir))
        fresh fresh_page

-- Where the temporary files are new, a run of `persist_design_system` that returns a report leaves the
-- disk as its report says, whichever calls failed: a file that the report lists as created holds the
-- text of MASTER.md or of the page, every other file is as it was before; a file that was there is
-- listed only where the run is forced; and the status is "skipped_exists" exactly where no file was
-- created, so that a page that is created beside a MASTER.md that was there makes it "success".
pub persist_design_system-IsTrue :
    (system : System) (base : Text) (project_name page : Option Text)
    (master_content page_content : Text) (force : Bool) (disk : Disk)
    → get disk.files (master_temp system (system_dir base project_name)) ≡ none
    → FreshPage system (system_dir base project_name) disk.files page
    → AllSome
        (IsTrue force
          (text_at (system_dir base project_name) master_content page_content)
          disk.files
          (persist_design_system system base project_name page master_content page_content force
            disk).1.files)
        (persist_design_system system base project_name page master_content page_content force
          disk).0
unfolding persist_design_system made
persist_design_system-IsTrue system base project_name page master_content page_content force disk
      fresh fresh_page =
    let dir = system_dir base project_name in
    let P = Right system dir master_content page_content force disk.files in
    if-P P system.dir_fails tt (
      if-P P system.pages_dir_fails tt (
        written_master-IsTrue system dir master_content page_content force page
          (made (in_dir dir (lit "pages")) (made dir disk)) fresh fresh_page))
