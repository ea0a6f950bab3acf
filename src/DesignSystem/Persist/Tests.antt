-- ===== src/DesignSystem/Persist/Tests.antt =====
-- Runs of the functions that write a design system, and the properties at such inputs.
use package.true.DesignSystem.Persist.{
  Call, Disk, done, exists_already, is_slug_char, remove_temp, safe_slug, write_persisted_file,
}
use package.true.DesignSystem.Persist.Atomic.{IsAtomic, write_persisted_file-IsAtomic}
use package.true.DesignSystem.Persist.Race.{
  Stage, Steps, Writer, begun, fill_temp, filled, link_found, link_new, more, open_temp, opened,
  removing, set_phase, stage, stay,
}
use package.true.DesignSystem.Persist.Race.Safe.{Apart, IsSafe, concurrent-IsSafe}
use package.true.DesignSystem.Persist.Report.{System, persist_design_system, system_dir}
use package.true.DesignSystem.Persist.Report.Refines.{persist_design_system-IsTrue, text_at}
use package.true.DesignSystem.Persist.Report.Stored.{IsTrue}
use package.true.DesignSystem.Persist.Slug.{IsSegment, safe_slug-IsSegment}
use package.true.Dict.{erase, get, get_or, has_key, put}
use package.true.Prelude.{
  AllSome, Bool, [], arith, false, none, refl, some, true, ℕ, ℕ_discrete, ◌∷◌, ◌≡◌,
}
use package.true.Text.{Text, Text-discrete, lit, ◌==◌}

default-IsSegment : IsSegment (lit "default")
unfolding lit is_slug_char
default-IsSegment = record {
  safe = (refl, (refl, (refl, (refl, (refl, (refl, (refl, tt)))))));
  some_char = λ e. cc;
}

safe_slug-IsSegment_example : IsSegment (safe_slug (lit "../../etc") (lit "default"))
safe_slug-IsSegment_example =
    safe_slug-IsSegment (lit "../../etc") (lit "default") default-IsSegment

slugs : safe_slug (lit "../../Etc v2.0") (lit "default") ≡ lit "etc-v2-0"
unfolding safe_slug lit
slugs = refl

abbrev all_well : Call → Bool
all_well call = false

abbrev removal_fails : Call → Bool
removal_fails remove_temp = true
removal_fails _ = false

abbrev old_disk : Disk
old_disk = record { files = (lit "d/MASTER.md", lit "old") ∷ []; dirs = [] }

other_name : (lit "d/MASTER.md" == lit "d/.MASTER.md.x.tmp") ≡ false
unfolding lit Text-discrete ℕ_discrete
other_name = refl

write_persisted_file-IsAtomic_example :
    IsAtomic
      (lit "d/.MASTER.md.x.tmp")
      (lit "d/MASTER.md")
      (lit "new")
      true
      old_disk.files
      removal_fails
      (write_persisted_file removal_fails
        (lit "d/.MASTER.md.x.tmp")
        []
        (lit "d/MASTER.md")
        (lit "new")
        true
        old_disk)
write_persisted_file-IsAtomic_example =
    write_persisted_file-IsAtomic removal_fails (lit "d/.MASTER.md.x.tmp") [] (lit "d/MASTER.md")
      (lit "new") true old_disk other_name

spares :
    write_persisted_file all_well
      (lit "d/.MASTER.md.x.tmp")
      []
      (lit "d/MASTER.md")
      (lit "new")
      false
      old_disk
    ≡ (exists_already, old_disk)
unfolding write_persisted_file lit Text-discrete ℕ_discrete erase put has_key
spares = refl

abbrev system : System
system = record {
  dir_fails = false;
  pages_dir_fails = false;
  master_fails = all_well;
  page_fails = removal_fails;
  master_random = lit "a1";
  page_random = lit "b2";
  torn = [];
}

abbrev empty_disk : Disk
empty_disk = record { files = []; dirs = [] }

fresh : (name : Text) → get empty_disk.files name ≡ none
unfolding get
fresh name = refl

persist_design_system-IsTrue_example :
    AllSome
      (IsTrue false
        (text_at (system_dir (lit "/w") (some (lit "My App"))) (lit "master") (lit "page"))
        []
        (persist_design_system system
          (lit "/w")
          (some (lit "My App"))
          (some (lit "../home"))
          (lit "master")
          (lit "page")
          false
          empty_disk).1.files)
      (persist_design_system system
        (lit "/w")
        (some (lit "My App"))
        (some (lit "../home"))
        (lit "master")
        (lit "page")
        false
        empty_disk).0
persist_design_system-IsTrue_example =
    persist_design_system-IsTrue system (lit "/w") (some (lit "My App")) (some (lit "../home"))
      (lit "master") (lit "page") false empty_disk (fresh _) (fresh _)

abbrev writers : ℕ → Writer
writers i = record { temp_name = b'.' ∷ i ∷ []; content = i ∷ [] }

writers-Apart : Apart writers (lit "M")
unfolding lit
writers-Apart = record { temps = λ i j h. ground (arith, h); from_path = λ i. ground arith }

temp : ℕ → Text
temp i = b'.' ∷ i ∷ []

abbrev start : Stage
start = stage [] (λ _. begun)

abbrev opened_both : Stage
opened_both =
    stage (put (put [] (temp 1) []) (temp 2) [])
      (set_phase (set_phase (λ _. begun) 1 opened) 2 opened)

abbrev filled_both : Stage
filled_both =
    stage (put (put opened_both.files (temp 2) (2 ∷ [])) (temp 1) (1 ∷ []))
      (set_phase (set_phase opened_both.phase 2 filled) 1 filled)

abbrev linked_both : Stage
linked_both =
    stage (put filled_both.files (lit "M") (get_or filled_both.files (temp 2) []))
      (set_phase (set_phase filled_both.phase 2 (removing done)) 1 (removing exists_already))

-- Two runs at once: the second links first.
race : Steps writers (lit "M") start linked_both
unfolding temp get put has_key get_or lit Text-discrete ℕ_discrete
race =
    more
      (more
        (more
          (more (more (more stay (open_temp 1 refl refl)) (open_temp 2 refl refl))
            (fill_temp 2 refl))
          (fill_temp 1 refl))
        (link_new 2 refl refl))
      (link_found 1 refl refl)

concurrent-IsSafe_example : IsSafe writers (lit "M") (get [] (lit "M")) linked_both
concurrent-IsSafe_example = concurrent-IsSafe writers (lit "M") [] writers-Apart race
