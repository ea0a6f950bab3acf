-- ===== src/DesignSystem/Persist/Report/Stored.antt =====
-- The files that a run stores, from what its writes leave behind.
use package.true.DesignSystem.Persist.{Call, Disk, done, exists_already}
use package.true.DesignSystem.Persist.Atomic.{IsAtomic}
use package.true.DesignSystem.Persist.Report.{Report, skipped_exists}
use package.true.Dict.{Dict, get, has_key, has_key-get}
use package.true.Prelude.{
  All, All-append, Bool, Bool-cases, List, [], arith, false, if◌then◌else◌, inl, inr, is_empty,
  is_none, none, not, refl, some, true, ◌++◌, ◌||◌, ◌↔◌, ◌∙◌, ◌∷◌, ◌≡◌,
}
use package.true.Text.{Text, contains, contains-append, ◌==◌}

pub is_empty-snoc : (ts : List Text) (t : Text) → is_empty (ts ++ t ∷ []) ≡ false
is_empty-snoc [] t = refl
is_empty-snoc (u ∷ ts) t = refl

module _ (force : Bool) (text : Text → Text) where
  -- The files that are listed have their texts, and only a forced run lists one that was there; every
  -- other path is as it was.
  pub record Stored (before after : Dict Text) (created : List Text) : Type 0 where
    pub texts :
        (p : Text) → get after p ≡ (if contains created p then some (text p) else get before p)
    pub allowed : All (λ p. (force || is_none (get before p)) ≡ true) created

  -- The report says what is on the disk, and that it was skipped exactly where no file was written.
  pub record IsTrue (before after : Dict Text) (report : Report) : Type 0 where
    pub stored : Stored before after report.created_files
    pub skipped : (report.status ≡ skipped_exists) ↔ (report.created_files ≡ [])

  pub unchanged-Stored :
      (before after : Dict Text)
      → ((p : Text) → get after p ≡ get before p)
      → Stored before after []
  unchanged-Stored before after h = record { texts = h; allowed = tt }

  module _ (fails : Call → Bool) (temp_name path content : Text) where
    -- Without an error there is no temporary file left, so that the write is seen at its path only.
    pub texts-everywhere :
        (before : Dict Text) (disk : Disk)
        → IsAtomic temp_name path content force before fails (done, disk)
        → (path == temp_name) ≡ false
        → get before temp_name ≡ none
        → (p : Text) → get disk.files p ≡ (if p == path then some content else get before p)
    texts-everywhere before disk a n fresh p = elim (Bool-cases (p == temp_name)) [
      | inr e ↦ a.ended.texts p e
      | inl e ↦ ground (arith, e, n, fresh, a.removed)
    ]

    pub same-everywhere :
        (before : Dict Text) (disk : Disk)
        → IsAtomic temp_name path content force before fails (exists_already, disk)
        → get before temp_name ≡ none
        → (p : Text) → get disk.files p ≡ get before p
    same-everywhere before disk a fresh p = elim (Bool-cases (p == temp_name)) [
      | inr e ↦ a.ended.1.same p e
      | inl e ↦ ground (arith, e, fresh, a.removed)
    ]

    -- A write that finds a file changes nothing.
    pub same-Stored :
        (before middle : Dict Text) (disk : Disk) (created : List Text)
        → Stored before middle created
        → ((p : Text) → get disk.files p ≡ get middle p)
        → Stored before disk.files created
    same-Stored before middle disk created s same = record {
      texts = λ p. same p ∙ s.texts p;
      allowed = s.allowed;
    }

    -- One more file.
    pub done-Stored :
        (before middle : Dict Text) (disk : Disk) (created : List Text)
        → Stored before middle created
        → contains created path ≡ false
        → text path ≡ content
        → (force || not (has_key middle path)) ≡ true
        → ((p : Text) → get disk.files p ≡ (if p == path then some content else get middle p))
        → Stored before disk.files (created ++ path ∷ [])
    done-Stored before middle disk created s new is allowed texts = record {
      texts = λ p. ground (arith, texts p, s.texts p, contains-append created (path ∷ []) p, is);
      allowed =
          All-append (λ p. (force || is_none (get before p)) ≡ true) created (path ∷ []) s.allowed
            (ground (arith, new, s.texts path, has_key-get middle path), tt);
    }
