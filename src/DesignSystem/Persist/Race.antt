-- ===== src/DesignSystem/Persist/Race.antt =====
-- Several runs of `_write_persisted_file` on one path at once, none of them forced: their calls of the
-- system, in any order.
pub mod Safe
use package.true.DesignSystem.Persist.{Written, done, exists_already}
use package.true.Dict.{Dict, erase, get, get_or, has_key, put}
use package.true.Prelude.{[], eqb, false, if◌then◌else◌, none, true, ℕ, ◌≡◌}
use package.true.Text.{Text}

-- What a run was called with, and the name of its temporary file.
pub record Writer : Type 0 where
  pub temp_name : Text
  pub content : Text

-- How far a run has got. `removing` and `ended` have the outcome.
pub data Phase : Type 0 where
  begun opened filled : Phase
  removing : Written → Phase
  ended : Written → Phase

pub record Stage : Type 0 where
  pub files : Dict Text
  pub phase : ℕ → Phase

abbrev pub set_phase : (ℕ → Phase) → ℕ → Phase → ℕ → Phase
set_phase phases i p j = if eqb j i then p else phases j

abbrev pub stage : Dict Text → (ℕ → Phase) → Stage
stage files phases = record { files = files; phase = phases }

-- One call of the run `i`: the temporary file is opened, which it may be only where there is none of
-- its name, is written, is linked, and is removed.
pub data Step (writers : ℕ → Writer) (path : Text) : Stage → Stage → Type 0 where
  open_temp :
      {s : Stage} (i : ℕ)
      → s.phase i ≡ begun
      → get s.files (writers i).temp_name ≡ none
      → Step writers path s
          (stage (put s.files (writers i).temp_name []) (set_phase s.phase i opened))
  fill_temp :
      {s : Stage} (i : ℕ)
      → s.phase i ≡ opened
      → Step writers path s (
          stage
            (put s.files (writers i).temp_name (writers i).content)
            (set_phase s.phase i filled))
  link_new :
      {s : Stage} (i : ℕ)
      → s.phase i ≡ filled
      → has_key s.files path ≡ false
      → Step writers path s (
          stage
            (put s.files path (get_or s.files (writers i).temp_name []))
            (set_phase s.phase i (removing done)))
  link_found :
      {s : Stage} (i : ℕ)
      → s.phase i ≡ filled
      → has_key s.files path ≡ true
      → Step writers path s (stage s.files (set_phase s.phase i (removing exists_already)))
  unlink_temp :
      {s : Stage} (i : ℕ) (outcome : Written)
      → s.phase i ≡ removing outcome
      → Step writers path s
          (stage (erase s.files (writers i).temp_name) (set_phase s.phase i (ended outcome)))

-- Any number of calls.
pub data Steps (writers : ℕ → Writer) (path : Text) : Stage → Stage → Type 0 where
  stay : {s : Stage} → Steps writers path s s
  more : {s t u : Stage} → Steps writers path s t → Step writers path t u → Steps writers path s u
