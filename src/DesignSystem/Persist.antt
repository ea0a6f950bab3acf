-- ===== src/DesignSystem/Persist.antt =====
-- `safe_slug`, `_write_persisted_file` and `persist_design_system`, on a disk whose calls may fail.
pub mod Slug
pub mod Atomic
pub mod Report
pub mod Race
mod Tests
use package.true.Dict.{Dict, erase, get_or, has_key, put}
use package.true.Prelude.{Bool, List, [], eqb, false, if◌then◌else◌, true, ℕ, ◌++◌, ◌||◌, ◌∷◌}
use package.true.Text.{Text, is_digit, is_lower_letter, lower}
use package.true.Text.Cut.{strip_by}

-- [a-z0-9_-]
unfoldable pub is_slug_char : ℕ → Bool
unfolding is_lower_letter is_digit
is_slug_char c = is_lower_letter c || is_digit c || eqb c b'_' || eqb c b'-'

-- re.sub(r'[^a-z0-9_-]+', '-', text); the flag says that the character before was replaced
unfoldable pub dashed : Bool → Text → Text
unfolding is_slug_char
dashed inside [] = []
dashed inside (c ∷ t) = elim (is_slug_char c) [
  | true ↦ c ∷ dashed false t
  | false ↦ (if inside then [] else b'-' ∷ []) ++ dashed true t
]

or_fallback : Text → Text → Text
or_fallback fallback [] = fallback
or_fallback fallback (c ∷ t) = c ∷ t

-- `safe_slug`
unfoldable pub safe_slug : Text → Text → Text
unfolding or_fallback dashed lower strip_by
safe_slug name fallback = or_fallback fallback (strip_by (eqb b'-') (dashed false (lower name)))

-- The texts of the files, by their paths, and the directories that were made.
pub record Disk : Type 0 where
  pub files : Dict Text
  pub dirs : List Text

-- The calls of the system that may fail.
pub data Call : Type 0 where
  make_temp write_temp publish_temp remove_temp : Call

pub data Written : Type 0 where
  done exists_already os_error : Written

with_files : Disk → Dict Text → Disk
with_files disk files = record disk { files = files }

module _ (fails : Call → Bool) where
  -- finally: the temporary file is removed where it is still there
  clean_up : Text → Written → Disk → Written × Disk
  unfolding with_files
  clean_up temp_name outcome disk =
      if fails remove_temp
      then (os_error, disk)
      else (outcome, with_files disk (erase disk.files temp_name))

  -- os.replace(temp_name, path)
  replace : Text → Text → Disk → Written × Disk
  unfolding clean_up
  replace temp_name path disk = if fails publish_temp then clean_up temp_name os_error disk else (
    done,
    with_files disk (erase (put disk.files path (get_or disk.files temp_name [])) temp_name),
  )

  -- os.link(temp_name, path)
  link : Text → Text → Disk → Written × Disk
  unfolding clean_up
  link temp_name path disk =
      if has_key disk.files path
      then clean_up temp_name exists_already disk
      else if fails publish_temp
      then clean_up temp_name os_error disk
      else clean_up temp_name done
          (with_files disk (put disk.files path (get_or disk.files temp_name [])))

  publish : Bool → Text → Text → Disk → Written × Disk
  unfolding replace link
  publish force temp_name path disk =
      if force then replace temp_name path disk else link temp_name path disk

  -- `_write_persisted_file`, with the name that the temporary file gets, and what stands in it where
  -- the write fails
  unfoldable pub write_persisted_file : Text → Text → Text → Text → Bool → Disk → Written × Disk
  unfolding publish clean_up
  write_persisted_file temp_name torn path content force disk =
      if fails make_temp
      then (os_error, disk)
      else if fails write_temp
      then clean_up temp_name os_error (with_files disk (put disk.files temp_name torn))
      else publish force temp_name path (with_files disk (put disk.files temp_name content))
