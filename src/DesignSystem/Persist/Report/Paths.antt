-- ===== src/DesignSystem/Persist/Report/Paths.antt =====
-- The paths of the files of a run are different ones.
use package.true.DesignSystem.Persist.Report.{in_dir, master_path, temp_path}
use package.true.Prelude.{
  Bool-cases, [], ap, append_assoc, arith, false, inl, inr, length, length-append, refl, ◌++◌, ◌∙◌,
  ◌∷◌, ◌≡◌,
}
use package.true.Text.{==_eq, Text, lit, ◌==◌}

append_cancel : (a s t : Text) → (a ++ s == a ++ t) ≡ (s == t)
append_cancel [] s t = refl
append_cancel (c ∷ a) s t = ground (arith, append_cancel a s t)

in_dir_cancel : (dir s t : Text) → (in_dir dir s == in_dir dir t) ≡ (s == t)
unfolding in_dir
in_dir_cancel dir s t =
    append_cancel dir (lit "/" ++ s) (lit "/" ++ t) ∙ append_cancel (lit "/") s t

-- A file of the pages is not the master file.
pub pages-ne-master :
    (dir name : Text) → (in_dir (in_dir dir (lit "pages")) name == master_path dir) ≡ false
unfolding master_path in_dir lit
pages-ne-master dir name = rw append_assoc (append_cancel dir _ _ ∙ ground arith)

longer :
    (name random : Text)
    → (name == lit "." ++ (name ++ (lit "." ++ (random ++ lit ".tmp")))) ≡ false
unfolding lit
longer name random =
    elim (Bool-cases (name == lit "." ++ (name ++ (lit "." ++ (random ++ lit ".tmp"))))) [
      | inr e ↦ e
      | inl e ↦ absurd (
          omega (
            arith,
            ap length (==_eq name (lit "." ++ (name ++ (lit "." ++ (random ++ lit ".tmp")))) e),
            length-append name (lit "." ++ (random ++ lit ".tmp")),
          ))
    ]

-- A file is not its temporary file.
pub path-ne-temp : (dir name random : Text) → (in_dir dir name == temp_path dir name random) ≡ false
unfolding temp_path
path-ne-temp dir name random = in_dir_cancel dir name _ ∙ longer name random
