-- ===== src/Validation/Styles/Gather.antt =====
-- Rows of styles without a problem: their identities do not repeat, and what is gathered of one stays.
use package.true.Catalog.Domain.{Row}
use package.true.Dict.{Dict, get, get-put}
use package.true.Prelude.{
  All, Bool-cases, List, [], all, arith, false, inl, inr, map, refl, some, true, ◌++◌, ◌∙◌, ◌∷◌,
  ◌≡◌,
}
use package.true.Regex.{fullmatch}
use package.true.Text.{Distinct, Text, contains}
use package.true.Validation.Problems.{append_nil, flag}
use package.true.Validation.Styles.{
  Gathered, gather, gathered, id_of, key_problems, keys_of, parent_of, row_problems, rows_problems,
  status_problems, style_id_pattern,
}

pub row_fine :
    (targets : Dict (List Text)) (g : Gathered) (row : Row)
    → row_problems targets g row ≡ []
    → (fullmatch style_id_pattern (id_of row) ≡ true)
      × (contains g.ids (id_of row) ≡ false)
      × (status_problems targets row ≡ [])
      × (key_problems (id_of row) (keys_of row) g.lookup ≡ [])
unfolding row_problems flag
row_fine targets g row h = elim (Bool-cases (fullmatch style_id_pattern (id_of row))) [
  | inr e ↦ absurd (cc (e))
  | inl e ↦ elim (Bool-cases (contains g.ids (id_of row))) [
    | inl seen ↦ absurd (cc (e, seen))
    | inr new ↦
        let rest : status_problems targets row ++ key_problems (id_of row) (keys_of row) g.lookup
            ≡ [] =
          ground (arith, h, e, new) in
        let (status, keys) =
          append_nil (status_problems targets row) (key_problems (id_of row) (keys_of row) g.lookup)
            rest in
        (e, new, status, keys)
  ]
]

pub rows_fine :
    (targets : Dict (List Text)) (g : Gathered) (row : Row) (rows : List Row)
    → rows_problems targets g (row ∷ rows) ≡ []
    → (row_problems targets g row ≡ []) × (rows_problems targets (gathered g row) rows ≡ [])
unfolding rows_problems
rows_fine targets g row rows h =
    append_nil (row_problems targets g row) (rows_problems targets (gathered g row) rows) h

All_ids-new :
    (id : Text) (ids : List Text) (rows : List Row)
    → All (λ row. contains (id ∷ ids) (id_of row) ≡ false) rows
    → (contains (map id_of rows) id ≡ false) × All (λ row. contains ids (id_of row) ≡ false) rows
All_ids-new id ids [] h = (refl, tt)
All_ids-new id ids (row ∷ rows) h =
    let (apart, all) = All_ids-new id ids rows h.1 in (ground arith, (ground arith, all))

pub ids-Distinct :
    (targets : Dict (List Text)) (g : Gathered) (rows : List Row)
    → rows_problems targets g rows ≡ []
    → Distinct (map id_of rows) × All (λ row. contains g.ids (id_of row) ≡ false) rows
unfolding gathered
ids-Distinct targets g [] h = (tt, tt)
ids-Distinct targets g (row ∷ rows) h =
    let (fine, rest) = rows_fine targets g row rows h in
    let (format, new, _, _) = row_fine targets g row fine in
    let (distinct, apart) = ids-Distinct targets (gathered g row) rows rest in
    let (here, all) = All_ids-new (id_of row) g.ids rows apart in ((here, distinct), (new, all))

parents-keep :
    (targets : Dict (List Text)) (g : Gathered) (rows : List Row) (k : Text)
    → rows_problems targets g rows ≡ []
    → contains g.ids k ≡ true
    → get (gather g rows).parents k ≡ get g.parents k
unfolding gather gathered
parents-keep targets g [] k h seen = refl
parents-keep targets g (row ∷ rows) k h seen =
    let (fine, rest) = rows_fine targets g row rows h in
    let (format, new, _, _) = row_fine targets g row fine in
    let later = parents-keep targets (gathered g row) rows k rest (ground (arith, seen)) in
    later ∙ ground (arith, get-put g.parents (id_of row) k (parent_of row))

pub parents-get :
    (targets : Dict (List Text)) (g : Gathered) (rows : List Row)
    → rows_problems targets g rows ≡ []
    → All (λ row. get (gather g rows).parents (id_of row) ≡ some (parent_of row)) rows
unfolding gather gathered
parents-get targets g [] h = tt
parents-get targets g (row ∷ rows) h =
    let (fine, rest) = rows_fine targets g row rows h in
    (
      parents-keep targets (gathered g row) rows (id_of row) rest (ground arith)
          ∙ ground (arith, get-put g.parents (id_of row) (id_of row) (parent_of row)),
      parents-get targets (gathered g row) rows rest,
    )
