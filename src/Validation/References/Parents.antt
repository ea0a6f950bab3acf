-- ===== src/Validation/References/Parents.antt =====
-- The parents of the styles, where no problem is found with them.
use mathlib.Core.List.{Mem}
use mathlib.Core.Path.{subst}
use package.true.Catalog.Domain.{Row}
use package.true.Dict.{Dict, get, get_or, get_or-get, get_or-missing}
use package.true.Prelude.{
  All, All-Mem, All-imp, All-zip, Bool-cases, List, Option-cases, [], ap, arith, false, inl, inr,
  is_empty, not, refl, some, suc, sym, zero, ℕ, ◌&&◌, ◌||◌, ◌∙◌, ◌∷◌, ◌≡◌, ◌⊎◌,
}
use package.true.Text.{==_eq, Text, Text-discrete, contains, lit, ◌==◌}
use package.true.Validation.Problems.{append_nil, flag-nil}
use package.true.Validation.References.{
  chain_length, comes_back, cycle_through, entries_problems, entry_problems,
}
use package.true.Validation.References.Cycle.{chain_length-enough}
use package.true.Validation.Styles.{
  Gathered, gather, given, id_of, nothing_gathered, parent_of, rows_problems, status_of,
}
use package.true.Validation.Styles.Gather.{parents-get}
use package.true.Validation.Styles.Sound.{by_id-P}
use package.true.Validation.Styles.Status.{empty_text, not-given}

-- The parent of the style, where it has one, is another style, which is active.
abbrev pub HasParent : List Row → Row → Type 0
HasParent styles row =
    (parent_of row ≡ [])
    ⊎ ((parent : Row) × Mem parent styles
        × (id_of parent ≡ parent_of row)
        × (status_of parent ≡ lit "active")
        × ((parent_of row == id_of row) ≡ false))

-- The chain of parents of the style ends, at a style without one.
pub data Rooted (styles : List Row) : Row → Type 0 where
  root : {row : Row} → parent_of row ≡ [] → Rooted styles row
  child :
      {row : Row} (parent : Row)
      → Mem parent styles
      → id_of parent ≡ parent_of row
      → Rooted styles parent
      → Rooted styles row

entry_fine :
    (g : Gathered) (id parent : Text)
    → entry_problems g (id, parent) ≡ []
    → ((given parent && (not (contains g.ids parent) || parent == id)) ≡ false)
      × (cycle_through g.parents id parent ≡ [])
      × ((given parent && not (status_of (get_or g.by_id parent []) == lit "active")) ≡ false)
unfolding entry_problems
entry_fine g id parent h =
    let (invalid, rest) = append_nil _ _ h in
    let (cycle, status) = append_nil _ _ rest in
    (flag-nil _ _ invalid, not-given _ (flag-nil _ _ cycle), flag-nil _ _ status)

entries_fine :
    (g : Gathered) (entries : Dict Text) (id parent : Text)
    → entries_problems g entries ≡ []
    → get entries id ≡ some parent
    → entry_problems g (id, parent) ≡ []
unfolding entries_problems get
entries_fine g [] id parent h e = absurd cc
entries_fine g ((k, v) ∷ entries) id parent h e =
    let (fine, rest) = append_nil (entry_problems g (k, v)) (entries_problems g entries) h in
    elim (Bool-cases (id == k)) [
      | inl same ↦
          let key : id ≡ k = ==_eq id k same in
          let value : v ≡ parent = ground (arith, e, same) in
          subst (λ (i : Text). entry_problems g (i, parent) ≡ []) (sym key)
            (subst (λ (p : Text). entry_problems g (k, p) ≡ []) value fine)
      | inr other ↦ entries_fine g entries id parent rest (ground (arith, e, other))
    ]

no_status : (status_of [] == lit "active") ≡ false
unfolding status_of get_or lit get Text-discrete
no_status = refl

module _ (styles : List Row) where
  abbrev read_styles : Gathered
  read_styles = gather nothing_gathered styles

  -- The style is one of those read, and there is no problem with its parent.
  abbrev pub IsFine : Row → Type 0
  IsFine row =
      Mem row styles
      × (get read_styles.parents (id_of row) ≡ some (parent_of row))
      × (entry_problems read_styles (id_of row, parent_of row) ≡ [])

  parent_step :
      (row : Row)
      → All IsFine styles
      → IsFine row
      → (parent_of row ≡ [])
        ⊎ ((parent : Row) × IsFine parent
            × (id_of parent ≡ parent_of row)
            × (status_of parent ≡ lit "active")
            × ((parent_of row == id_of row) ≡ false)
            × (is_empty (parent_of row) ≡ false))
  unfolding get
  parent_step row every fine =
      let (invalid, _, status) = entry_fine read_styles (id_of row) (parent_of row) fine.2 in
      elim (Bool-cases (is_empty (parent_of row))) [
        | inl e ↦ inl (empty_text (parent_of row) e)
        | inr e ↦ elim (Option-cases (get read_styles.by_id (parent_of row))) [
          | inl missing ↦ absurd (
              cc
                (no_status, status, e, get_or-missing read_styles.by_id (parent_of row) [] missing))
          | inr (parent, found) ↦
              elim (by_id-P IsFine nothing_gathered styles (parent_of row) parent every found) [
                | inl old ↦ absurd cc
                | inr (known, same) ↦ inr (
                  parent,
                  known,
                  same,
                  ground (arith, e, status, get_or-get read_styles.by_id (parent_of row) [] found),
                  ground (arith, e, invalid),
                  e,
                )
              ]
        ]
      ]

  pub fine-HasParent : (row : Row) → All IsFine styles → IsFine row → HasParent styles row
  fine-HasParent row every fine = elim (parent_step row every fine) [
    | inl e ↦ inl e
    | inr (parent, known, same, status, other, _) ↦ inr (parent, known.0, same, status, other)
  ]

  chain-Rooted :
      (fuel : ℕ) (seen : List Text) (row : Row)
      → All IsFine styles
      → IsFine row
      → comes_back fuel read_styles.parents seen (parent_of row) ≡ some []
      → Rooted styles row
  unfolding comes_back
  chain-Rooted zero seen row every fine h = absurd cc
  chain-Rooted (suc fuel) seen row every fine h = elim (parent_step row every fine) [
    | inl e ↦ root e
    | inr (parent, known, same, _, _, some_parent) ↦
        let next : get_or read_styles.parents (parent_of row) [] ≡ parent_of parent =
          ap (λ (t : Text). get_or read_styles.parents t []) (sym same)
          ∙ get_or-get read_styles.parents (id_of parent) [] known.1 in
        child parent known.0 same (
          chain-Rooted fuel (parent_of row ∷ seen) parent every known
            (ground (arith, h, some_parent, next)))
  ]

  pub fine-Rooted : (row : Row) → All IsFine styles → IsFine row → Rooted styles row
  fine-Rooted row every fine =
      let (_, cycle, _) = entry_fine read_styles (id_of row) (parent_of row) fine.2 in
      chain-Rooted (chain_length read_styles.parents) (id_of row ∷ []) row every fine (
        chain_length-enough read_styles.parents (id_of row) (parent_of row) fine.1
        ∙ ap (λ (t : Text). some t) cycle)

  pub entries-IsFine :
      (targets : Dict (List Text))
      → rows_problems targets nothing_gathered styles ≡ []
      → entries_problems read_styles read_styles.parents ≡ []
      → All IsFine styles
  entries-IsFine targets rows entries =
      All-imp
        (λ row h. (
          h.0,
          h.1,
          entries_fine read_styles read_styles.parents (id_of row) (parent_of row) entries h.1,
        ))
        styles
        (All-zip (λ row. Mem row styles)
          (λ row. get read_styles.parents (id_of row) ≡ some (parent_of row)) styles
          (All-Mem (λ row. Mem row styles) styles (λ row m. m))
          (parents-get targets nothing_gathered styles rows))
