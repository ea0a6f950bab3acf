-- ===== src/Validation/References.antt =====
-- `_check_style_contract`: the parents of the styles, and the styles that products and rules refer to.
pub mod Cycle
pub mod Sound
pub mod Parents
use package.true.Catalog.Domain.{Row}
use package.true.DesignSystem.Mode.{first_row}
use package.true.Dict.{Dict, get, get_or}
use package.true.Prelude.{
  List, Option, [], if◌then◌else◌, is_empty, length, none, not, some, suc, zero, ℕ, ◌&&◌, ◌++◌, ◌+◌,
  ◌||◌, ◌∷◌,
}
use package.true.Sort.{sort_asc}
use package.true.Text.{Text, contains, lit, lower, text_less, to_set, ◌==◌}
use package.true.Validation.Problems.{flag, split_parts}
use package.true.Validation.Styles.{
  Gathered, gather, given, id_of, nothing_gathered, rows_problems, status_of,
}

-- while current: the style that the chain of parents comes back to, or no text where the chain ends;
-- `none` where the fuel runs out
unfoldable pub comes_back : ℕ → Dict Text → List Text → Text → Option Text
comes_back zero parents seen current = none
comes_back (suc fuel) parents seen current =
    let rest = comes_back fuel parents (current ∷ seen) (get_or parents current []) in
    if is_empty current then some [] else if contains seen current then some current else rest

unfoldable pub chain_length : Dict Text → ℕ
chain_length parents = length parents + 2

unfoldable pub cycle_through : Dict Text → Text → Text → Text
unfolding comes_back chain_length
cycle_through parents style_id parent =
    elim (comes_back (chain_length parents) parents (style_id ∷ []) parent) [
      | none ↦ []
      | some t ↦ t
    ]

parent_problem : Text → Text → Text
parent_problem style_id message = lit "[style:" ++ (style_id ++ (lit "] " ++ message))

-- for style_id, parent in parents.items()
unfoldable pub entry_problems : Gathered → Text × Text → List Text
unfolding flag parent_problem cycle_through status_of
entry_problems g (style_id, parent) =
    let current = cycle_through g.parents style_id parent in
    flag (given parent && (not (contains g.ids parent) || parent == style_id))
      (parent_problem style_id (lit "invalid parent '" ++ (parent ++ lit "'")))
    ++ (flag (given current)
          (parent_problem style_id (lit "parent cycle through '" ++ (current ++ lit "'")))
        ++ flag (given parent && not (status_of (get_or g.by_id parent []) == lit "active"))
            (parent_problem style_id (lit "parent must target an active style")))

unfoldable pub entries_problems : Gathered → Dict Text → List Text
unfolding entry_problems
entries_problems g [] = []
entries_problems g (entry ∷ entries) = entry_problems g entry ++ entries_problems g entries

product_references : List Row → List Text
unfolding split_parts
product_references [] = []
product_references (row ∷ rows) =
    split_parts b'+' (get_or row (lit "Primary Style Recommendation") [])
    ++ (split_parts b',' (get_or row (lit "Secondary Styles") []) ++ product_references rows)

rule_references : List Row → List Text
unfolding split_parts
rule_references [] = []
rule_references (row ∷ rows) =
    split_parts b'+' (get_or row (lit "Style_Priority") []) ++ rule_references rows

-- sorted(set(references))
unfoldable pub references_of : List Row → List Row → List Text
unfolding product_references rule_references
references_of products reasoning =
    sort_asc text_less (to_set (product_references products ++ rule_references reasoning))

reference_problem : Text → Text → List Text
reference_problem what reference =
    (lit "[style] " ++ (what ++ (lit " '" ++ (reference ++ lit "'")))) ∷ []

-- The rows of the lookup's identities are rows of the styles, so that `next` finds one.
deprecated_problems : List Row → Text → Text → List Text
unfolding reference_problem first_row status_of id_of
deprecated_problems styles id reference = elim (first_row (λ row. id_of row == id) styles) [
  | none ↦ []
  | some row ↦
      if status_of row == lit "deprecated"
      then reference_problem (lit "reference targets deprecated style") reference
      else []
]

unfoldable pub reference_problems : List Row → Dict Text → Text → List Text
unfolding reference_problem deprecated_problems lower
reference_problems styles lookup reference = elim (get lookup (lower reference)) [
  | none ↦ reference_problem (lit "unresolved reference") reference
  | some [] ↦ reference_problem (lit "unresolved reference") reference
  | some (c ∷ t) ↦ deprecated_problems styles (c ∷ t) reference
]

unfoldable pub all_reference_problems : List Row → Dict Text → List Text → List Text
unfolding reference_problems
all_reference_problems styles lookup [] = []
all_reference_problems styles lookup (reference ∷ references) =
    reference_problems styles lookup reference ++ all_reference_problems styles lookup references

-- the problems that `_check_style_contract` finds before the vocabulary
unfoldable pub identity_problems : Dict (List Text) → List Row → List Row → List Row → List Text
unfolding rows_problems gather entries_problems all_reference_problems references_of
identity_problems targets styles products reasoning =
    let g = gather nothing_gathered styles in
    rows_problems targets nothing_gathered styles
    ++ (entries_problems g g.parents
        ++ all_reference_problems styles g.lookup (references_of products reasoning))
