-- ===== src/Catalog/Stack/Generation.antt =====
-- The results of `search_stack` are rows of one generation of the stack.
-- The text of a status stands in the status column of the row.
use mathlib.Core.List.{Mem}
use mathlib.Core.Path.{subst}
use package.true.Catalog.Config.{stack_output_cols}
use package.true.Catalog.Detailed.{project_row}
use package.true.Catalog.Detailed.Rows.{IsProjection}
use package.true.Catalog.Domain.{Row}
use package.true.Catalog.Stack.Filter.{
  Generation, base_for, current_only, generation_of, has_status, kept_in, legacy_only,
  legacy_unavailable, non_legacy, stack_row_filter, status_filter,
}
use package.true.Catalog.Stack.Legacy.{requests_legacy, stack_current_versions}
use package.true.Dict.{get, get_or, get_or-get, get_or-missing, has_key}
use package.true.Prelude.{
  All, All-imp, Bool, Bool-cases, List, Option, Option-cases, String, [], all, any, arith, false,
  inl, inr, none, not, refl, some, sym, true, ◌∙◌, ◌∷◌, ◌≡◌, ◌⊎◌,
}
use package.true.Text.{Text, lit, ◌==◌}

abbrev is_status : String → Row → Bool
is_status status row = get_or row (lit "Status") (lit "unverified") == lit status

-- The result shows a row of the stack that the test holds of.
abbrev pub IsShown : List Row → (Row → Bool) → Row → Type 0
IsShown rows test result =
    (row : Row) × ((Mem row rows × (test row ≡ true))
      × (result ≡ project_row row stack_output_cols))

pub record IsCoherent (rows : List Row) (query stack : Text) (results : List Row) : Type 0 where
  pub current :
      requests_legacy query stack ≡ false
      → All (IsShown rows (λ row. not (is_status "deprecated" row))) results
  pub active :
      requests_legacy query stack ≡ false
      → any (is_status "active") rows ≡ true
      → All (IsShown rows (is_status "active")) results
  pub legacy :
      requests_legacy query stack ≡ true
      → any (is_status "deprecated") rows ≡ true
      → All (IsShown rows (is_status "deprecated")) results
  pub unavailable :
      requests_legacy query stack ≡ true
      → any (is_status "deprecated") rows ≡ false
      → has_key stack_current_versions stack ≡ true
      → results ≡ []
  pub successor :
      requests_legacy query stack ≡ true
      → any (is_status "deprecated") rows ≡ false
      → has_key stack_current_versions stack ≡ false
      → any (is_status "active") rows ≡ true
      → All (IsShown rows (is_status "active")) results

generation_current :
    (rows : List Row) (query stack : Text)
    → requests_legacy query stack ≡ false
    → (generation_of rows query stack ≡ current_only)
      ⊎ (generation_of rows query stack ≡ non_legacy)
unfolding generation_of
generation_current rows query stack h = elim (Bool-cases (has_status "active" rows)) [
  | inl e ↦ inl (ground (arith, h, e))
  | inr e ↦ inr (ground (arith, h, e))
]

generation_legacy :
    (rows : List Row) (query stack : Text)
    → requests_legacy query stack ≡ true
    → any (is_status "deprecated") rows ≡ true
    → generation_of rows query stack ≡ legacy_only
unfolding generation_of has_status
generation_legacy rows query stack h k = ground (arith, h, k)

generation_unavailable :
    (rows : List Row) (query stack : Text)
    → requests_legacy query stack ≡ true
    → any (is_status "deprecated") rows ≡ false
    → has_key stack_current_versions stack ≡ true
    → generation_of rows query stack ≡ legacy_unavailable
unfolding generation_of has_status
generation_unavailable rows query stack h k v = ground (arith, h, k, v)

generation_active :
    (rows : List Row) (query stack : Text)
    → requests_legacy query stack ≡ false
    → any (is_status "active") rows ≡ true
    → generation_of rows query stack ≡ current_only
unfolding generation_of has_status
generation_active rows query stack h k = ground (arith, h, k)

generation_successor :
    (rows : List Row) (query stack : Text)
    → requests_legacy query stack ≡ true
    → any (is_status "deprecated") rows ≡ false
    → has_key stack_current_versions stack ≡ false
    → any (is_status "active") rows ≡ true
    → generation_of rows query stack ≡ current_only
unfolding generation_of has_status
generation_successor rows query stack h k v a = ground (arith, h, k, v, a)

-- What a filter keeps has the status of the generation.
stack_row_filter-status :
    (generation : Generation) (base : Option Text) (row : Row)
    → kept_in generation base row ≡ true
    → status_filter generation row ≡ true
unfolding kept_in
stack_row_filter-status generation none row h = h
stack_row_filter-status generation (some base) row h = ground arith

status_or_unverified :
    (row : Row)
    → (get_or row (lit "Status") [] ≡ get_or row (lit "Status") (lit "unverified"))
      ⊎ (get_or row (lit "Status") [] ≡ [])
status_or_unverified row = elim (Option-cases (get row (lit "Status"))) [
  | inl e ↦ inr (get_or-missing row (lit "Status") [] e)
  | inr (v, e) ↦ inl (
      get_or-get row (lit "Status") [] e ∙ sym (get_or-get row (lit "Status") (lit "unverified") e))
]

status_current :
    (row : Row) → status_filter current_only row ≡ true → not (is_status "deprecated" row) ≡ true
unfolding status_filter lit
status_current row h = elim (status_or_unverified row) [
  | inl e ↦ ground (arith, e, h)
  | inr e ↦ ground (arith, e, h)
]

status_active : (row : Row) → status_filter current_only row ≡ true → is_status "active" row ≡ true
unfolding status_filter lit
status_active row h = elim (status_or_unverified row) [
  | inl e ↦ ground (arith, e, h)
  | inr e ↦ ground (arith, e, h)
]

status_legacy :
    (row : Row) → status_filter legacy_only row ≡ true → is_status "deprecated" row ≡ true
unfolding status_filter lit
status_legacy row h = elim (status_or_unverified row) [
  | inl e ↦ ground (arith, e, h)
  | inr e ↦ ground (arith, e, h)
]

module _ (rows : List Row) (query stack : Text) where
  -- A row that the filter keeps, in a generation.
  kept_in-IsShown :
      (generation : Generation) (test : Row → Bool) (result : Row)
      → generation_of rows query stack ≡ generation
      → ((row : Row) → status_filter generation row ≡ true → test row ≡ true)
      → IsProjection rows (stack_row_filter rows query stack) stack_output_cols result
      → IsShown rows test result
  unfolding stack_row_filter
  kept_in-IsShown generation test result e f (row, ((m, keeps), shown)) =
      let status =
        stack_row_filter-status (generation_of rows query stack) (base_for query stack) row keeps in
      (row, ((m, f row (subst (λ (g : Generation). status_filter g row ≡ true) e status)), shown))

  current-IsShown :
      (result : Row)
      → requests_legacy query stack ≡ false
      → IsProjection rows (stack_row_filter rows query stack) stack_output_cols result
      → IsShown rows (λ row. not (is_status "deprecated" row)) result
  unfolding status_filter
  current-IsShown result h p = elim (generation_current rows query stack h) [
    | inl e ↦
        kept_in-IsShown current_only (λ row. not (is_status "deprecated" row)) result e
          status_current p
    | inr e ↦
        kept_in-IsShown non_legacy (λ row. not (is_status "deprecated" row)) result e (λ row k. k) p
  ]

  none_shown :
      (results : List Row)
      → generation_of rows query stack ≡ legacy_unavailable
      → All (IsProjection rows (stack_row_filter rows query stack) stack_output_cols) results
      → results ≡ []
  unfolding status_filter
  none_shown [] e all = refl
  none_shown (result ∷ results) e all =
      let (row, ((m, kept), shown)) =
        kept_in-IsShown legacy_unavailable (λ row. false) result e (λ row k. k) all.0 in
      absurd (cc)

  -- Where results are rows that the filter keeps, they are of one generation.
  pub kept-IsCoherent :
      (results : List Row)
      → All (IsProjection rows (stack_row_filter rows query stack) stack_output_cols) results
      → IsCoherent rows query stack results
  kept-IsCoherent results all = record {
    current = λ h. All-imp (λ result p. current-IsShown result h p) results all;
    active = λ h k.
        All-imp
          (λ result p.
            kept_in-IsShown current_only (is_status "active") result
              (generation_active rows query stack h k) status_active p)
          results all;
    legacy = λ h k.
        All-imp
          (λ result p.
            kept_in-IsShown legacy_only (is_status "deprecated") result
              (generation_legacy rows query stack h k) status_legacy p)
          results all;
    unavailable = λ h k v. none_shown results (generation_unavailable rows query stack h k v) all;
    successor = λ h k v a.
        All-imp
          (λ result p.
            kept_in-IsShown current_only (is_status "active") result
              (generation_successor rows query stack h k v a) status_active p)
          results all;
  }
