-- ===== src/Catalog/Identity/Destination.antt =====
-- Where a style leads: `_style_search_destination`.
use package.true.Catalog.Domain.{Row}
use package.true.Catalog.Identity.{Redirect, find_style, style_destination}
use package.true.Dict.{get, get_or}
use package.true.Prelude.{
  All, AllSome, List, Option, Option-cases, [], arith, if-P, inl, inr, is_empty, is_none, none, not,
  refl, some, true, ◌&&◌, ◌||◌, ◌∷◌, ◌≡◌,
}
use package.true.Text.{Text, lit, ◌==◌}
use package.true.Text.Cut.{strip}

module _ (P : Row → Type 0) where
  find_style-P : (rows : List Row) (id : Text) → All P rows → AllSome P (find_style rows id)
  unfolding find_style
  find_style-P [] id h = tt
  find_style-P (row ∷ rows) id h = elim (Option-cases (get row (lit "Style ID"))) [
    | inl e ↦ rw (e, find_style) (find_style-P rows id h.1)
    | inr (k, e) ↦ rw (e, find_style) (if-P (AllSome P) (k == id) h.0 (find_style-P rows id h.1))
  ]

  -- The destination is the row itself or another one of the rows.
  pub style_destination-P :
      (rows : List Row) (row : Option Row)
      → All P rows
      → AllSome P row
      → AllSome P (style_destination rows row).0
  unfolding style_destination
  style_destination-P rows none h k = tt
  style_destination-P rows (some row) h k =
      let is_old = get_or row (lit "Status") (lit "active") == lit "deprecated" in
      let parent_id = strip (get_or row (lit "Parent Style ID") []) in
      let domain = strip (get_or row (lit "Replacement Domain") []) in
      let replacement_id = strip (get_or row (lit "Replacement ID") []) in
      let Goes : Option Row × Option Redirect → Type 0 = λ d. AllSome P d.0 in
      if-P Goes (not is_old) k (
        if-P Goes (not (is_empty parent_id)) (find_style-P rows parent_id h) (
          if-P Goes (domain == lit "style" && not (is_empty replacement_id))
            (find_style-P rows replacement_id h)
            (if-P Goes (not (is_empty domain) && not (is_empty replacement_id)) tt tt)))

-- A row and a redirect never come together.
pub style_destination-apart :
    (rows : List Row) (row : Option Row)
    → (is_none (style_destination rows row).0 || is_none (style_destination rows row).1) ≡ true
unfolding style_destination
style_destination-apart rows none = refl
style_destination-apart rows (some row) =
    let is_old = get_or row (lit "Status") (lit "active") == lit "deprecated" in
    let parent_id = strip (get_or row (lit "Parent Style ID") []) in
    let domain = strip (get_or row (lit "Replacement Domain") []) in
    let replacement_id = strip (get_or row (lit "Replacement ID") []) in
    let Apart : Option Row × Option Redirect → Type 0 = λ d. (is_none d.0 || is_none d.1) ≡ true in
    let only_row : (o : Option Row) → Apart (o, none) = λ o. ground arith in
    if-P Apart (not is_old) refl (
      if-P Apart (not (is_empty parent_id)) (only_row (find_style rows parent_id)) (
        if-P Apart (domain == lit "style" && not (is_empty replacement_id))
          (only_row (find_style rows replacement_id))
          (if-P Apart (not (is_empty domain) && not (is_empty replacement_id)) refl refl)))
