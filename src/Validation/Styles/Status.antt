-- ===== src/Validation/Styles/Status.antt =====
-- What a row of a style without a problem says of its status, its parent and its redirect.
use package.true.Catalog.Domain.{Row}
use package.true.Dict.{Dict, get_or}
use package.true.Prelude.{
  Bool, Bool-cases, List, [], any, arith, false, if◌then◌else◌, inl, inr, is_empty, not, refl, true,
  ◌&&◌, ◌++◌, ◌||◌, ◌∷◌, ◌≡◌, ◌⊎◌,
}
use package.true.Text.{Text, Text-discrete, contains, lit, ◌==◌}
use package.true.Validation.Problems.{flag}
use package.true.Validation.Styles.{
  given, has_redirect, parent_of, redirect_domain, redirect_id, same_truth, status_of,
  status_problems, style_statuses,
}

-- The status of a row, and what must come with it: a supplemental style has a parent, a deprecated one
-- either a parent or a redirect to a row that there is, and no other style a redirect.
pub data HasStatus (targets : Dict (List Text)) (row : Row) : Type 0 where
  active :
      status_of row ≡ lit "active"
      → redirect_domain row ≡ []
      → redirect_id row ≡ []
      → HasStatus targets row
  supplemental :
      status_of row ≡ lit "supplemental"
      → is_empty (parent_of row) ≡ false
      → redirect_domain row ≡ []
      → redirect_id row ≡ []
      → HasStatus targets row
  replaced :
      status_of row ≡ lit "deprecated"
      → is_empty (parent_of row) ≡ false
      → (is_empty (redirect_domain row) || is_empty (redirect_id row)) ≡ true
      → HasStatus targets row
  redirected :
      status_of row ≡ lit "deprecated"
      → parent_of row ≡ []
      → is_empty (redirect_domain row) ≡ false
      → is_empty (redirect_id row) ≡ false
      → contains (get_or targets (redirect_domain row) []) (redirect_id row) ≡ true
      → HasStatus targets row

pub empty_text : (t : Text) → is_empty t ≡ true → t ≡ []
empty_text [] h = refl
empty_text (c ∷ t) h = absurd cc

pub not-given : (t : Text) → given t ≡ false → t ≡ []
not-given [] h = refl
not-given (c ∷ t) h = absurd cc

status_cases :
    (s : Text)
    → contains style_statuses s ≡ true
    → (s ≡ lit "active") ⊎ (s ≡ lit "supplemental") ⊎ (s ≡ lit "deprecated")
unfolding style_statuses
status_cases s h = ground arith

-- the tests of a row of which none finds a problem
tests_fine :
    (valid orphan deprecated parent redirect unknown any : Bool) (a b c d e : Text)
    → flag (not valid) a
        ++ (flag orphan b
            ++ (if deprecated
                then flag (same_truth parent redirect) c ++ flag (redirect && unknown) d
                else flag any e))
      ≡ []
    → (valid ≡ true)
      × (orphan ≡ false)
      × ((deprecated && (same_truth parent redirect || (redirect && unknown))) ≡ false)
      × ((not deprecated && any) ≡ false)
unfolding flag same_truth
tests_fine false orphan deprecated parent redirect unknown any a b c d e h = absurd cc
tests_fine true true deprecated parent redirect unknown any a b c d e h = absurd cc
tests_fine true false false parent redirect unknown true a b c d e h = absurd cc
tests_fine true false false parent redirect unknown false a b c d e h = (refl, refl, refl, refl)
tests_fine true false true true true unknown any a b c d e h = absurd cc
tests_fine true false true true false unknown any a b c d e h = (refl, refl, refl, refl)
tests_fine true false true false false unknown any a b c d e h = absurd cc
tests_fine true false true false true true any a b c d e h = absurd cc
tests_fine true false true false true false any a b c d e h = (refl, refl, refl, refl)

apart : (lit "deprecated" == lit "active") ≡ false
unfolding lit Text-discrete
apart = refl

apart_supplemental : (lit "deprecated" == lit "supplemental") ≡ false
unfolding lit Text-discrete
apart_supplemental = refl

deprecated-HasStatus :
    (targets : Dict (List Text)) (row : Row)
    → status_of row ≡ lit "deprecated"
    → (same_truth (given (parent_of row)) (has_redirect row)
        || (has_redirect row
            && not (contains (get_or targets (redirect_domain row) []) (redirect_id row))))
      ≡ false
    → HasStatus targets row
unfolding same_truth has_redirect
deprecated-HasStatus targets row s h = elim (Bool-cases (is_empty (parent_of row))) [
  | inl e ↦
      redirected s (empty_text (parent_of row) e) (ground (arith, e)) (ground (arith, e))
        (ground (arith, e))
  | inr e ↦ replaced s e (ground (arith, e))
]

pub status-HasStatus :
    (targets : Dict (List Text)) (row : Row)
    → status_problems targets row ≡ []
    → HasStatus targets row
unfolding status_problems
status-HasStatus targets row h =
    let (valid, orphan, deprecated, other) =
      tests_fine (contains style_statuses (status_of row)) _ (status_of row == lit "deprecated")
        (given (parent_of row)) (has_redirect row) _ _ _ _ _ _ _ h in
    elim (status_cases (status_of row) valid) [
      | inl e ↦
          active e (empty_text (redirect_domain row) (ground (arith, apart)))
            (empty_text (redirect_id row) (ground (arith, apart)))
      | inr (inl e) ↦
          supplemental e (ground (arith))
            (empty_text (redirect_domain row) (ground (arith, apart_supplemental)))
            (empty_text (redirect_id row) (ground (arith, apart_supplemental)))
      | inr (inr e) ↦ deprecated-HasStatus targets row e (ground arith)
    ]
