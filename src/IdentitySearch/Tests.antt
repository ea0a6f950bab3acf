-- ===== src/IdentitySearch/Tests.antt =====
-- Runs of the search over corporate identities.
use package.true.Catalog.Domain.{Row}
use package.true.Floats.{whole_floats}
use package.true.IdentitySearch.{best_or_deliverable, cip_domain, cip_keywords, get_cip_brief}
use package.true.IdentitySearch.Brief.{IsFrom, get_cip_brief-IsFrom}
use package.true.Prelude.{
  All, List, Option, [], if◌then◌else◌, length, none, refl, some, ◌∷◌, ◌≡◌, ◌≤◌, ◌⊎◌,
}
use package.true.SlideSearch.Search.{first_best}
use package.true.Text.{Text, lit, lower, lower_char, ◌==◌}
use package.true.Text.Cut.{has, starts_with}

card : cip_domain (lit "Business CARD mockup") ≡ lit "deliverable"
unfolding cip_domain best_or_deliverable first_best cip_keywords has starts_with lower lower_char
    lit
card = refl

abbrev files : Text → Option (List Row)
files name =
    if name == lit "industries.csv"
    then some (
        ((lit "Industry", lit "Finance") ∷ (lit "Key Deliverables", lit "card letterhead") ∷ [])
        ∷ [])
    else none

get_cip_brief-IsFrom_example :
    let brief = get_cip_brief whole_floats files (lit "Acme") (lit "finance") none in
    ((brief.industry ≡ []) ⊎ IsFrom files (lit "industry") brief.industry)
    × ((brief.style ≡ []) ⊎ IsFrom files (lit "style") brief.style)
    × All (IsFrom files (lit "deliverable")) brief.recommended_deliverables
    × (length brief.recommended_deliverables ≤ 5)
get_cip_brief-IsFrom_example =
    get_cip_brief-IsFrom whole_floats files (lit "Acme") (lit "finance") none
