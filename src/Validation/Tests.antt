-- ===== src/Validation/Tests.antt =====
-- A catalog of three styles, as the contract passes it, and one that it refuses.
use package.true.Catalog.Domain.{Row}
use package.true.Dict.{Dict, get, get_or, put}
use package.true.Prelude.{List, [], length, refl, some, ◌∷◌, ◌≡◌}
use package.true.Regex.{fullmatch}
use package.true.Sort.{sort_asc}
use package.true.Text.{Text, Text-discrete, lit, text_less, to_set}
use package.true.Validation.References.{chain_length, comes_back, cycle_through, identity_problems}
use package.true.Validation.References.Cycle.{chain_length-enough}
use package.true.Validation.References.Sound.{IsCatalog, identity_problems-IsCatalog}
use package.true.Validation.Styles.{gathered, row_problems}

style_row : Text → Text → Text → Text → Row
style_row id name status parent =
    (lit "Style ID", id)
    ∷ (lit "Style Category", name)
    ∷ (lit "Status", status)
    ∷ (lit "Parent Style ID", parent)
    ∷ []

abbrev three_styles : List Row
three_styles =
    style_row (lit "flat") (lit "Flat Design") (lit "active") []
    ∷ style_row (lit "flat-2") (lit "Flat 2.0") (lit "supplemental") (lit "flat")
    ∷ style_row (lit "old-flat") (lit "Old Flat") (lit "deprecated") (lit "flat")
    ∷ []

abbrev one_product : List Row
one_product = ((lit "Primary Style Recommendation", lit "Flat Design + FLAT-2") ∷ []) ∷ []

abbrev one_rule : List Row
one_rule = ((lit "Style_Priority", lit "flat 2.0") ∷ []) ∷ []

no_problem : identity_problems [] three_styles one_product one_rule ≡ []
unfolding identity_problems row_problems fullmatch get_or style_row Text-discrete lit put gathered
    sort_asc to_set text_less
no_problem = refl

-- the chain of parents from "a" leads into a cycle that "a" is not on
abbrev chain : Dict Text
chain = (lit "a", lit "b") ∷ (lit "b", lit "c") ∷ (lit "c", lit "b") ∷ []

chain_comes_back : cycle_through chain (lit "a") (lit "b") ≡ lit "b"
unfolding cycle_through lit Text-discrete get_or
chain_comes_back = refl

-- a style that is its own parent: the parent is invalid, and there is a cycle
abbrev own_parent : List Row
own_parent = style_row (lit "a") (lit "A") (lit "active") (lit "a") ∷ []

own_parent_found : length (identity_problems [] own_parent [] []) ≡ 2
unfolding identity_problems row_problems fullmatch get_or style_row Text-discrete lit put gathered
    sort_asc to_set text_less
own_parent_found = refl

identity_problems-IsCatalog_example : IsCatalog [] three_styles one_product one_rule
identity_problems-IsCatalog_example =
    identity_problems-IsCatalog [] three_styles one_product one_rule no_problem

chain_found : get chain (lit "a") ≡ some (lit "b")
unfolding get lit Text-discrete
chain_found = refl

chain_length-enough_example :
    comes_back (chain_length chain) chain (lit "a" ∷ []) (lit "b")
    ≡ some (cycle_through chain (lit "a") (lit "b"))
chain_length-enough_example = chain_length-enough chain (lit "a") (lit "b") chain_found
