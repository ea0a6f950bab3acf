-- ===== src/Catalog/Search/Routes.antt =====
-- The routes of `search`: the domain that a search is about, and the row that is named.
use mathlib.Core.List.{Mem}
use mathlib.Core.Path.{subst}
use package.true.Catalog.Config.{csv_config}
use package.true.Catalog.Detailed.{File}
use package.true.Catalog.Domain.{Row, detect_domain}
use package.true.Catalog.Identity.{landing_fields, style_destination, style_identity}
use package.true.Catalog.Identity.Contained.{style_identity-Mem}
use package.true.Catalog.Identity.Destination.{style_destination-P}
use package.true.Catalog.Identity.Exact.{exact_row_identity-Mem}
use package.true.Catalog.Search.{
  Route, config_of, detected, first_route, load_rows_or_empty, products, route, search_domain_of,
  second_route, style_rows,
}
use package.true.Dict.{has_key}
use package.true.Floats.{Floats}
use package.true.Prelude.{
  All-Mem, AllSome, Bool, List, Option, Option-cases, arith, false, if-P, if-P_of, inl, inr,
  is_none, none, refl, some, true, ◌&&◌, ◌≡◌, ◌⊎◌,
}
use package.true.Text.{==_eq, Text, lit, ◌==◌}

abbrev pub rows_in : (Text → File) → Text → List Row
rows_in files domain = load_rows_or_empty (files (config_of (search_domain_of domain)).file)

-- The domain that an answer is about: the one that was given, if one was; else that of the styles,
-- if the query is the name of a style, and the one that is detected, if it is not.
abbrev pub IsDomain : (fl : Floats) (files : Text → File) → Text → Option Text → Text → Type 0
IsDomain fl files query (some given) domain = domain ≡ given
IsDomain fl files query none domain =
    ((is_none (style_identity (style_rows fl files) query false) ≡ false) × (domain ≡ lit "style"))
    ⊎ ((is_none (style_identity (style_rows fl files) query false) ≡ true)
        × (domain ≡ (detect_domain (products fl files) query).0))

module _ (fl : Floats) (files : Text → File) where
  abbrev pub IsRoute : Route → Type 0
  IsRoute r = AllSome (λ row. Mem row (rows_in files r.domain)) r.exact

  style_rows-eq :
      (sd : Text)
      → sd ≡ lit "style"
      → style_rows fl files ≡ load_rows_or_empty (files (config_of sd).file)
  unfolding style_rows
  style_rows-eq sd e = rw e refl

  -- the style that a query names, and where it leads
  style_route :
      (query : Text) (allow : Bool) (domain : Text)
      → search_domain_of domain ≡ lit "style"
      → AllSome
          (λ row. Mem row (rows_in files domain))
          (style_destination
            (style_rows fl files)
            (style_identity (style_rows fl files) query allow)).0
  style_route query allow domain e =
      let rows = style_rows fl files in
      let same = style_rows-eq (search_domain_of domain) e in
      let In : List Row → Type 0 = λ rs.
        AllSome (λ row. Mem row rs) (style_destination rows (style_identity rows query allow)).0 in
      subst In same (
        style_destination-P (λ row. Mem row rows) rows (style_identity rows query allow)
          (All-Mem (λ row. Mem row rows) rows (λ _ m. m)) (style_identity-Mem rows query allow))

  detected-IsRoute :
      (query : Text) (o : Option Row)
      → AllSome
          (λ row. Mem row (rows_in files (lit "style")))
          (style_destination (style_rows fl files) o).0
      → IsRoute (detected fl files query o)
  unfolding detected route
  detected-IsRoute query none h = tt
  detected-IsRoute query (some row) h = h

  pub first_route-IsRoute :
      (query : Text) (domain : Option Text) → IsRoute (first_route fl files query domain)
  unfolding first_route route search_domain_of
  first_route-IsRoute query (some domain) = tt
  first_route-IsRoute query none =
      detected-IsRoute query (style_identity (style_rows fl files) query false) (
        style_route query false (lit "style")
          (if-P (λ d. d ≡ lit "style") (has_key csv_config (lit "style")) refl refl))

  pub second_route-IsRoute :
      (query : Text) (r : Route)
      → IsRoute r
      → IsRoute (second_route fl files query (search_domain_of r.domain) r)
        × ((second_route fl files query (search_domain_of r.domain) r).domain ≡ r.domain)
  unfolding second_route route
  second_route-IsRoute query r h =
      let sd = search_domain_of r.domain in
      let Good : Route → Type 0 = λ q. IsRoute q × (q.domain ≡ r.domain) in
      if-P_of Good (sd == lit "style" && is_none r.exact && is_none r.redirect)
        (λ e. (style_route query true r.domain (==_eq sd (lit "style") (ground (arith, e))), refl))
        (λ _.
          if-P Good (sd == lit "landing")
            (exact_row_identity-Mem (rows_in files r.domain) query landing_fields, refl) (h, refl))

  pub first_route-IsDomain :
      (query : Text) (domain : Option Text)
      → IsDomain fl files query domain (first_route fl files query domain).domain
  unfolding first_route detected route
  first_route-IsDomain query (some domain) = refl
  first_route-IsDomain query none =
      elim (Option-cases (style_identity (style_rows fl files) query false)) [
        | inl e ↦ rw (e, first_route, detected) (inr (refl, refl))
        | inr (row, e) ↦ rw (e, first_route, detected) (inl (refl, refl))
      ]
