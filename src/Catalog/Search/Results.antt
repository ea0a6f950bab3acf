-- ===== src/Catalog/Search/Results.antt =====
-- What an answer of `search` holds.
use mathlib.Core.List.{Mem}
use mathlib.Core.Path.{subst}
use package.true.Catalog.Detailed.{
  File, Found, holds, missing, project_row, search_csv_detailed, unreadable,
}
use package.true.Catalog.Detailed.Rows.{IsProjection, search_csv_detailed-AreResults}
use package.true.Catalog.Domain.{Row, contains_phrase, domain_keywords}
use package.true.Catalog.Identity.{Redirect}
use package.true.Catalog.Normalize.{normalize}
use package.true.Catalog.Search.{
  Answer, Argument, Response, Route, answer_of, answered, bad_max_results, boolean, config_of,
  file_not_found, first_route, found_on, is_missing, natural, negative, no_number, products,
  request_of, search, search_domain_of, search_from, second_route, suggestions_of,
  valid_max_results, without_lucide,
}
use package.true.Catalog.Search.Routes.{
  IsDomain, IsRoute, first_route-IsDomain, first_route-IsRoute, rows_in, second_route-IsRoute,
}
use package.true.Floats.{Floats}
use package.true.Prelude.{
  All, All-imp, AllSome, Bool, Option, Option-cases, arith, false, if-P, if-P_of, inl, inr,
  is_empty, is_none, length, none, not, refl, some, sym, true, ℕ, ◌&&◌, ◌≡◌, ◌≢◌, ◌≤◌,
}
use package.true.Text.{Text, lit, lower, ◌==◌}

-- Each result shows a row of the file of the domain, there are no more than were asked for, and
-- suggestions come if and only if there are no results.
abbrev pub IsAnswer : (fl : Floats) (files : Text → File) → ℕ → Answer fl files → Type 0
IsAnswer fl files n a =
    All
      (λ result.
        (row : Row) × (Mem row (rows_in files a.domain)
          × (result ≡ project_row row (config_of (search_domain_of a.domain)).output_cols)))
      a.results
    × ((length a.results ≤ n) × (is_none a.suggestions ≡ not (is_empty a.results)))

module _ (fl : Floats) (files : Text → File) where
  abbrev IsFound : Text → ℕ → Found fl → Type 0
  IsFound domain n found =
      All
        (λ result.
          (row : Row) × (Mem row (rows_in files domain)
            × (result ≡ project_row row (config_of (search_domain_of domain)).output_cols)))
        found.results
      × (length found.results ≤ n)

  found_on-IsFound :
      (query domain : Text) (n : ℕ) (exact : Option Row) (redirect : Option Redirect)
      → 1 ≤ n
      → AllSome (λ row. Mem row (rows_in files domain)) exact
      → IsFound domain n (found_on fl files query (search_domain_of domain) n exact redirect)
  unfolding found_on request_of
  found_on-IsFound query domain n (some row) redirect one h =
      (((row, (h, refl)), tt), omega (arith, one))
  found_on-IsFound query domain n none (some there) one h = (tt, omega arith)
  found_on-IsFound query domain n none none one h =
      let sd = search_domain_of domain in
      let r = request_of fl files query sd n in
      let found =
        search_csv_detailed-AreResults fl (domain_keywords (products fl files)) r
          (files (config_of sd).file) in
      (
        All-imp
            (λ (result : Row)
                (p : IsProjection (rows_in files domain) r.row_filter r.output_cols result).
              (p.0, (p.1.0.0, p.1.1)))
            (search_csv_detailed fl (domain_keywords (products fl files)) r
              (files (config_of sd).file)).results
            found.0,
        found.1.0,
      )

  without_lucide-IsFound :
      (query domain : Text) (n : ℕ) (found : Found fl)
      → IsFound domain n found
      → IsFound domain n (without_lucide fl files query (search_domain_of domain) found)
  unfolding without_lucide
  without_lucide-IsFound query domain n found h =
      if-P (IsFound domain n)
        (search_domain_of domain == lit "icons"
          && contains_phrase (normalize (lower query)) (lit "lucide"))
        (tt, omega arith) h

  suggestions_of-eq :
      (query sd : Text) (found : Found fl)
      → is_none (suggestions_of fl files query sd found) ≡ not (is_empty found.results)
  unfolding suggestions_of
  suggestions_of-eq query sd found = ground arith

-- What a response means: an invalid number is refused, the file of the domain is said to be missing
-- only if it is, and everything else is an answer from a file that there is.
abbrev pub IsResponse :
    (fl : Floats) (files : Text → File) → Text → Option Text → Argument → Response fl files → Type 0
IsResponse fl files query given max_results bad_max_results = valid_max_results max_results ≡ none
IsResponse fl files query given max_results (file_not_found file) =
    (n : ℕ) × (valid_max_results max_results ≡ some n)
    × ((domain : Text) × IsDomain fl files query given domain
        × (file ≡ (config_of (search_domain_of domain)).file))
    × (files file ≡ missing)
IsResponse fl files query given max_results (answered a) =
    (n : ℕ) × (valid_max_results max_results ≡ some n)
    × IsDomain fl files query given a.domain
    × (files (config_of (search_domain_of a.domain)).file ≢ missing)
    × IsAnswer fl files n a

pub is_missing-eq :
    (fl : Floats) (files : Text → File) (file : File)
    → is_missing fl files file ≡ true
    → file ≡ missing
unfolding is_missing
is_missing-eq fl files missing e = refl
is_missing-eq fl files unreadable e = absurd (cc)
is_missing-eq fl files (holds rows) e = absurd (cc)

pub there_is :
    (fl : Floats) (files : Text → File) (file : File)
    → is_missing fl files file ≡ false
    → file ≢ missing
unfolding is_missing
there_is fl files missing e = absurd (cc)
there_is fl files unreadable e = λ same. cc
there_is fl files (holds rows) e = λ same. cc

pub valid_max_results-ge :
    (max_results : Argument) (n : ℕ) → valid_max_results max_results ≡ some n → 1 ≤ n
unfolding valid_max_results
valid_max_results-ge (natural m) n e = ground arith
valid_max_results-ge negative n e = absurd (cc)
valid_max_results-ge (boolean b) n e = absurd (cc)
valid_max_results-ge no_number n e = absurd (cc)

module _ (fl : Floats) (files : Text → File) (query : Text) where
  respond-IsAnswer :
      (domain : Text) (n : ℕ) (auto : Bool) (r : Route) (found : Found fl)
      → r.domain ≡ domain
      → IsFound fl files domain n found
      → IsAnswer fl files n (answer_of fl files query (search_domain_of domain) auto r found)
  unfolding answer_of
  respond-IsAnswer domain n auto r found e h =
      let k = subst (λ d. IsFound fl files d n found) (sym e) h in
      (k.0, (k.1, suggestions_of-eq fl files query (search_domain_of domain) found))

  search_from-IsResponse :
      (given : Option Text) (max_results : Argument) (n : ℕ) (auto : Bool) (r : Route)
      → valid_max_results max_results ≡ some n
      → IsDomain fl files query given r.domain
      → IsRoute fl files r
      → IsResponse fl files query given max_results (search_from fl files query n auto r)
  unfolding search_from answer_of
  search_from-IsResponse given max_results n auto r e about h =
      let sd = search_domain_of r.domain in
      let file = (config_of sd).file in
      let r2 = second_route fl files query sd r in
      let (good, same) = second_route-IsRoute fl files query r h in
      let Mem_in : Text → Type 0 = λ d. AllSome (λ row. Mem row (rows_in files d)) r2.exact in
      let found =
        found_on-IsFound fl files query r.domain n r2.exact r2.redirect
          (valid_max_results-ge max_results n e) (subst Mem_in same good) in
      let There : Text → Type 0 = λ d. files (config_of (search_domain_of d)).file ≢ missing in
      if-P_of (IsResponse fl files query given max_results) (is_missing fl files (files file))
        (λ f. (n, e, (r.domain, about, refl), is_missing-eq fl files (files file) f))
        (λ f. (
          n,
          e,
          subst (λ d. IsDomain fl files query given d) (sym same) about,
          subst There (sym same) (there_is fl files (files file) f),
          respond-IsAnswer r.domain n auto r2
              (without_lucide fl files query sd (found_on fl files query sd n r2.exact r2.redirect))
              same
              (without_lucide-IsFound fl files query r.domain n
                (found_on fl files query sd n r2.exact r2.redirect) found),
        ))

  -- A search refuses exactly the numbers that are not valid, whatever files there are. The domain is
  -- the one that was given, if one was; else that of the styles where the query names a style exactly,
  -- and the detected one where it does not. For a valid number the search says that a file is missing
  -- exactly where the file of the domain is; otherwise it answers with rows of that file, projected to
  -- the columns of the domain, no more of them than were asked for, and with suggestions if and only
  -- if there are no results.
  pub search-IsResponse :
      (domain : Option Text) (max_results : Argument)
      → IsResponse fl files query domain max_results (search fl files query domain max_results)
  unfolding search
  search-IsResponse domain max_results = elim (Option-cases (valid_max_results max_results)) [
    | inl e ↦ rw (e, search) e
    | inr (n, e) ↦
        rw (e, search)
          (search_from-IsResponse domain max_results n (is_none domain)
            (first_route fl files query domain) e (first_route-IsDomain fl files query domain)
            (first_route-IsRoute fl files query domain))
  ]
