-- ===== src/Catalog/Identity.antt =====
-- The rows that a query names outright: public identities, and where a deprecated style leads.
pub mod Exact
pub mod Contained
pub mod Destination
use package.true.Catalog.Domain.{Row}
use package.true.Catalog.Normalize.{normalize}
use package.true.Dict.{Dict, get, get_or, put}
use package.true.Prelude.{
  Bool, List, Option, [], all, any, eqb, false, if◌then◌else◌, inl, inr, is_empty, leb, length, ltb,
  map, none, not, select, some, true, ℕ, ◌&&◌, ◌++◌, ◌||◌, ◌∷◌, ◌⊎◌,
}
use package.true.Sort.{sort_desc}
use package.true.Text.{Text, contains, lit, lower, to_set, ◌==◌}
use package.true.Text.Cut.{split_on, strip, word_runs}

-- row.get(field, "").split("|") for the aliases, the whole field otherwise
unfoldable pub field_values : Row → Text → List Text
field_values row field =
    let value = get_or row field [] in
    if field == lit "Aliases" then split_on b'|' value else value ∷ []

unfoldable pub strip_all : List Text → List Text
strip_all [] = []
strip_all (v ∷ vs) = let rest = strip_all vs in if is_empty (strip v) then rest else strip v ∷ rest

-- `_row_identities`
unfoldable pub row_identities : Row → List Text → List Text
unfolding field_values strip_all
row_identities row [] = []
row_identities row (field ∷ fields) =
    strip_all (field_values row field) ++ row_identities row fields

-- _STYLE_IDENTITY_FIELDS, _LANDING_IDENTITY_FIELDS
unfoldable pub style_fields : List Text
style_fields = lit "Style ID" ∷ lit "Style Category" ∷ lit "Aliases" ∷ []

unfoldable pub landing_fields : List Text
landing_fields = lit "Pattern ID" ∷ lit "Pattern Name" ∷ lit "Aliases" ∷ []

-- str(query or "").strip().casefold()
unfoldable pub folded : Text → Text
folded query = lower (strip query)

-- folded in {identity.casefold() for identity in …}
unfoldable pub is_named : List Text → Text → Row → Bool
is_named fields name row = contains (map lower (row_identities row fields)) name

only_one : List Row → Option Row
only_one [] = none
only_one (row ∷ []) = some row
only_one (row ∷ other ∷ rows) = none

-- `_exact_row_identity`
unfoldable pub exact_row_identity : List Row → Text → List Text → Option Row
unfolding only_one
exact_row_identity rows query fields = only_one (select (is_named fields (folded query)) rows)

-- A row with the number of the telling tokens, of the tokens and of the characters of an identity.
pub record Candidate : Type 0 where
  pub distinctive : ℕ
  pub tokens : ℕ
  pub chars : ℕ
  pub row : Row

generic_tokens : List Text
generic_tokens =
    lit "app" ∷ lit "design" ∷ lit "interface" ∷ lit "style" ∷ lit "system" ∷ lit "ui" ∷ []

-- set(re.findall(r"\w+", _normalize(text)))
unfoldable pub token_set : Text → List Text
token_set t = to_set (word_runs (normalize t))

-- the tokens of an identity are some, all in the query, and one of them has four characters
unfoldable pub is_contained : List Text → List Text → Bool
is_contained query_tokens tokens =
    not (is_empty tokens)
    && all (contains query_tokens) tokens
    && any (λ t. leb 4 (length t)) tokens

candidates_of : List Text → Row → List Text → List Candidate
unfolding is_contained generic_tokens
candidates_of query_tokens row [] = []
candidates_of query_tokens row (identity ∷ rest) =
    let tokens = token_set (lower identity) in
    let others = candidates_of query_tokens row rest in
    if is_contained query_tokens tokens
    then record {
      distinctive = length (select (λ t. not (contains generic_tokens t)) tokens);
      tokens = length tokens;
      chars = length identity;
      row = row;
    }
      ∷ others
    else others

-- the loop over the rows: a row that the query names, or all the candidates
unfoldable pub scan : Bool → Text → List Text → List Row → List Candidate → Row ⊎ List Candidate
unfolding candidates_of
scan allow name query_tokens [] found = inr found
scan allow name query_tokens (row ∷ rows) found = elim (is_named style_fields name row) [
  | true ↦ inl row
  | false ↦ scan allow name query_tokens rows (
      if allow
      then found ++ candidates_of query_tokens row (row_identities row style_fields)
      else found)
]

less_telling : Candidate → Candidate → Bool
less_telling c d =
    ltb c.distinctive d.distinctive || (eqb c.distinctive d.distinctive && ltb c.tokens d.tokens)

ties : Candidate → Candidate → Bool
ties c d = eqb c.distinctive d.distinctive && eqb c.tokens d.tokens && eqb c.chars d.chars

-- {row.get("Style ID", ""): row for the best candidates}
rows_by_id : Dict Row → List Candidate → Dict Row
rows_by_id seen [] = seen
rows_by_id seen (c ∷ cs) = rows_by_id (put seen (get_or c.row (lit "Style ID") []) c.row) cs

only_value : Dict Row → Option Row
only_value [] = none
only_value ((k, row) ∷ []) = some row
only_value ((k, row) ∷ other ∷ rest) = none

best_candidate : List Candidate → Option Row
unfolding ties rows_by_id only_value
best_candidate [] = none
best_candidate (best ∷ rest) = only_value (rows_by_id [] (select (ties best) (best ∷ rest)))

-- candidates.sort(…, reverse=True) and what follows
unfoldable pub choose : List Candidate → Option Row
unfolding best_candidate less_telling
choose found = best_candidate (sort_desc less_telling found)

unfoldable pub chosen : Row ⊎ List Candidate → Option Row
chosen (inl row) = some row
chosen (inr found) = choose found

-- `_style_identity`
unfoldable pub style_identity : List Row → Text → Bool → Option Row
unfolding scan chosen
style_identity rows query allow_contained =
    let name = folded query in chosen (scan allow_contained name (token_set name) rows [])

-- {"domain": …, "id": …}
pub record Redirect : Type 0 where
  pub domain : Text
  pub id : Text

-- next((row for row in rows if row.get("Style ID") == id), None)
unfoldable pub find_style : List Row → Text → Option Row
find_style [] id = none
find_style (row ∷ rows) id = elim (get row (lit "Style ID")) [
  | none ↦ find_style rows id
  | some k ↦ let rest = find_style rows id in if k == id then some row else rest
]

-- `_style_search_destination`
unfoldable pub style_destination : List Row → Option Row → Option Row × Option Redirect
unfolding find_style
style_destination rows none = (none, none)
style_destination rows (some row) =
    let parent_id = strip (get_or row (lit "Parent Style ID") []) in
    let domain = strip (get_or row (lit "Replacement Domain") []) in
    let replacement_id = strip (get_or row (lit "Replacement ID") []) in
    if not (get_or row (lit "Status") (lit "active") == lit "deprecated")
    then (some row, none)
    else if not (is_empty parent_id)
    then (find_style rows parent_id, none)
    else if domain == lit "style" && not (is_empty replacement_id)
    then (find_style rows replacement_id, none)
    else if not (is_empty domain) && not (is_empty replacement_id)
    then (none, some (record { domain = domain; id = replacement_id }))
    else (none, none)
