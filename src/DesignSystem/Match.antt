-- ===== src/DesignSystem/Match.antt =====
-- `_select_best_match`: the first priority that names a style that is in use, or the result whose
-- fields hold the most of the priorities' words.
use package.true.Catalog.Domain.{Row}
use package.true.DesignSystem.Resolve.{Lookup, is_deprecated, resolve_style}
use package.true.Dict.{get_or}
use package.true.Prelude.{
  Bool, List, Option, [], all, any, eqb, if◌then◌else◌, is_empty, ltb, map, none, not, some, ℕ, ◌%◌,
  ◌&&◌, ◌++◌, ◌+◌, ◌-◌, ◌/◌, ◌||◌, ◌∷◌,
}
use package.true.Sort.{sort_desc}
use package.true.Text.{Text, contains, is_digit, is_lower_letter, lit, lower, to_set}
use package.true.Text.Cut.{has, join, words_by}

-- [a-z0-9]
is_token_char : ℕ → Bool
unfolding is_lower_letter is_digit
is_token_char c = is_lower_letter c || is_digit c

-- set(re.findall(r"[a-z0-9]+", text.lower()))
unfoldable pub token_runs : Text → List Text
unfolding words_by is_token_char lower to_set
token_runs t = to_set (words_by (λ c. not (is_token_char c)) (lower t))

hex_char : ℕ → ℕ
hex_char n = if ltb n 10 then b'0' + n else b'a' + n - 10

-- One character of repr(text) between quotes; those beyond ASCII are shown as they are.
repr_char : ℕ → ℕ → Text
unfolding hex_char
repr_char quote c =
    if eqb c quote || eqb c b'\\'
    then b'\\' ∷ c ∷ []
    else if eqb c 9
    then lit "\\t"
    else if eqb c 10
    then lit "\\n"
    else if eqb c 13
    then lit "\\r"
    else if ltb c 32 || eqb c 127
    then b'\\' ∷ b'x' ∷ hex_char (c / 16) ∷ hex_char (c % 16) ∷ []
    else c ∷ []

repr_chars : ℕ → Text → Text
unfolding repr_char
repr_chars quote [] = []
repr_chars quote (c ∷ t) = repr_char quote c ++ repr_chars quote t

-- a text with a single quote and no double one stands between double ones
quote_of : Text → ℕ
quote_of t = if any (eqb 39) t && not (any (eqb 34) t) then 34 else 39

repr : Text → Text
unfolding repr_chars quote_of
repr t = let quote = quote_of t in quote ∷ (repr_chars quote t ++ quote ∷ [])

-- str(result), as Python shows a dict
unfoldable pub shown : Row → Text
unfolding repr join
shown row =
    lit "{"
    ++ (join (lit ", ") (map (λ (column, value). repr column ++ (lit ": " ++ repr value)) row)
        ++ lit "}")

-- the points of one keyword
unfoldable pub keyword_points : Row → Text → ℕ
unfolding token_runs shown lower
keyword_points row keyword =
    let tokens = token_runs keyword in
    let names = token_runs (get_or row (lit "Style Category") []) in
    let keywords = token_runs (get_or row (lit "Keywords") []) in
    if not (is_empty tokens) && all (contains names) tokens
    then 10
    else if any (contains keywords) tokens
    then 3
    else if any (λ token. has token (lower (shown row))) tokens
    then 1
    else 0

points : List Text → Row → ℕ
unfolding keyword_points
points [] row = 0
points (keyword ∷ keywords) row = keyword_points row keyword + points keywords row

-- the first of the priorities that resolves to a style
unfoldable pub first_resolved : Lookup → List Text → Option Row
unfolding resolve_style is_deprecated
first_resolved lookup [] = none
first_resolved lookup (priority ∷ priorities) =
    let rest = first_resolved lookup priorities in
    let resolved = resolve_style lookup priority in
    if not (is_empty resolved) && not (is_deprecated resolved) then some resolved else rest

-- scored.sort(key=lambda x: x[0], reverse=True), and its head where it has points
unfoldable pub best_scored : Row → List (ℕ × Row) → Row
best_scored first [] = first
best_scored first ((score, row) ∷ scored) = if ltb 0 score then row else first

by_points : Row → List Row → List Text → Row
unfolding best_scored points sort_desc
by_points first results keywords = best_scored first (
    sort_desc (λ (score, row) (other, r). ltb score other)
      (map (λ row. (points keywords row, row)) (first ∷ results)))

-- `_select_best_match`
unfoldable pub select_best_match : Lookup → List Row → List Text → Row
unfolding first_resolved by_points
select_best_match lookup [] keywords = []
select_best_match lookup (first ∷ results) [] = first
select_best_match lookup (first ∷ results) (keyword ∷ keywords) =
    elim (first_resolved lookup (keyword ∷ keywords)) [
      | some style ↦ style
      | none ↦ by_points first results (keyword ∷ keywords)
    ]
