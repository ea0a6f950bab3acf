-- ===== src/DesignSystem/Resolve.antt =====
-- `_build_style_lookup`, `_load_landing_patterns` and `_resolve_style`: the rows by their names, and
-- the style that a deprecated one leads to.
pub mod Settles
use package.true.Catalog.Domain.{Row}
use package.true.Dict.{Dict, get_or, put}
use package.true.Prelude.{
  Bool, List, Option, [], if◌then◌else◌, is_empty, length, none, not, some, suc, zero, ℕ, ◌+◌, ◌||◌,
  ◌∷◌,
}
use package.true.Text.{Text, contains, lit, lower, ◌==◌}
use package.true.Text.Cut.{split_on, strip}

abbrev pub Lookup : Type 0
Lookup = Dict Row

-- for key in keys: if key.strip(): lookup[key.strip().casefold()] = row
unfoldable pub put_keys : List Text → Row → Lookup → Lookup
unfolding strip lower
put_keys [] row lookup = lookup
put_keys (key ∷ keys) row lookup =
    put_keys keys row (if is_empty (strip key) then lookup else put lookup (lower (strip key)) row)

names_of : Row → Text → Text → List Text
unfolding split_on
names_of row first second =
    get_or row first [] ∷ get_or row second [] ∷ split_on b'|' (get_or row (lit "Aliases") [])

put_rows : Text → Text → List Row → Lookup → Lookup
unfolding put_keys names_of
put_rows first second [] lookup = lookup
put_rows first second (row ∷ rows) lookup =
    put_rows first second rows (put_keys (names_of row first second) row lookup)

-- `_build_style_lookup`
unfoldable pub build_style_lookup : List Row → Lookup
unfolding put_rows
build_style_lookup styles = put_rows (lit "Style ID") (lit "Style Category") styles []

-- `_load_landing_patterns`, from the rows of landing.csv
unfoldable pub landing_patterns : List Row → Lookup
unfolding put_rows
landing_patterns rows = put_rows (lit "Pattern ID") (lit "Pattern Name") rows []

unfoldable pub is_deprecated : Row → Bool
is_deprecated style = get_or style (lit "Status") (lit "active") == lit "deprecated"

-- self.style_lookup.get(key, {})
unfoldable pub looked_up : Lookup → Text → Row
looked_up lookup key = get_or lookup key []

-- The row that a deprecated style names as its successor, or the empty one where the loop gives up.
unfoldable pub successor : Lookup → Row → Row
unfolding looked_up lower
successor lookup style = looked_up lookup (lower (get_or style (lit "Parent Style ID") []))

-- while style and style.get("Status", "active") == "deprecated": `none` where the fuel runs out
unfoldable pub follow : ℕ → Lookup → List Text → Row → Option Row
unfolding is_deprecated successor
follow zero lookup seen style = none
follow (suc fuel) lookup seen style =
    let style_id = get_or style (lit "Style ID") [] in
    let rest = follow fuel lookup (style_id ∷ seen) (successor lookup style) in
    if is_empty style || not (is_deprecated style)
    then some style
    else if is_empty (get_or style (lit "Parent Style ID") []) || contains seen style_id
    then some []
    else rest

-- Each round sees one more of the styles of the lookup.
unfoldable pub rounds : Lookup → ℕ
rounds lookup = length lookup + 2

-- str(reference or "").strip().casefold()
unfoldable pub first_style : Lookup → Text → Row
unfolding looked_up strip lower
first_style lookup reference = looked_up lookup (lower (strip reference))

unfoldable pub followed : Lookup → Text → Option Row
unfolding follow first_style rounds
followed lookup reference = follow (rounds lookup) lookup [] (first_style lookup reference)

unfoldable pub row_or_empty : Option Row → Row
row_or_empty none = []
row_or_empty (some row) = row

-- `_resolve_style`
unfoldable pub resolve_style : Lookup → Text → Row
unfolding followed row_or_empty
resolve_style lookup reference = row_or_empty (followed lookup reference)
