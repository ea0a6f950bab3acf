-- ===== src/Validation/Styles.antt =====
-- `_check_style_contract`, up to the references: the identities of the styles, where they lead, and
-- what products and rules refer to.
pub mod Sound
pub mod Gather
pub mod Status
use package.true.Catalog.Domain.{Row}
use package.true.Dict.{Dict, get_or, put}
use package.true.Prelude.{
  Bool, List, [], false, if◌then◌else◌, is_empty, map, not, true, ℕ, ◌&&◌, ◌++◌, ◌||◌, ◌∷◌,
}
use package.true.Regex.{Regex, class, fullmatch, plus, seq, star, symbol}
use package.true.Text.{Text, contains, is_digit, is_lower_letter, lit, lower, ◌==◌}
use package.true.Validation.Problems.{flag, split_parts}

-- [a-z0-9]
is_id_char : ℕ → Bool
unfolding is_lower_letter is_digit
is_id_char c = is_lower_letter c || is_digit c

-- STYLE_ID
unfoldable pub style_id_pattern : Regex
unfolding is_id_char
style_id_pattern =
    seq (plus (class is_id_char)) (star (seq (symbol b'-') (plus (class is_id_char))))

-- STYLE_STATUSES
unfoldable pub style_statuses : List Text
style_statuses = map lit ("active" ∷ "supplemental" ∷ "deprecated" ∷ [])

-- What the loop over the styles has gathered: ids, lookup, parents and by_id.
pub record Gathered : Type 0 where
  pub ids : List Text
  pub lookup : Dict Text
  pub parents : Dict Text
  pub by_id : Dict Row

unfoldable pub id_of : Row → Text
id_of row = get_or row (lit "Style ID") []

unfoldable pub status_of : Row → Text
status_of row = get_or row (lit "Status") []

unfoldable pub parent_of : Row → Text
parent_of row = get_or row (lit "Parent Style ID") []

-- bool(text)
abbrev pub given : Text → Bool
given t = not (is_empty t)

unfoldable pub redirect_domain : Row → Text
redirect_domain row = get_or row (lit "Replacement Domain") []

unfoldable pub redirect_id : Row → Text
redirect_id row = get_or row (lit "Replacement ID") []

unfoldable pub has_redirect : Row → Bool
unfolding redirect_domain redirect_id
has_redirect row = given (redirect_domain row) && given (redirect_id row)

unfoldable pub same_truth : Bool → Bool → Bool
same_truth true b = b
same_truth false b = not b

-- [style:id] and a message
style_problem : Row → Text → Text
unfolding id_of
style_problem row message = lit "[style:" ++ (id_of row ++ (lit "] " ++ message))

quoted_text : Text → Text
quoted_text t = lit "'" ++ (t ++ lit "'")

-- a status, a parent or a redirect that the row may not have
unfoldable pub status_problems : Dict (List Text) → Row → List Text
unfolding flag style_problem same_truth has_redirect quoted_text style_statuses
status_problems targets row =
    flag (not (contains style_statuses (status_of row)))
      (style_problem row (lit "invalid Status " ++ quoted_text (status_of row)))
    ++ (flag (status_of row == lit "supplemental" && not (given (parent_of row)))
          (style_problem row (lit "supplemental rows require Parent Style ID"))
        ++ (if status_of row == lit "deprecated"
            then flag (same_truth (given (parent_of row)) (has_redirect row))
                (style_problem row (lit "deprecated rows require exactly one parent or redirect"))
              ++ flag
                  (has_redirect row
                    && not (contains (get_or targets (redirect_domain row) []) (redirect_id row)))
                  (style_problem row (
                    lit "invalid "
                    ++ (redirect_domain row
                        ++ (lit " redirect " ++ quoted_text (redirect_id row)))))
            else flag (given (redirect_domain row) || given (redirect_id row))
                (style_problem row (lit "only deprecated rows may redirect"))))

-- for key in [...]: the key may not stand for another style
unfoldable pub key_problems : Text → List Text → Dict Text → List Text
unfolding flag quoted_text lower
key_problems style_id [] lookup = []
key_problems style_id (key ∷ keys) lookup =
    let known = get_or lookup (lower key) style_id in
    flag (not (known == style_id)) (
      lit "[style] ambiguous identity "
      ++ (quoted_text key ++ (lit " -> " ++ (known ++ (lit ", " ++ style_id)))))
    ++ key_problems style_id keys (put lookup (lower key) style_id)

unfoldable pub put_ids : Text → List Text → Dict Text → Dict Text
unfolding lower
put_ids style_id [] lookup = lookup
put_ids style_id (key ∷ keys) lookup = put_ids style_id keys (put lookup (lower key) style_id)

unfoldable pub keys_of : Row → List Text
unfolding split_parts id_of
keys_of row =
    id_of row
    ∷ get_or row (lit "Style Category") []
    ∷ split_parts b'|' (get_or row (lit "Aliases") [])

-- the problems of one row
unfoldable pub row_problems : Dict (List Text) → Gathered → Row → List Text
unfolding flag quoted_text status_problems key_problems keys_of style_id_pattern id_of
row_problems targets g row =
    flag (not (fullmatch style_id_pattern (id_of row)))
      (lit "[style] invalid Style ID " ++ quoted_text (id_of row))
    ++ (flag (contains g.ids (id_of row))
          (lit "[style] duplicate Style ID " ++ quoted_text (id_of row))
        ++ (status_problems targets row ++ key_problems (id_of row) (keys_of row) g.lookup))

unfoldable pub gathered : Gathered → Row → Gathered
unfolding put_ids keys_of id_of parent_of
gathered g row = record {
  ids = id_of row ∷ g.ids;
  lookup = put_ids (id_of row) (keys_of row) g.lookup;
  parents = put g.parents (id_of row) (parent_of row);
  by_id = put g.by_id (id_of row) row;
}

-- for row in styles: the problems, and what is gathered
unfoldable pub rows_problems : Dict (List Text) → Gathered → List Row → List Text
rows_problems targets g [] = []
rows_problems targets g (row ∷ rows) =
    row_problems targets g row ++ rows_problems targets (gathered g row) rows

unfoldable pub gather : Gathered → List Row → Gathered
gather g [] = g
gather g (row ∷ rows) = gather (gathered g row) rows

abbrev pub nothing_gathered : Gathered
nothing_gathered = record { ids = []; lookup = []; parents = []; by_id = [] }
