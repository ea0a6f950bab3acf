-- ===== src/Styling/Tailwind/Indentation.antt =====
-- What `_indent_json` makes of the JSON of a configuration.
use package.true.Prelude.{
  List, [], ap, append_assoc, drop, false, is_empty, map, refl, ◌++◌, ◌∙◌, ◌∷◌, ◌≡◌,
}
use package.true.Styling.Tailwind.{Generator}
use package.true.Styling.Tailwind.Printing.{
  block, config_items, config_json, indent_json, newline_at, spaces, without_last,
}
use package.true.Text.{Text}
use package.true.Text.Cut.{join, split_on, split_on-append}

without_last-snoc : (ts : List Text) (t : Text) → without_last (ts ++ t ∷ []) ≡ ts
unfolding without_last
without_last-snoc [] t = refl
without_last-snoc (u ∷ []) t = refl
without_last-snoc (u ∷ v ∷ ts) t = ap (λ (l : List Text). u ∷ l) (without_last-snoc (v ∷ ts) t)

opening_line : split_on b'\n' (b'{' ∷ []) ≡ (b'{' ∷ []) ∷ []
unfolding split_on
opening_line = refl

closing_line : split_on b'\n' (b'}' ∷ []) ≡ (b'}' ∷ []) ∷ []
unfolding split_on
closing_line = refl

-- the two lines of the braces, and the lines between them
block_lines :
    (body : Text)
    → split_on b'\n' (b'{' ∷ b'\n' ∷ body ++ b'\n' ∷ b'}' ∷ [])
      ≡ (b'{' ∷ []) ∷ split_on b'\n' body ++ (b'}' ∷ []) ∷ []
block_lines body =
    split_on-append b'\n' (b'{' ∷ []) (body ++ b'\n' ∷ b'}' ∷ [])
    ∙ ap (λ (ts : List Text). ts ++ split_on b'\n' (body ++ b'\n' ∷ b'}' ∷ [])) opening_line
    ∙ ap (λ (ts : List Text). (b'{' ∷ []) ∷ ts)
        (split_on-append b'\n' body (b'}' ∷ [])
          ∙ ap (λ (ts : List Text). split_on b'\n' body ++ ts) closing_line)

abbrev indented : List Text → Text
indented ts = join (b'\n' ∷ []) (map (λ line. b' ' ∷ b' ' ∷ line) ts)

indent_json-block :
    (body : Text)
    → indent_json (b'{' ∷ b'\n' ∷ body ++ b'\n' ∷ b'}' ∷ []) ≡ indented (split_on b'\n' body)
unfolding indent_json
indent_json-block body =
    ap (λ (ts : List Text). indented (without_last (drop 1 ts))) (block_lines body)
    ∙ ap indented (without_last-snoc (split_on b'\n' body) (b'}' ∷ []))

block-body :
    (items : List Text)
    → is_empty items ≡ false
    → (body : Text) × (block 0 b'{' b'}' items ≡ b'{' ∷ b'\n' ∷ body ++ b'\n' ∷ b'}' ∷ [])
unfolding block newline_at spaces
block-body [] h = absurd cc
block-body (item ∷ items) h =
    let lines = join (b',' ∷ b'\n' ∷ b' ' ∷ b' ' ∷ []) (item ∷ items) in
    (
      b' ' ∷ b' ' ∷ lines,
      ap (λ (t : Text). b'{' ∷ b'\n' ∷ b' ' ∷ b' ' ∷ t)
          (append_assoc lines (b'\n' ∷ []) (b'}' ∷ [])),
    )

-- The JSON of a configuration is a line with a brace, a body, and a line with the other brace; the
-- indentation leaves out just these two lines, and each line of the body comes out in its order,
-- indented by two spaces.
pub indent_json-body :
    (g : Generator)
    → (body : Text) × (config_json g ≡ b'{' ∷ b'\n' ∷ body ++ b'\n' ∷ b'}' ∷ [])
      × (indent_json (config_json g)
          ≡ join (b'\n' ∷ []) (map (λ line. b' ' ∷ b' ' ∷ line) (split_on b'\n' body)))
unfolding config_json config_items
indent_json-body g =
    let (body, e) = block-body (config_items g) refl in
    (body, e, ap indent_json e ∙ indent_json-block body)
