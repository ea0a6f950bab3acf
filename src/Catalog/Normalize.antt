-- ===== src/Catalog/Normalize.antt =====
-- `_normalize`: the synonyms, the longest first, put in at token boundaries.
use package.true.Prelude.{
  Bool, List, [], eqb, false, length, ltb, not, suc, true, zero, ℕ, ◌&&◌, ◌++◌, ◌-◌, ◌∷◌,
}
use package.true.Sort.{sort_desc}
use package.true.Text.{Text, is_word, lit, lower_char}

abbrev pub Synonym : Type 0
Synonym = Text × Text

-- _SYNONYMS
unfoldable pub synonyms : List Synonym
synonyms =
    (lit "q&a", lit "question answer")
    ∷ (lit "e-commerce", lit "ecommerce")
    ∷ (lit "dark-mode", lit "dark")
    ∷ (lit "darkmode", lit "dark")
    ∷ (lit "light-mode", lit "light")
    ∷ (lit "lightmode", lit "light")
    ∷ (lit "a11y", lit "accessibility")
    ∷ (lit "nav", lit "navigation")
    ∷ (lit "sign-up", lit "signup")
    ∷ (lit "log-in", lit "login")
    ∷ (lit "colour", lit "color")
    ∷ (lit "colours", lit "colors")
    ∷ (lit "customisation", lit "customization")
    ∷ (lit "organisation", lit "organization")
    ∷ (lit "behaviour", lit "behavior")
    ∷ (lit "ux/ui", lit "ux ui")
    ∷ []

-- the order of sorted(…, key=lambda item: len(item[0]), reverse=True)
abbrev shorter : Synonym → Synonym → Bool
shorter s u = ltb (length s.0) (length u.0)

-- _SYNONYM_PATTERNS
unfoldable pub synonym_patterns : List Synonym
unfolding sort_desc synonyms
synonym_patterns = sort_desc shorter synonyms

-- The variant stands at the front, in either case, and no word character follows it.
unfoldable pub variant_here : Text → Text → Bool
variant_here [] [] = true
variant_here [] (c ∷ t) = not (is_word c)
variant_here (x ∷ p) [] = false
variant_here (x ∷ p) (c ∷ t) = eqb (lower_char x) (lower_char c) && variant_here p t

-- The scan of `pattern.sub`: the flag says that a word character stands before the text, the number
-- counts the characters of a match that are still to be passed over.
sub_from : Bool → ℕ → Text → Text → Text → Text
unfolding variant_here
sub_from after skip variant canonical [] = []
sub_from after (suc skip) variant canonical (c ∷ t) = sub_from (is_word c) skip variant canonical t
sub_from after zero variant canonical (c ∷ t) = elim (not after && variant_here variant (c ∷ t)) [
  | true ↦ canonical ++ sub_from (is_word c) (length variant - 1) variant canonical t
  | false ↦ c ∷ sub_from (is_word c) zero variant canonical t
]

-- pattern.sub(canonical, text)
unfoldable pub substitute : Synonym → Text → Text
unfolding sub_from
substitute (variant, canonical) t = sub_from false 0 variant canonical t

substitute_all : List Synonym → Text → Text
substitute_all [] t = t
substitute_all (s ∷ rest) t = substitute_all rest (substitute s t)

unfoldable pub normalize : Text → Text
unfolding substitute_all substitute synonym_patterns
normalize t = substitute_all synonym_patterns t
