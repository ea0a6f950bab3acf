-- ===== src/Catalog/Tokens.antt =====
-- `BM25.tokenize`: the words of a text that the index keeps.
-- _STOPWORDS
use package.true.Catalog.Normalize.{normalize}
use package.true.Prelude.{
  All, Bool, List, [], arith, false, if◌then◌else◌, leb, length, map, not, refl, select, select-All,
  true, ℕ, ◌&&◌, ◌||◌, ◌∷◌, ◌≡◌, ◌≤◌,
}
use package.true.Text.{Text, contains, is_space, is_word, lit, lower}
use package.true.Text.Cut.{words, words_by-All}

unfoldable pub stopwords : List Text
stopwords = map lit (
    "to" ∷ "in" ∷ "on" ∷ "at" ∷ "is" ∷ "of" ∷ "by" ∷ "or" ∷ "an" ∷ "if" ∷ "no" ∷ "so" ∷ "do" ∷ "be"
    ∷ "we" ∷ "it" ∷ "as" ∷ "the" ∷ "and" ∷ "for" ∷ "are" ∷ "was" ∷ [])

-- re.sub(r'[^\w\s]', ' ', text)
unfoldable pub blank_char : ℕ → ℕ
blank_char c = if is_word c || is_space c then c else b' '

unfoldable pub keeps_word : Text → Bool
keeps_word w = leb 2 (length w) && not (contains stopwords w)

unfoldable pub tokenize : Text → List Text
tokenize t = select keeps_word (words (map blank_char (normalize (lower t))))

-- A token has two characters or more, all of them word characters, and is no stop word.
pub record IsToken (w : Text) : Type 0 where
  pub long : 2 ≤ length w
  pub meaningful : contains stopwords w ≡ false
  pub letters : All (λ c. is_word c ≡ true) w

abbrev pub IsWord : Text → Type 0
IsWord w = All (λ c. is_word c ≡ true) w

space_blank : is_space b' ' ≡ true
unfolding is_space
space_blank = refl

blank_char-word : (c : ℕ) → is_space (blank_char c) ≡ false → is_word (blank_char c) ≡ true
unfolding blank_char
blank_char-word c h = ground (arith, space_blank)

map-blank : (t : Text) → All (λ c. is_space c ≡ false → is_word c ≡ true) (map blank_char t)
map-blank [] = tt
map-blank (c ∷ t) = (blank_char-word c, map-blank t)

keeps_word-IsToken : (w : Text) → keeps_word w ≡ true → IsWord w → IsToken w
unfolding keeps_word
keeps_word-IsToken w e h = record {
  long = ground (arith, e);
  meaningful = ground (arith, e);
  letters = h;
}

-- Every token of every text is long enough, no stop word, and made of word characters.
pub tokenize-IsToken : (t : Text) → All IsToken (tokenize t)
unfolding tokenize words
tokenize-IsToken t =
    let blanked = map blank_char (normalize (lower t)) in
    select-All IsWord IsToken keeps_word (words blanked) keeps_word-IsToken
      (words_by-All is_space (λ c. is_word c ≡ true) blanked (map-blank (normalize (lower t))))
