-- ===== src/Text/Cut.antt =====
-- `str.split`, `str.strip`, `str.join`, `str.startswith` and `in` between texts.
-- t.split(sep, 1) with one separator character: `none` where the text has no separator
use mathlib.Core.List.{reverse}
use package.true.Prelude.{
  All, All-append, Bool, Bool-cases, List, Option, Option-cases, [], ap, arith, eqb, false,
  if◌then◌else◌, inl, inr, is_empty, none, not, some, true, ℕ, ◌&&◌, ◌++◌, ◌||◌, ◌∷◌, ◌≡◌, ◌≢◌,
}
use package.true.Text.{Text, is_space, is_word}

unfoldable pub split_first : ℕ → Text → Option (Text × Text)
split_first sep [] = none
split_first sep (c ∷ t) =
    let rest = split_first sep t in
    if eqb c sep then some ([], t) else elim rest [ none ↦ none | some (a, b) ↦ some (c ∷ a, b) ]

-- t.split(sep)
split_from : ℕ → Text → Text → List Text
split_from sep cur [] = cur ∷ []
split_from sep cur (c ∷ t) = elim (eqb c sep) [
  | true ↦ cur ∷ split_from sep [] t
  | false ↦ split_from sep (cur ++ c ∷ []) t
]

unfoldable pub split_on : ℕ → Text → List Text
unfolding split_from
split_on sep = split_from sep []

-- the runs of characters outside of `sep`
words_from : (ℕ → Bool) → Text → Text → List Text
words_from sep cur [] = if is_empty cur then [] else cur ∷ []
words_from sep cur (c ∷ t) = elim (sep c) [
  | true ↦ (if is_empty cur then [] else cur ∷ []) ++ words_from sep [] t
  | false ↦ words_from sep (cur ++ c ∷ []) t
]

unfoldable pub words_by : (ℕ → Bool) → Text → List Text
unfolding words_from
words_by sep = words_from sep []

-- t.split()
unfoldable pub words : Text → List Text
unfolding words_by is_space
words t = words_by is_space t

-- re.findall(r"\w+", t)
unfoldable pub word_runs : Text → List Text
unfolding words_by is_word
word_runs t = words_by (λ c. not (is_word c)) t

-- the text without the leading characters of `p`
unfoldable pub lstrip : (ℕ → Bool) → Text → Text
lstrip p [] = []
lstrip p (c ∷ t) = elim (p c) [ true ↦ lstrip p t | false ↦ c ∷ t ]

unfoldable pub strip_by : (ℕ → Bool) → Text → Text
unfolding lstrip
strip_by p t = reverse (lstrip p (reverse (lstrip p t)))

-- t.strip()
unfoldable pub strip : Text → Text
unfolding strip_by is_space
strip = strip_by is_space

-- sep.join(ts)
unfoldable pub join : Text → List Text → Text
join sep [] = []
join sep (t ∷ []) = t
join sep (t ∷ u ∷ ts) = t ++ (sep ++ join sep (u ∷ ts))

unfoldable pub starts_with : Text → Text → Bool
starts_with [] t = true
starts_with (x ∷ p) [] = false
starts_with (x ∷ p) (c ∷ t) = eqb x c && starts_with p t

-- p in t
unfoldable pub has : Text → Text → Bool
unfolding starts_with
has p [] = is_empty p
has p (c ∷ t) = starts_with p (c ∷ t) || has p t

-- A cut at the first separator: what stands before it has none.
pub split_first_sound :
    (sep : ℕ) (t : Text) {a b : Text} → split_first sep t ≡ some (a, b) → t ≡ a ++ (sep ∷ b)
unfolding split_first
split_first_sound sep [] h = absurd (cc)
split_first_sound sep (c ∷ t) h = elim (Option-cases (split_first sep t)) [
  | inl e ↦ ground (arith, e)
  | inr ((a', b'), e) ↦ ground (arith, e, split_first_sound sep t e)
]

pub split_first-append :
    (sep : ℕ) (a b : Text) → All (λ c. c ≢ sep) a → split_first sep (a ++ (sep ∷ b)) ≡ some (a, b)
unfolding split_first
split_first-append sep [] b h = ground arith
split_first-append sep (c ∷ a) b h = ground (arith, split_first-append sep a b)

-- Where each character is a separator or in `P`, the words are made of characters in `P`.
module _ (sep : ℕ → Bool) (P : ℕ → Type 0) where
  flush-All : (cur : Text) → All P cur → All (All P) (if is_empty cur then [] else cur ∷ [])
  flush-All [] h = tt
  flush-All (c ∷ cur) h = (h, tt)

  words_from-All :
      (cur t : Text)
      → All P cur
      → All (λ c. sep c ≡ false → P c) t
      → All (All P) (words_from sep cur t)
  unfolding words_from
  words_from-All cur [] h k = flush-All cur h
  words_from-All cur (c ∷ t) h k = elim (Bool-cases (sep c)) [
    | inl e ↦
        rw (e, words_from)
          (All-append (All P) _ (words_from sep [] t) (flush-All cur h)
            (words_from-All [] t tt k.1))
    | inr e ↦
        rw (e, words_from)
          (words_from-All (cur ++ c ∷ []) t (All-append P cur (c ∷ []) h (k.0 e, tt)) k.1)
  ]

  pub words_by-All : (t : Text) → All (λ c. sep c ≡ false → P c) t → All (All P) (words_by sep t)
  unfolding words_by
  words_by-All t h = words_from-All [] t tt h

split_from-append :
    (sep : ℕ) (cur a b : Text)
    → split_from sep cur (a ++ sep ∷ b) ≡ split_from sep cur a ++ split_from sep [] b
unfolding split_from
split_from-append sep cur [] b = ground arith
split_from-append sep cur (c ∷ a) b = elim (Bool-cases (eqb c sep)) [
  | inl e ↦ rw (e, split_from) (ap (λ (ts : List Text). cur ∷ ts) (split_from-append sep [] a b))
  | inr e ↦ rw (e, split_from) (split_from-append sep (cur ++ c ∷ []) a b)
]

-- A text with a separator in it is cut as its two sides are.
pub split_on-append :
    (sep : ℕ) (a b : Text) → split_on sep (a ++ sep ∷ b) ≡ split_on sep a ++ split_on sep b
unfolding split_on
split_on-append sep a b = split_from-append sep [] a b
