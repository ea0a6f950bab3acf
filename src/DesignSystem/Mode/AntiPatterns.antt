-- ===== src/DesignSystem/Mode/AntiPatterns.antt =====
-- In the dark mode no anti-pattern speaks against it.
use mathlib.Core.List.{map-append}
use mathlib.Core.Path.{subst}
use package.true.DesignSystem.Mode.{
  dark_anti_pattern_markers, filter_anti_patterns_for_mode, has_marker, keeps_clause,
  stripped_clauses,
}
use package.true.Prelude.{
  All, All-Mem, Bool, Bool-cases, List, [], all, any, ap, append_assoc, arith, false, if-P, if-P_of,
  inl, inr, is_empty, not, refl, select, select-All, sym, true, ◌++◌, ◌||◌, ◌∙◌, ◌∷◌, ◌≡◌, ◌≢◌,
}
use package.true.Text.{
  ==_eq, Text, contains, is_space, is_upper_letter, lit, lower, lower_char, ◌==◌,
}
use package.true.Text.Cut.{has, join, split_on, strip}
use package.true.Text.Infix.{
  HeadIsNot, LastIsNot, has-cons, has-cut, has-middle, has-snoc, strip_by_split,
}

-- No marker stands in the text, whatever the case of its letters.
abbrev IsFreeOf : Text → Text → Type 0
IsFreeOf marker t = has marker (lower t) ≡ false

-- The characters that a clause is cut at and joined with are not those of a marker.
record IsMarker (marker : Text) : Type 0 where
  no_plus : All (λ c. c ≢ b'+') marker
  head_plus : HeadIsNot b'+' marker
  head_space : HeadIsNot b' ' marker
  last_space : LastIsNot b' ' marker

lower-append : (s t : Text) → lower (s ++ t) ≡ lower s ++ lower t
unfolding lower
lower-append s t = map-append lower_char s t

module _ (marker : Text) (is : IsMarker marker) where
  lower_glued :
      (s t : Text)
      → lower (s ++ (lit " + " ++ t)) ≡ (lower s ++ b' ' ∷ []) ++ (b'+' ∷ b' ' ∷ lower t)
  unfolding lower lit lower_char is_upper_letter
  lower_glued s t = rw (lower-append s (b' ' ∷ b'+' ∷ b' ' ∷ t), append_assoc) refl

  IsFreeOf-glue :
      (s t : Text) → IsFreeOf marker s → IsFreeOf marker t → IsFreeOf marker (s ++ (lit " + " ++ t))
  IsFreeOf-glue s t h k = rw lower_glued (
      rw (
        has-cut marker (lower s ++ b' ' ∷ []) (b' ' ∷ lower t) b'+' is.head_plus is.no_plus,
        has-snoc marker (lower s) b' ' is.head_space is.last_space,
        has-cons marker (lower t) b' ' is.head_space,
        h,
        k,
      ))

  join-IsFreeOf :
      (ts : List Text)
      → IsFreeOf marker []
      → All (IsFreeOf marker) ts
      → IsFreeOf marker (join (lit " + ") ts)
  unfolding join
  join-IsFreeOf [] n h = n
  join-IsFreeOf (t ∷ []) n h = h.0
  join-IsFreeOf (t ∷ u ∷ ts) n h =
      IsFreeOf-glue t (join (lit " + ") (u ∷ ts)) h.0 (join-IsFreeOf (u ∷ ts) n h.1)

  strip-IsFreeOf : (t : Text) → IsFreeOf marker t → IsFreeOf marker (strip t)
  unfolding strip
  strip-IsFreeOf t h =
      let (a, b, e) = strip_by_split is_space t in
      let lowered : lower t ≡ lower a ++ (lower (strip t) ++ lower b) =
        ap lower e
        ∙ lower-append a (strip t ++ b)
        ∙ ap (λ (u : Text). lower a ++ u) (lower-append (strip t) b) in
      has-middle marker (lower a) (lower (strip t)) (lower b)
        (subst (λ (u : Text). has marker u ≡ false) lowered h)

  stripped_clauses-IsFreeOf :
      (ts : List Text) → All (IsFreeOf marker) ts → All (IsFreeOf marker) (stripped_clauses ts)
  unfolding stripped_clauses
  stripped_clauses-IsFreeOf [] h = tt
  stripped_clauses-IsFreeOf (t ∷ ts) h =
      let rest = stripped_clauses-IsFreeOf ts h.1 in
      if-P (All (IsFreeOf marker)) (is_empty (strip t)) rest (strip-IsFreeOf t h.0, rest)

-- What holds of all texts of a list holds of one that it contains.
contains-P {ℓ} :
    (P : Text → Type ℓ) (ts : List Text) (t : Text) → All P ts → contains ts t ≡ true → P t
contains-P P [] t all h = absurd (cc)
contains-P P (u ∷ ts) t all h = elim (Bool-cases (t == u)) [
  | inl e ↦ subst P (sym (==_eq t u e)) all.0
  | inr e ↦ contains-P P ts t all.1 (ground arith)
]

any-All : (p : Text → Bool) (ts : List Text) → any p ts ≡ false → All (λ t. p t ≡ false) ts
any-All p [] h = tt
any-All p (t ∷ ts) h = (ground arith, any-All p ts (ground arith))

markers-IsMarker : All IsMarker dark_anti_pattern_markers
unfolding dark_anti_pattern_markers lit
markers-IsMarker = (
  record {
    no_plus = omega arith;
    head_plus = omega arith;
    head_space = omega arith;
    last_space = omega arith;
  },
  (
    record {
      no_plus = omega arith;
      head_plus = omega arith;
      head_space = omega arith;
      last_space = omega arith;
    },
    (
      record {
        no_plus = omega arith;
        head_plus = omega arith;
        head_space = omega arith;
        last_space = omega arith;
      },
      tt,
    ),
  ),
)

IsMarker-free_nil : (marker : Text) → IsMarker marker → IsFreeOf marker []
unfolding lower has
IsMarker-free_nil [] is = absurd is.head_plus
IsMarker-free_nil (c ∷ marker) is = refl

empty-IsFreeOf : (marker t : Text) → IsMarker marker → is_empty t ≡ true → IsFreeOf marker t
empty-IsFreeOf marker [] is h = IsMarker-free_nil marker is
empty-IsFreeOf marker (c ∷ t) is h = absurd (cc)

keeps_clause-IsFreeOf :
    (marker clause : Text)
    → contains dark_anti_pattern_markers marker ≡ true
    → keeps_clause clause ≡ true
    → IsFreeOf marker clause
unfolding keeps_clause has_marker
keeps_clause-IsFreeOf marker clause h k =
    contains-P (λ m. has m (lower clause) ≡ false) dark_anti_pattern_markers marker
      (any-All (λ m. has m (lower clause)) dark_anti_pattern_markers (ground arith)) h

kept-IsFreeOf :
    (marker : Text) (ts : List Text)
    → contains dark_anti_pattern_markers marker ≡ true
    → All (IsFreeOf marker) (select keeps_clause ts)
kept-IsFreeOf marker ts h =
    select-All (λ _. Unit {0}) (IsFreeOf marker) keeps_clause ts
      (λ clause k _. keeps_clause-IsFreeOf marker clause h k)
      (All-Mem (λ _. Unit {0}) ts (λ _ _. tt))

-- In the dark mode the anti-patterns hold no marker of advice against it, in whatever case it is
-- written, also across the places where clauses are put together.
pub filter_anti_patterns_for_mode-IsFreeOf :
    (anti_patterns marker : Text)
    → contains dark_anti_pattern_markers marker ≡ true
    → has marker (lower (filter_anti_patterns_for_mode anti_patterns (lit "dark"))) ≡ false
unfolding filter_anti_patterns_for_mode
filter_anti_patterns_for_mode-IsFreeOf anti_patterns marker h =
    let is = contains-P IsMarker dark_anti_pattern_markers marker markers-IsMarker h in
    let is_mode : (lit "dark" == lit "dark") ≡ true = ground arith in
    if-P_of (IsFreeOf marker) (not (lit "dark" == lit "dark") || is_empty anti_patterns)
      (λ e. empty-IsFreeOf marker anti_patterns is (ground (arith, e, is_mode)))
      (λ _. join-IsFreeOf marker is _ (IsMarker-free_nil marker is) (
        stripped_clauses-IsFreeOf marker is _
          (kept-IsFreeOf marker (split_on b'+' anti_patterns) h)))
