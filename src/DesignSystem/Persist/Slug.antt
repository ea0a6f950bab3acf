-- ===== src/DesignSystem/Persist/Slug.antt =====
-- A slug is one segment of a path.
use mathlib.Core.List.{reverse, reverse-cons}
use package.true.DesignSystem.Persist.{dashed, is_slug_char, or_fallback, safe_slug}
use package.true.Prelude.{
  All, All-append, Bool, Bool-cases, [], eqb, false, if-P, if◌then◌else◌, inl, inr, refl, true, ℕ,
  ◌∷◌, ◌≡◌, ◌≢◌,
}
use package.true.Text.{Text, lower}
use package.true.Text.Cut.{lstrip, strip_by}

pub record IsSegment (t : Text) : Type 0 where
  pub safe : All (λ c. is_slug_char c ≡ true) t
  pub some_char : t ≢ []

dashed-safe : (inside : Bool) (t : Text) → All (λ c. is_slug_char c ≡ true) (dashed inside t)
unfolding dashed
dashed-safe inside [] = tt
dashed-safe inside (c ∷ t) = elim (Bool-cases (is_slug_char c)) [
  | inl e ↦ rw (e, dashed) (e, dashed-safe false t)
  | inr e ↦
      rw (e, dashed)
        (All-append (λ c. is_slug_char c ≡ true) (if inside then [] else b'-' ∷ []) (dashed true t)
          (if-P (All (λ c. is_slug_char c ≡ true)) inside tt (refl, tt)) (dashed-safe true t))
]

All-lstrip {ℓ} : (P : ℕ → Type ℓ) (q : ℕ → Bool) (t : Text) → All P t → All P (lstrip q t)
unfolding lstrip
All-lstrip P q [] h = tt
All-lstrip P q (c ∷ t) h = elim (Bool-cases (q c)) [
  | inl e ↦ rw (e, lstrip) (All-lstrip P q t h.1)
  | inr e ↦ rw (e, lstrip) h
]

All-reverse {ℓ} : (P : ℕ → Type ℓ) (t : Text) → All P t → All P (reverse t)
All-reverse P [] h = tt
All-reverse P (c ∷ t) h =
    rw reverse-cons (All-append P (reverse t) (c ∷ []) (All-reverse P t h.1) (h.0, tt))

or_fallback-IsSegment :
    (fallback t : Text)
    → IsSegment fallback
    → All (λ c. is_slug_char c ≡ true) t
    → IsSegment (or_fallback fallback t)
unfolding or_fallback
or_fallback-IsSegment fallback [] f h = f
or_fallback-IsSegment fallback (c ∷ t) f h = record { safe = h; some_char = λ e. cc }

-- Whatever the name is, its slug is a text of lower-case letters, digits, "_" and "-" that is not
-- empty, so that no separator and no dot stands in it, if the fallback is such a text.
pub safe_slug-IsSegment :
    (name fallback : Text) → IsSegment fallback → IsSegment (safe_slug name fallback)
unfolding safe_slug strip_by
safe_slug-IsSegment name fallback f = or_fallback-IsSegment fallback _ f (
    All-reverse _ _ (
      All-lstrip _ (eqb b'-') _
        (All-reverse _ _ (All-lstrip _ (eqb b'-') _ (dashed-safe false (lower name))))))
