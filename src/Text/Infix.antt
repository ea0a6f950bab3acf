-- ===== src/Text/Infix.antt =====
-- A text that stands nowhere in the parts of another one, and nowhere in what is joined from them.
use mathlib.Core.List.{reverse, reverse-append, reverse-reverse}
use package.true.Prelude.{
  All, Bool, Bool-cases, [], ap, arith, false, inl, inr, refl, sym, true, ℕ, ◌++◌, ◌||◌, ◌∙◌, ◌∷◌,
  ◌≡◌, ◌≢◌,
}
use package.true.Text.{Text}
use package.true.Text.Cut.{has, lstrip, starts_with, strip_by}

abbrev pub LastIsNot : ℕ → Text → Type 0
LastIsNot c [] = Unit
LastIsNot c (x ∷ []) = x ≢ c
LastIsNot c (x ∷ y ∷ p) = LastIsNot c (y ∷ p)

abbrev pub HeadIsNot : ℕ → Text → Type 0
HeadIsNot c [] = ⊥
HeadIsNot c (x ∷ p) = x ≢ c

starts_with-cut :
    (p s t : Text) (c : ℕ) → All (λ x. x ≢ c) p → starts_with p (s ++ (c ∷ t)) ≡ starts_with p s
unfolding starts_with
starts_with-cut [] s t c h = refl
starts_with-cut (x ∷ p) [] t c h = ground arith
starts_with-cut (x ∷ p) (y ∷ s) t c h = ground (arith, starts_with-cut p s t c h.1)

-- A text without a separator that stands in two texts put together with it stands in one of them.
pub has-cut :
    (p s t : Text) (c : ℕ)
    → HeadIsNot c p
    → All (λ x. x ≢ c) p
    → has p (s ++ (c ∷ t)) ≡ (has p s || has p t)
unfolding has
has-cut [] s t c n h = absurd n
has-cut (x ∷ p) [] t c n h = ground (arith, starts_with-cut (x ∷ p) [] t c h)
has-cut (x ∷ p) (y ∷ s) t c n h =
    ground (arith, starts_with-cut (x ∷ p) (y ∷ s) t c h, has-cut (x ∷ p) s t c n h)

pub has-cons : (p t : Text) (c : ℕ) → HeadIsNot c p → has p (c ∷ t) ≡ has p t
unfolding has starts_with
has-cons [] t c n = absurd n
has-cons (x ∷ p) t c n = ground arith

starts_with-snoc :
    (x : ℕ) (p s : Text) (c : ℕ)
    → LastIsNot c (x ∷ p)
    → starts_with (x ∷ p) (s ++ (c ∷ [])) ≡ starts_with (x ∷ p) s
unfolding starts_with
starts_with-snoc x [] [] c h = ground arith
starts_with-snoc x (y ∷ p) [] c h = ground arith
starts_with-snoc x [] (z ∷ s) c h = ground arith
starts_with-snoc x (y ∷ p) (z ∷ s) c h = ground (arith, starts_with-snoc y p s c h)

pub has-snoc :
    (p s : Text) (c : ℕ) → HeadIsNot c p → LastIsNot c p → has p (s ++ (c ∷ [])) ≡ has p s
unfolding has starts_with
has-snoc [] s c n h = absurd n
has-snoc (x ∷ p) [] c n h = ground (arith, starts_with-snoc x p [] c h)
has-snoc (x ∷ p) (y ∷ s) c n h =
    ground (arith, starts_with-snoc x p (y ∷ s) c h, has-snoc (x ∷ p) s c n h)

starts_with-append : (p s t : Text) → starts_with p s ≡ true → starts_with p (s ++ t) ≡ true
unfolding starts_with
starts_with-append [] s t h = refl
starts_with-append (x ∷ p) [] t h = absurd (cc)
starts_with-append (x ∷ p) (y ∷ s) t h = ground (arith, starts_with-append p s t)

has_nil : (t : Text) → has [] t ≡ true
unfolding has starts_with
has_nil [] = refl
has_nil (c ∷ t) = refl

has-append : (p s t : Text) → has p (s ++ t) ≡ false → has p s ≡ false
unfolding has starts_with
has-append [] [] t h = absurd (cc (has_nil t, h))
has-append (x ∷ p) [] t h = refl
has-append p (y ∷ s) t h = ground (arith, starts_with-append p (y ∷ s) t, has-append p s t)

lstrip_split : (q : ℕ → Bool) (t : Text) → (a : Text) × (t ≡ a ++ lstrip q t)
unfolding lstrip
lstrip_split q [] = ([], refl)
lstrip_split q (c ∷ t) = elim (Bool-cases (q c)) [
  | inl e ↦ let (a, h) = lstrip_split q t in (c ∷ a, rw (e, lstrip) (ap (λ (u : Text). c ∷ u) h))
  | inr e ↦ ([], rw (e, lstrip) refl)
]

-- What is stripped stands in the text.
pub strip_by_split :
    (q : ℕ → Bool) (t : Text) → (a : Text) × (b : Text) × (t ≡ a ++ (strip_by q t ++ b))
unfolding strip_by
strip_by_split q t =
    let (a, e) = lstrip_split q t in
    let (b, f) = lstrip_split q (reverse (lstrip q t)) in
    let inner : lstrip q t ≡ reverse (lstrip q (reverse (lstrip q t))) ++ reverse b =
      sym (reverse-reverse (lstrip q t))
      ∙ ap reverse f
      ∙ reverse-append b (lstrip q (reverse (lstrip q t))) in
    (a, reverse b, e ∙ ap (λ (u : Text). a ++ u) inner)

-- What stands nowhere in a text stands in no part of it.
pub has-middle : (p a s b : Text) → has p (a ++ (s ++ b)) ≡ false → has p s ≡ false
unfolding has
has-middle p [] s b h = has-append p s b h
has-middle p (c ∷ a) s b h = has-middle p a s b (ground arith)
