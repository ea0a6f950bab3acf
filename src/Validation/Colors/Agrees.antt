-- ===== src/Validation/Colors/Agrees.antt =====
-- The contrast that the contract finds is the one that the design system generator finds.
use mathlib.Core.List.{reverse}
use mathlib.Core.Path.{subst}
use package.true.DesignSystem.Colors.{
  channel, channel_of, channels, contrast_of, contrast_ratio, hex_digits, hex_pair, hex_value,
  larger, linear, luminance_of, plus_of, relative_luminance, smaller, weighted,
}
use package.true.Floats.{Floats}
use package.true.Prelude.{
  Bool, Bool-cases, Option-cases, [], ap, arith, eqb, false, inl, inr, is_none, refl, some, sym,
  true, ℕ, ◌*◌, ◌+◌, ◌∙◌, ◌∷◌, ◌≡◌, ◌⊎◌,
}
use package.true.Text.{Text, is_digit, is_space}
use package.true.Text.Cut.{lstrip, strip, strip_by}
use package.true.Validation.Colors.{
  checked_contrast, checked_luminance, digits_channel, float_of_signed, is_hex_color, is_hex_digit,
  linear_channel, luminance_of_digits, ratio_of,
}

digit-hex_value : (c : ℕ) → is_hex_digit c ≡ true → is_none (hex_value c) ≡ false
unfolding is_hex_digit hex_value
digit-hex_value c h = ground arith

digit_no_space : (c : ℕ) → is_hex_digit c ≡ true → is_space c ≡ false
unfolding is_hex_digit is_digit is_space
digit_no_space c h = ground arith

digit_no_mark : (c : ℕ) → is_hex_digit c ≡ true → eqb b'#' c ≡ false
unfolding is_hex_digit is_digit
digit_no_mark c h = ground arith

lstrip_stop : (p : ℕ → Bool) (c : ℕ) (t : Text) → p c ≡ false → lstrip p (c ∷ t) ≡ c ∷ t
unfolding lstrip
lstrip_stop p c t h = rw (h, lstrip) refl

mark_no_space : is_space b'#' ≡ false
unfolding is_space
mark_no_space = refl

strip-hex_color :
    (a b c d e f : ℕ)
    → is_space f ≡ false
    → strip (b'#' ∷ a ∷ b ∷ c ∷ d ∷ e ∷ f ∷ []) ≡ b'#' ∷ a ∷ b ∷ c ∷ d ∷ e ∷ f ∷ []
unfolding strip strip_by
strip-hex_color a b c d e f h =
    ap (λ (u : Text). reverse (lstrip is_space (reverse u)))
      (lstrip_stop is_space b'#' (a ∷ b ∷ c ∷ d ∷ e ∷ f ∷ []) mark_no_space)
    ∙ ap (λ (u : Text). reverse u) (lstrip_stop is_space f (e ∷ d ∷ c ∷ b ∷ a ∷ b'#' ∷ []) h)

unmarked :
    (a b c d e f : ℕ)
    → is_space f ≡ false
    → eqb b'#' a ≡ false
    → lstrip (eqb b'#') (strip (b'#' ∷ a ∷ b ∷ c ∷ d ∷ e ∷ f ∷ [])) ≡ a ∷ b ∷ c ∷ d ∷ e ∷ f ∷ []
unfolding lstrip
unmarked a b c d e f h k =
    ap (λ (u : Text). lstrip (eqb b'#') u) (strip-hex_color a b c d e f h)
    ∙ lstrip_stop (eqb b'#') a (b ∷ c ∷ d ∷ e ∷ f ∷ []) k

hex_digits-hex_color :
    (a b c d e f : ℕ)
    → is_space f ≡ false
    → eqb b'#' a ≡ false
    → hex_digits (b'#' ∷ a ∷ b ∷ c ∷ d ∷ e ∷ f ∷ []) ≡ a ∷ b ∷ c ∷ d ∷ e ∷ f ∷ []
unfolding hex_digits
hex_digits-hex_color a b c d e f h k = rw (unmarked a b c d e f h k, hex_digits) refl

digits-hex_pair :
    (c d : ℕ)
    → is_hex_digit c ≡ true
    → is_hex_digit d ≡ true
    → (n : ℕ) × (hex_pair c d ≡ some (plus_of n))
unfolding hex_pair
digits-hex_pair c d h k = elim (Option-cases (hex_value c)) [
  | inl e ↦ absurd (cc (digit-hex_value c h, e))
  | inr (m, e) ↦ elim (Option-cases (hex_value d)) [
    | inl f ↦ absurd (cc (digit-hex_value d k, f))
    | inr (n, f) ↦ (16 * m + n, rw (e, f, hex_pair) refl)
  ]
]

pub sum_cases {ℓ κ} :
    {A : Type ℓ} {B : Type κ} (s : A ⊎ B) → ((a : A) × (s ≡ inl a)) ⊎ ((b : B) × (s ≡ inr b))
sum_cases (inl a) = inl (a, refl)
sum_cases (inr b) = inr (b, refl)

module _ (fl : Floats) where
  channel-agrees :
      (c d : ℕ)
      → is_hex_digit c ≡ true
      → is_hex_digit d ≡ true
      → channel fl c d ≡ some (digits_channel fl c d)
  unfolding channel digits_channel channel_of float_of_signed
  channel-agrees c d h k =
      let (n, e) = digits-hex_pair c d h k in rw (e, channel, digits_channel) refl

  linear-agrees : (c : fl.Float) → linear fl c ≡ linear_channel fl c
  unfolding linear linear_channel
  linear-agrees c = refl

  digits-luminance :
      (a b c d e f : ℕ)
      → is_hex_color (b'#' ∷ a ∷ b ∷ c ∷ d ∷ e ∷ f ∷ []) ≡ true
      → relative_luminance fl (b'#' ∷ a ∷ b ∷ c ∷ d ∷ e ∷ f ∷ [])
        ≡ some (luminance_of_digits fl (b'#' ∷ a ∷ b ∷ c ∷ d ∷ e ∷ f ∷ []))
  unfolding relative_luminance channels luminance_of weighted luminance_of_digits is_hex_color
      linear linear_channel
  digits-luminance a b c d e f h =
      ap (λ (t : Text). channels fl t)
        (hex_digits-hex_color a b c d e f (digit_no_space f (ground arith))
          (digit_no_mark a (ground arith)))
      ∙ rw
          (
            channel-agrees a b (ground arith) (ground arith),
            channel-agrees c d (ground arith) (ground arith),
            channel-agrees e f (ground arith) (ground arith),
          )
          refl

  hex_color-luminance :
      (value : Text)
      → is_hex_color value ≡ true
      → relative_luminance fl value ≡ some (luminance_of_digits fl value)
  unfolding is_hex_color
  hex_color-luminance (h ∷ a ∷ b ∷ c ∷ d ∷ e ∷ f ∷ []) k =
      let mark : h ≡ b'#' = ground arith in
      subst
        (λ (m : ℕ).
          relative_luminance fl (m ∷ a ∷ b ∷ c ∷ d ∷ e ∷ f ∷ [])
          ≡ some (luminance_of_digits fl (m ∷ a ∷ b ∷ c ∷ d ∷ e ∷ f ∷ [])))
        (sym mark) (digits-luminance a b c d e f (ground arith))
  hex_color-luminance [] k = absurd cc
  hex_color-luminance (a ∷ []) k = absurd cc
  hex_color-luminance (a ∷ b ∷ []) k = absurd cc
  hex_color-luminance (a ∷ b ∷ c ∷ []) k = absurd cc
  hex_color-luminance (a ∷ b ∷ c ∷ d ∷ []) k = absurd cc
  hex_color-luminance (a ∷ b ∷ c ∷ d ∷ e ∷ []) k = absurd cc
  hex_color-luminance (a ∷ b ∷ c ∷ d ∷ e ∷ f ∷ []) k = absurd cc
  hex_color-luminance (a ∷ b ∷ c ∷ d ∷ e ∷ f ∷ g ∷ h ∷ t) k = absurd cc

  luminance-agrees :
      (value : Text) (x : fl.Float)
      → checked_luminance fl value ≡ inr x
      → relative_luminance fl value ≡ some x
  unfolding checked_luminance
  luminance-agrees value x h = elim (Bool-cases (is_hex_color value)) [
    | inl e ↦ hex_color-luminance value e ∙ ground (arith, h, e)
    | inr e ↦ absurd (cc (h, e))
  ]

  -- A contrast that `contrast_ratio` returns is the one that `_contrast_ratio` of the generator returns.
  pub checked_contrast-agrees :
      (foreground background : Text) (x : fl.Float)
      → checked_contrast fl foreground background ≡ inr x
      → contrast_ratio fl foreground background ≡ some x
  unfolding checked_contrast contrast_ratio contrast_of larger smaller ratio_of
  checked_contrast-agrees foreground background x h =
      elim (sum_cases (checked_luminance fl foreground)) [
        | inl (value, e) ↦ absurd (cc (h, e))
        | inr (a, e) ↦ elim (sum_cases (checked_luminance fl background)) [
          | inl (value, f) ↦ absurd (cc (h, e, f))
          | inr (b, f) ↦
              rw (luminance-agrees foreground a e, luminance-agrees background b f)
                (ground (arith, h, e, f))
        ]
      ]
