-- ===== src/DesignSystem/Dials.antt =====
-- `DIAL_TIERS` and `_resolve_dial`: the three dials from 1 to 10, and the tier of a value.
-- What a tier sets: its keys other than the label, where the dial has them.
use mathlib.Core.List.{Mem, mem-cons_of_mem, mem-cons_self}
use mathlib.Core.Path.{subst}
use package.true.Dict.{Dict}
use package.true.Prelude.{
  Bool-cases, List, Option, String, [], arith, if◌then◌else◌, inl, inr, leb, map, max, min, negsuc,
  none, pos, refl, some, suc, sym, zero, ℕ, ℤ, ◌&&◌, ◌+◌, ◌<◌, ◌∷◌, ◌≡◌, ◌≤◌,
}
use package.true.Text.{Text, lit}

pub record Tier : Type 0 where
  pub lo : ℕ
  pub hi : ℕ
  pub label : Text
  pub style_keywords : List Text
  pub tier : Text
  pub spacing : Dict Text

pub record Dial : Type 0 where
  pub info : Tier
  pub value : ℕ

pub data DialName : Type 0 where
  variance motion density : DialName

variance_tier : ℕ → ℕ → String → List String → Tier
variance_tier lo hi label keywords = record {
  lo = lo;
  hi = hi;
  label = lit label;
  style_keywords = map lit keywords;
  tier = [];
  spacing = [];
}

motion_tier : ℕ → ℕ → String → Tier
motion_tier lo hi label = record {
  lo = lo;
  hi = hi;
  label = lit label;
  style_keywords = [];
  tier = lit label;
  spacing = [];
}

-- the sizes of xs, sm, md, lg, xl, 2xl and 3xl
spacing_of : List String → List String → Dict Text
spacing_of [] sizes = []
spacing_of (name ∷ names) [] = []
spacing_of (name ∷ names) (size ∷ sizes) = (lit name, lit size) ∷ spacing_of names sizes

density_tier : ℕ → ℕ → String → List String → Tier
unfolding spacing_of
density_tier lo hi label sizes = record {
  lo = lo;
  hi = hi;
  label = lit label;
  style_keywords = [];
  tier = [];
  spacing = spacing_of ("xs" ∷ "sm" ∷ "md" ∷ "lg" ∷ "xl" ∷ "2xl" ∷ "3xl" ∷ []) sizes;
}

-- DIAL_TIERS[dial_name]
unfoldable pub dial_tiers : DialName → List Tier
unfolding variance_tier motion_tier density_tier
dial_tiers variance =
    variance_tier 1 3 "Centered / Minimal"
      ("Minimalism" ∷ "Exaggerated Minimalism" ∷ "centered" ∷ "symmetric" ∷ "grid-based" ∷ [])
    ∷ variance_tier 4 7 "Balanced / Modern" ("modern" ∷ "structured" ∷ "balanced" ∷ [])
    ∷ variance_tier 8 10 "Bold / Asymmetric"
        ("Brutalism" ∷ "Bento Grids" ∷ "asymmetric" ∷ "experimental" ∷ [])
    ∷ []
dial_tiers motion =
    motion_tier 1 3 "Subtle" ∷ motion_tier 4 7 "Standard" ∷ motion_tier 8 10 "Complex" ∷ []
dial_tiers density =
    density_tier 1 3 "Spacious" ("4px" ∷ "8px" ∷ "24px" ∷ "32px" ∷ "48px" ∷ "64px" ∷ "96px" ∷ [])
    ∷ density_tier 4 7 "Standard" ("4px" ∷ "8px" ∷ "16px" ∷ "24px" ∷ "32px" ∷ "48px" ∷ "64px" ∷ [])
    ∷ density_tier 8 10 "Dense / Dashboard"
        ("2px" ∷ "4px" ∷ "8px" ∷ "12px" ∷ "16px" ∷ "24px" ∷ "32px" ∷ [])
    ∷ []

-- max(1, min(10, int(value)))
unfoldable pub clamped : ℤ → ℕ
clamped (pos n) = max 1 (min 10 n)
clamped (negsuc n) = 1

-- the first tier whose range holds the value
unfoldable pub tier_of : ℕ → List Tier → Option Dial
tier_of value [] = none
tier_of value (t ∷ tiers) =
    let rest = tier_of value tiers in
    if leb t.lo value && leb value t.hi then some (record { info = t; value = value }) else rest

-- `_resolve_dial`
unfoldable pub resolve_dial : DialName → Option ℤ → Option Dial
unfolding tier_of clamped dial_tiers
resolve_dial name none = none
resolve_dial name (some setting) = tier_of (clamped setting) (dial_tiers name)

-- The number moved into the range from 1 to 10: itself where it is in it, else the nearer end.
pub data IsClamped : ℤ → ℕ → Type 0 where
  inside : {n : ℕ} → 1 ≤ n → n ≤ 10 → IsClamped (pos n) n
  above : {n : ℕ} → 10 < n → IsClamped (pos n) 10
  at_zero : IsClamped (pos 0) 1
  below : {n : ℕ} → IsClamped (negsuc n) 1

clamped-IsClamped : (setting : ℤ) → IsClamped setting (clamped setting)
unfolding clamped
clamped-IsClamped (pos zero) = at_zero
clamped-IsClamped (pos (suc n)) = elim (Bool-cases (leb (suc n) 10)) [
  | inl e ↦
      let same : suc n ≡ max 1 (min 10 (suc n)) = ground (arith, e) in
      subst (λ v. IsClamped (pos (suc n)) v) same (inside (omega arith) (ground (arith, e)))
  | inr e ↦
      let same : 10 ≡ max 1 (min 10 (suc n)) = ground (arith, e) in
      subst (λ v. IsClamped (pos (suc n)) v) same (above (ground (arith, e)))
]
clamped-IsClamped (negsuc n) = below

IsClamped-bounds : {setting : ℤ} {value : ℕ} → IsClamped setting value → (1 ≤ value) × (value ≤ 10)
IsClamped-bounds (inside a b) = (a, b)
IsClamped-bounds (above a) = omega arith
IsClamped-bounds at_zero = omega arith
IsClamped-bounds below = omega arith

-- A dial of the value, in one of the tiers.
pub record IsDialOf (tiers : List Tier) (value : ℕ) (d : Dial) : Type 0 where
  pub listed : Mem d.info tiers
  pub value-eq : d.value ≡ value
  pub at_least : d.info.lo ≤ value
  pub at_most : value ≤ d.info.hi

-- The tiers leave no gap from a number up to 10.
abbrev Covers : ℕ → List Tier → Type 0
Covers from [] = 10 < from
Covers from (t ∷ tiers) = (t.lo ≤ from) × Covers (t.hi + 1) tiers

tier_of-Covers :
    (tiers : List Tier) (from value : ℕ)
    → Covers from tiers
    → from ≤ value
    → value ≤ 10
    → (d : Dial) × (tier_of value tiers ≡ some d) × IsDialOf tiers value d
unfolding tier_of
tier_of-Covers [] from value c a b = absurd (omega arith)
tier_of-Covers (t ∷ tiers) from value c a b = elim (Bool-cases (leb value t.hi)) [
  | inl e ↦ (
    record { info = t; value = value },
    ground arith,
    record {
      listed = mem-cons_self;
      value-eq = refl;
      at_least = omega arith;
      at_most = ground arith;
    },
  )
  | inr e ↦
      let (d, found, is) = tier_of-Covers tiers (t.hi + 1) value c.1 (ground arith) b in
      (
        d,
        ground (arith, found),
        record {
          listed = mem-cons_of_mem _ is.listed;
          value-eq = is.value-eq;
          at_least = is.at_least;
          at_most = is.at_most;
        },
      )
]

dial_tiers-Covers : (name : DialName) → Covers 1 (dial_tiers name)
unfolding dial_tiers variance_tier motion_tier density_tier
dial_tiers-Covers variance = omega arith
dial_tiers-Covers motion = omega arith
dial_tiers-Covers density = omega arith

-- Whatever whole number a dial is set to, it has a value and a tier: the value is the number itself
-- if it is from 1 to 10, else 1 for a smaller and 10 for a greater number; the tier is one of the tiers
-- of the dial's name, and its range holds the value.
pub resolve_dial-IsDialOf :
    (name : DialName) (setting : ℤ)
    → (d : Dial) × (resolve_dial name (some setting) ≡ some d)
      × IsClamped setting d.value
      × IsDialOf (dial_tiers name) d.value d
unfolding resolve_dial
resolve_dial-IsDialOf name setting =
    let moved = clamped-IsClamped setting in
    let bounds = IsClamped-bounds moved in
    let (d, found, is) =
      tier_of-Covers (dial_tiers name) 1 (clamped setting) (dial_tiers-Covers name) bounds.0
        bounds.1 in
    (
      d,
      found,
      subst (λ v. IsClamped setting v) (sym is.value-eq) moved,
      subst (λ v. IsDialOf (dial_tiers name) v d) (sym is.value-eq) is,
    )
