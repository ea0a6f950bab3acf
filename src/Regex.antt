-- ===== src/Regex.antt =====
-- The regular expressions that the scripts match whole texts with: `re.fullmatch` as a test by
-- derivatives, and the relation that it decides.
use package.true.Prelude.{
  All, All-append, Bool, Bool-cases, [], ap, arith, eqb, false, if◌then◌else◌, inl, inr, refl, sym,
  true, ℕ, ◌&&◌, ◌++◌, ◌||◌, ◌∙◌, ◌∷◌, ◌≡◌,
}
use package.true.Text.{Text}

pub data Regex : Type 0 where
  void blank : Regex
  class : (ℕ → Bool) → Regex
  seq alt : Regex → Regex → Regex
  star : Regex → Regex

-- `r+` and `r?`
abbrev pub plus : Regex → Regex
plus r = seq r (star r)

abbrev pub optional : Regex → Regex
optional r = alt r blank

abbrev pub symbol : ℕ → Regex
symbol c = class (eqb c)

nullable : Regex → Bool
nullable void = false
nullable blank = true
nullable (class p) = false
nullable (seq r q) = nullable r && nullable q
nullable (alt r q) = nullable r || nullable q
nullable (star r) = true

deriv : ℕ → Regex → Regex
unfolding nullable
deriv c void = void
deriv c blank = void
deriv c (class p) = if p c then blank else void
deriv c (seq r q) = alt (seq (deriv c r) q) (if nullable r then deriv c q else void)
deriv c (alt r q) = alt (deriv c r) (deriv c q)
deriv c (star r) = seq (deriv c r) (star r)

unfoldable pub fullmatch : Regex → Text → Bool
unfolding deriv nullable
fullmatch r [] = nullable r
fullmatch r (c ∷ s) = fullmatch (deriv c r) s

-- The text is in the language of the expression.
pub data Matches : Regex → Text → Type 0 where
  m_blank : Matches blank []
  m_class : {p : ℕ → Bool} {c : ℕ} → p c ≡ true → Matches (class p) (c ∷ [])
  m_seq :
      {r q : Regex} {s t u : Text} → Matches r s → Matches q t → u ≡ s ++ t → Matches (seq r q) u
  m_left : {r q : Regex} {s : Text} → Matches r s → Matches (alt r q) s
  m_right : {r q : Regex} {s : Text} → Matches q s → Matches (alt r q) s
  m_stop : {r : Regex} → Matches (star r) []
  m_more :
      {r : Regex} {s t u : Text}
      → Matches r s
      → Matches (star r) t
      → u ≡ s ++ t
      → Matches (star r) u

nullable_sound : (r : Regex) → nullable r ≡ true → Matches r []
unfolding nullable
nullable_sound void h = absurd (cc)
nullable_sound blank h = m_blank
nullable_sound (class p) h = absurd (cc)
nullable_sound (seq r q) h =
    m_seq (nullable_sound r (ground arith)) (nullable_sound q (ground arith)) refl
nullable_sound (alt r q) h = elim (Bool-cases (nullable r)) [
  | inl e ↦ m_left (nullable_sound r e)
  | inr e ↦ m_right (nullable_sound q (ground arith))
]
nullable_sound (star r) h = m_stop

void_inv : {r : Regex} {s : Text} → Matches r s → r ≡ void → ⊥
void_inv m_blank e = cc
void_inv (m_class h) e = cc
void_inv (m_seq a b h) e = cc
void_inv (m_left a) e = cc
void_inv (m_right a) e = cc
void_inv m_stop e = cc
void_inv (m_more a b h) e = cc

blank_inv : {r : Regex} {s : Text} → Matches r s → r ≡ blank → s ≡ []
blank_inv m_blank e = refl
blank_inv (m_class h) e = cc
blank_inv (m_seq a b h) e = cc
blank_inv (m_left a) e = cc
blank_inv (m_right a) e = cc
blank_inv m_stop e = cc
blank_inv (m_more a b h) e = cc

class_deriv :
    {p : ℕ → Bool} {c : ℕ} {s : Text} (b : Bool)
    → p c ≡ b
    → Matches (if b then blank else void) s
    → Matches (class p) (c ∷ s)
class_deriv true e m = rw (blank_inv m refl) (m_class e)
class_deriv false e m = absurd (void_inv m refl)

seq_deriv :
    {r q t : Regex} {c : ℕ} {s : Text} (b : Bool)
    → nullable r ≡ b
    → (Matches t s → Matches q (c ∷ s))
    → Matches (if b then t else void) s
    → Matches (seq r q) (c ∷ s)
seq_deriv {r} true e k m = m_seq (nullable_sound r e) (k m) refl
seq_deriv false e k m = absurd (void_inv m refl)

deriv_sound : (c : ℕ) (r : Regex) {s : Text} → Matches (deriv c r) s → Matches r (c ∷ s)
unfolding deriv
deriv_sound c void m = absurd (void_inv m refl)
deriv_sound c blank m = absurd (void_inv m refl)
deriv_sound c (class p) m = class_deriv (p c) refl m
deriv_sound c (seq r q) (m_left (m_seq a b e)) = m_seq (deriv_sound c r a) b (ap (λ t. c ∷ t) e)
deriv_sound c (seq r q) (m_right b) = seq_deriv (nullable r) refl (λ m. deriv_sound c q m) b
deriv_sound c (alt r q) (m_left a) = m_left (deriv_sound c r a)
deriv_sound c (alt r q) (m_right b) = m_right (deriv_sound c q b)
deriv_sound c (star r) (m_seq a b e) = m_more (deriv_sound c r a) b (ap (λ t. c ∷ t) e)

pub fullmatch_sound : (r : Regex) (s : Text) → fullmatch r s ≡ true → Matches r s
unfolding fullmatch
fullmatch_sound r [] h = nullable_sound r h
fullmatch_sound r (c ∷ s) h = deriv_sound c r (fullmatch_sound (deriv c r) s h)

nullable_complete : {r : Regex} {s : Text} → Matches r s → s ≡ [] → nullable r ≡ true
unfolding nullable
nullable_complete m_blank e = refl
nullable_complete (m_class h) e = cc
nullable_complete (m_seq {s = []} {t = []} a b h) e =
    ground (arith, nullable_complete a refl, nullable_complete b refl)
nullable_complete (m_seq {s = []} {t = y ∷ t} a b h) e = cc
nullable_complete (m_seq {s = x ∷ s} a b h) e = cc
nullable_complete (m_left a) e = ground (arith, nullable_complete a e)
nullable_complete (m_right a) e = ground (arith, nullable_complete a e)
nullable_complete m_stop e = refl
nullable_complete (m_more a b h) e = refl

deriv_complete :
    {r : Regex} {u : Text} (c : ℕ) (s : Text) → Matches r u → u ≡ c ∷ s → Matches (deriv c r) s
unfolding deriv
deriv_complete c s m_blank e = absurd (cc)
deriv_complete {r = class p} c s (m_class h) e =
    let yes_c : p c ≡ true = cc in let done : s ≡ [] = cc in rw yes_c (rw done m_blank)
deriv_complete c s (m_seq {r} {s = []} a b h) e =
    let none_left : nullable r ≡ true = nullable_complete a refl in
    m_right (rw none_left (deriv_complete c s b (sym h ∙ e)))
deriv_complete c s (m_seq {s = x ∷ v} {t} a b h) e =
    let rest : s ≡ v ++ t = cc in
    let first : x ∷ v ≡ c ∷ v = cc in m_left (m_seq (deriv_complete c v a first) b rest)
deriv_complete c s (m_left a) e = m_left (deriv_complete c s a e)
deriv_complete c s (m_right a) e = m_right (deriv_complete c s a e)
deriv_complete c s m_stop e = absurd (cc)
deriv_complete c s (m_more {s = []} a b h) e = deriv_complete c s b (sym h ∙ e)
deriv_complete c s (m_more {s = x ∷ v} {t} a b h) e =
    let rest : s ≡ v ++ t = cc in
    let first : x ∷ v ≡ c ∷ v = cc in m_seq (deriv_complete c v a first) b rest

pub fullmatch_complete : {r : Regex} (s : Text) → Matches r s → fullmatch r s ≡ true
unfolding fullmatch
fullmatch_complete [] m = nullable_complete m refl
fullmatch_complete (c ∷ s) m = fullmatch_complete s (deriv_complete c s m refl)

-- Every character of the expression's classes is in `P`.
abbrev pub Within : (ℕ → Type 0) → Regex → Type 0
Within P void = Unit
Within P blank = Unit
Within P (class p) = (c : ℕ) → p c ≡ true → P c
Within P (seq r q) = Within P r × Within P q
Within P (alt r q) = Within P r × Within P q
Within P (star r) = Within P r

module _ (P : ℕ → Type 0) where
  -- A match consists of such characters.
  pub Matches-All : {r : Regex} {s : Text} → Matches r s → Within P r → All P s
  Matches-All m_blank w = tt
  Matches-All (m_class {c} h) w = (w c h, tt)
  Matches-All (m_seq {s} {t} a b e) w =
      rw e (All-append P s t (Matches-All a w.0) (Matches-All b w.1))
  Matches-All (m_left a) w = Matches-All a w.0
  Matches-All (m_right a) w = Matches-All a w.1
  Matches-All m_stop w = tt
  Matches-All (m_more {s} {t} a b e) w = rw e (All-append P s t (Matches-All a w) (Matches-All b w))
