-- ===== src/Text.antt =====
-- Python's `str` as the list of its code points, and the methods that the scripts call on it.
-- Letters, digits and white space are those of ASCII.
pub mod Cut
pub mod Phrase
pub mod Infix
pub mod Pigeonhole
pub mod Among
use Prim.Native.Char.{code}
use package.true.Prelude.{
  Bool, List, String, [], arith, eqb, false, if◌then◌else◌, ite, leb, length, ltb, map, refl, true,
  ℕ, ℕ_discrete, ◌&&◌, ◌++◌, ◌+◌, ◌||◌, ◌∷◌, ◌≡◌, ◌≤◌,
}

abbrev pub Text : Type 0
Text = List ℕ

-- A literal of the source. It is shut, so that a long literal is one atom in a proof.
unfoldable pub lit : String → Text
lit String.[] = []
lit (String.◌∷◌ c s) = code c ∷ lit s

unfoldable pub Text-discrete : Discrete Text
unfolding ℕ_discrete
Text-discrete = hlevel ℕ_discrete

infix 50 ◌==◌
abbrev pub ◌==◌ : Text → Text → Bool
s == t = ite (Text-discrete s t) true false

-- `t in ts` for a list, a tuple or a set of texts
abbrev pub contains : List Text → Text → Bool
contains [] t = false
contains (x ∷ xs) t = t == x || contains xs t

unfoldable pub is_lower_letter : ℕ → Bool
is_lower_letter c = leb b'a' c && leb c b'z'

unfoldable pub is_upper_letter : ℕ → Bool
is_upper_letter c = leb b'A' c && leb c b'Z'

unfoldable pub is_digit : ℕ → Bool
is_digit c = leb b'0' c && leb c b'9'

-- `\w`
unfoldable pub is_word : ℕ → Bool
unfolding is_lower_letter is_upper_letter is_digit
is_word c = is_lower_letter c || is_upper_letter c || is_digit c || eqb c b'_'

-- `\s`: the space, and tab to carriage return; `str.split` and `str.strip` also take 28 to 31
unfoldable pub is_space : ℕ → Bool
is_space c = eqb c b' ' || (leb 9 c && leb c 13) || (leb 28 c && leb c 31)

unfoldable pub lower_char : ℕ → ℕ
unfolding is_upper_letter
lower_char c = if is_upper_letter c then c + 32 else c

-- str.lower(), and str.casefold(), which is the same on ASCII
unfoldable pub lower : Text → Text
unfolding lower_char
lower = map lower_char

-- `t not in ts` for each text and those behind it: no text stands twice
abbrev pub Distinct : List Text → Type 0
Distinct [] = Unit
Distinct (t ∷ ts) = (contains ts t ≡ false) × Distinct ts

-- set(ts), as a list
unfoldable pub to_set : List Text → List Text
to_set [] = []
to_set (t ∷ ts) = let rest = to_set ts in if contains ts t then rest else t ∷ rest

length-to_set-le : (ts : List Text) → length (to_set ts) ≤ length ts
unfolding to_set
length-to_set-le [] = omega arith
length-to_set-le (t ∷ ts) = ground (arith, length-to_set-le ts)

-- `len(ts) == len(set(ts))` says that no text stands twice.
pub to_set-Distinct : (ts : List Text) → eqb (length ts) (length (to_set ts)) ≡ true → Distinct ts
unfolding to_set
to_set-Distinct [] h = tt
to_set-Distinct (t ∷ ts) h = ground (arith, length-to_set-le ts, to_set-Distinct ts)

pub Distinct-to_set : (ts : List Text) → Distinct ts → length (to_set ts) ≡ length ts
unfolding to_set
Distinct-to_set [] h = refl
Distinct-to_set (t ∷ ts) h = ground (arith, Distinct-to_set ts h.1)

pub contains-append :
    (xs ys : List Text) (t : Text) → contains (xs ++ ys) t ≡ (contains xs t || contains ys t)
contains-append [] ys t = refl
contains-append (x ∷ xs) ys t = ground (arith, contains-append xs ys t)

pub ==_eq : (s t : Text) → (s == t) ≡ true → s ≡ t
==_eq s t h = ground arith

-- a text that is not there yet may be appended
pub snoc-Distinct :
    (ts : List Text) (t : Text) → Distinct ts → contains ts t ≡ false → Distinct (ts ++ t ∷ [])
snoc-Distinct [] t d n = (refl, tt)
snoc-Distinct (u ∷ ts) t d n = ground (arith, snoc-Distinct ts t, contains-append ts (t ∷ []) u)

-- Python's `<` on texts
unfoldable pub text_less : Text → Text → Bool
text_less s [] = false
text_less [] (d ∷ t) = true
text_less (c ∷ s) (d ∷ t) = ltb c d || (eqb c d && text_less s t)
