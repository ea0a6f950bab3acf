-- ===== src/Text/Phrase.antt =====
-- The search for a phrase at token boundaries: `re.search(r'(?<!\w)' + re.escape(p) + r'(?!\w)', t)`.
-- `p` stands at the front of the text and no word character follows it
use package.true.Prelude.{
  Bool, Bool-cases, [], ap, arith, eqb, false, inl, inr, not, refl, true, ℕ, ◌&&◌, ◌++◌, ◌||◌, ◌∷◌,
  ◌≡◌,
}
use package.true.Text.{Text, is_word}

unfoldable pub phrase_here : Text → Text → Bool
phrase_here [] [] = true
phrase_here [] (c ∷ t) = not (is_word c)
phrase_here (x ∷ p) [] = false
phrase_here (x ∷ p) (c ∷ t) = eqb x c && phrase_here p t

-- the flag says that a word character stands before the text
phrase_from : Bool → Text → Text → Bool
unfolding phrase_here
phrase_from after p [] = not after && phrase_here p []
phrase_from after p (c ∷ t) = (not after && phrase_here p (c ∷ t)) || phrase_from (is_word c) p t

unfoldable pub has_phrase : Text → Text → Bool
unfolding phrase_from
has_phrase p t = phrase_from false p t

-- No word character stands first in the text; last in it.
abbrev pub OpensApart : Text → Type 0
OpensApart [] = Unit
OpensApart (c ∷ t) = is_word c ≡ false

abbrev pub ClosesApart : Text → Type 0
ClosesApart [] = Unit
ClosesApart (c ∷ []) = is_word c ≡ false
ClosesApart (c ∷ d ∷ t) = ClosesApart (d ∷ t)

-- The phrase stands somewhere in the text with no word character at either side of it.
pub record Occurs (p t : Text) : Type 0 where
  pub before : Text
  pub after : Text
  pub split : t ≡ before ++ (p ++ after)
  pub left : ClosesApart before
  pub right : OpensApart after

here_sound : (p t : Text) → phrase_here p t ≡ true → (q : Text) × (t ≡ p ++ q) × OpensApart q
unfolding phrase_here
here_sound [] [] h = ([], refl, tt)
here_sound [] (c ∷ t) h = (c ∷ t, refl, ground arith)
here_sound (x ∷ p) [] h = absurd (cc)
here_sound (x ∷ p) (c ∷ t) h =
    let (q, e, o) = here_sound p t (ground arith) in (q, ground (arith, e), o)

here_complete : (p q : Text) → OpensApart q → phrase_here p (p ++ q) ≡ true
unfolding phrase_here
here_complete [] [] o = refl
here_complete [] (c ∷ t) o = ground arith
here_complete (x ∷ p) q o = ground (arith, here_complete p q o)

ClosesApart-cons :
    (c : ℕ) (t : Text) → (t ≡ [] → is_word c ≡ false) → ClosesApart t → ClosesApart (c ∷ t)
ClosesApart-cons c [] h k = h refl
ClosesApart-cons c (d ∷ t) h k = k

Occurs-cons :
    (c : ℕ) (p t : Text) (o : Occurs p t) → (o.before ≡ [] → is_word c ≡ false) → Occurs p (c ∷ t)
Occurs-cons c p t o h = record {
  before = c ∷ o.before;
  after = o.after;
  split = ap (λ s. c ∷ s) o.split;
  left = ClosesApart-cons c o.before h o.left;
  right = o.right;
}

from_sound :
    (after : Bool) (p t : Text)
    → phrase_from after p t ≡ true
    → (o : Occurs p t) × (o.before ≡ [] → after ≡ false)
unfolding phrase_from Occurs-cons
from_sound after p [] h =
    let (q, e, apart) = here_sound p [] (ground arith) in
    (record { before = []; after = q; split = e; left = tt; right = apart }, λ _. ground arith)
from_sound after p (c ∷ t) h = elim (Bool-cases (not after && phrase_here p (c ∷ t))) [
  | inl e ↦
      let (q, f, apart) = here_sound p (c ∷ t) (ground arith) in
      (record { before = []; after = q; split = f; left = tt; right = apart }, λ _. ground arith)
  | inr e ↦
      let (o, left) = from_sound (is_word c) p t (ground arith) in
      (Occurs-cons c p t o left, λ k. cc)
]

from_here :
    (after : Bool) (p t : Text)
    → after ≡ false
    → phrase_here p t ≡ true
    → phrase_from after p t ≡ true
unfolding phrase_from
from_here after p [] a h = ground arith
from_here after p (c ∷ t) a h = ground arith

ClosesApart-last : (c : ℕ) (t : Text) → ClosesApart (c ∷ t) → t ≡ [] → is_word c ≡ false
ClosesApart-last c [] h e = h
ClosesApart-last c (d ∷ t) h e = cc

ClosesApart-tail : (c : ℕ) (t : Text) → ClosesApart (c ∷ t) → ClosesApart t
ClosesApart-tail c [] h = tt
ClosesApart-tail c (d ∷ t) h = h

from_complete :
    (after : Bool) (p b q : Text)
    → (b ≡ [] → after ≡ false)
    → ClosesApart b
    → OpensApart q
    → phrase_from after p (b ++ (p ++ q)) ≡ true
unfolding phrase_from
from_complete after p [] q h l r = from_here after p (p ++ q) (h refl) (here_complete p q r)
from_complete after p (c ∷ b) q h l r =
    let rest =
      from_complete (is_word c) p b q (ClosesApart-last c b l) (ClosesApart-tail c b l) r in
    ground (arith, rest)

pub has_phrase_sound : (p t : Text) → has_phrase p t ≡ true → Occurs p t
unfolding has_phrase
has_phrase_sound p t h = (from_sound false p t h).0

pub has_phrase_complete : (p t : Text) → Occurs p t → has_phrase p t ≡ true
unfolding has_phrase
has_phrase_complete p t o =
    rw o.split (from_complete false p o.before o.after (λ _. refl) o.left o.right)
