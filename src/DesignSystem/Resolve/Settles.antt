-- ===== src/DesignSystem/Resolve/Settles.antt =====
-- The loop of `_resolve_style` ends, at a style that is not deprecated or at none.
use mathlib.Core.Path.{subst}
use package.true.Catalog.Domain.{Row}
use package.true.DesignSystem.Resolve.{
  Lookup, first_style, follow, followed, is_deprecated, looked_up, resolve_style, rounds,
  row_or_empty, successor,
}
use package.true.Dict.{get, get_or, get_or-get}
use package.true.Prelude.{
  All, List, Option, Option-cases, [], all, ap, arith, false, if-P_of, inl, inr, is_empty, length,
  length-map, map, not, refl, some, suc, sym, true, zero, ℕ, ◌+◌, ◌<◌, ◌||◌, ◌∙◌, ◌∷◌, ◌≡◌, ◌⊎◌,
}
use package.true.Text.{Distinct, Text, contains, lit, lower}
use package.true.Text.Cut.{strip}
use package.true.Text.Pigeonhole.{length_of_Distinct}

-- One style leads to another by the parents of deprecated ones.
pub data Leads (lookup : Lookup) : Row → Row → Type 0 where
  here : {style : Row} → Leads lookup style style
  next :
      {style last : Row}
      → is_deprecated style ≡ true
      → Leads lookup (successor lookup style) last
      → Leads lookup style last

-- Where the loop ends: nowhere, or at a style of the chain that is not deprecated.
abbrev pub Settled : Lookup → Row → Row → Type 0
Settled lookup style last = (last ≡ []) ⊎ ((is_deprecated last ≡ false) × Leads lookup style last)

-- the names of the styles of a lookup
style_ids : Lookup → List Text
style_ids = map (λ (key, row). get_or row (lit "Style ID") [])

-- A row of a lookup, or the empty one.
abbrev IsListed : Lookup → Row → Type 0
IsListed lookup row =
    (row ≡ []) ⊎ (contains (style_ids lookup) (get_or row (lit "Style ID") []) ≡ true)

get-style_ids :
    (lookup : Lookup) (key : Text) (row : Row)
    → get lookup key ≡ some row
    → contains (style_ids lookup) (get_or row (lit "Style ID") []) ≡ true
unfolding get style_ids
get-style_ids [] key row h = absurd (cc)
get-style_ids ((k, r) ∷ lookup) key row h = ground (arith, get-style_ids lookup key row)

looked_up-IsListed : (lookup : Lookup) (key : Text) → IsListed lookup (looked_up lookup key)
unfolding looked_up get_or
looked_up-IsListed lookup key = elim (Option-cases (get lookup key)) [
  | inl e ↦ inl (rw (get_or, e) refl)
  | inr (row, e) ↦ inr (
      subst (λ (r : Row). contains (style_ids lookup) (get_or r (lit "Style ID") []) ≡ true)
        (sym (get_or-get lookup key [] e)) (get-style_ids lookup key row e))
]

-- The loop returns a row, at which the chain of the style ends.
abbrev Ends : Lookup → Row → Option Row → Type 0
Ends lookup style result = (last : Row) × (result ≡ some last) × Settled lookup style last

Ends-next :
    (lookup : Lookup) (style : Row) (result : Option Row)
    → is_deprecated style ≡ true
    → Ends lookup (successor lookup style) result
    → Ends lookup style result
Ends-next lookup style result d (last, e, inl none_left) = (last, e, inl none_left)
Ends-next lookup style result d (last, e, inr (fine, leads)) = (last, e, inr (fine, next d leads))

stop-Ends :
    (lookup : Lookup) (style : Row)
    → (is_empty style || not (is_deprecated style)) ≡ true
    → Ends lookup style (some style)
stop-Ends lookup [] h = ([], refl, inl refl)
stop-Ends lookup (cell ∷ cells) h = (cell ∷ cells, refl, inr (ground arith, here))

listed_id :
    (lookup : Lookup) (style : Row)
    → IsListed lookup style
    → is_empty style ≡ false
    → contains (style_ids lookup) (get_or style (lit "Style ID") []) ≡ true
listed_id lookup style (inl e) h = absurd (cc (ap is_empty e, h))
listed_id lookup style (inr e) h = e

length-style_ids : (lookup : Lookup) → length (style_ids lookup) ≡ length lookup
unfolding style_ids
length-style_ids lookup = length-map (λ (key, row). get_or row (lit "Style ID") []) lookup

successor-IsListed : (lookup : Lookup) (style : Row) → IsListed lookup (successor lookup style)
unfolding successor
successor-IsListed lookup style =
    looked_up-IsListed lookup (lower (get_or style (lit "Parent Style ID") []))

follow-Ends :
    (fuel : ℕ) (lookup : Lookup) (seen : List Text) (style : Row)
    → Distinct seen
    → All (λ id. contains (style_ids lookup) id ≡ true) seen
    → IsListed lookup style
    → length lookup < fuel + length seen
    → Ends lookup style (follow fuel lookup seen style)
unfolding follow
follow-Ends zero lookup seen style d all listed enough =
    absurd
      (omega (arith, length_of_Distinct seen (style_ids lookup) d all, length-style_ids lookup))
follow-Ends (suc fuel) lookup seen style d all listed enough =
    if-P_of (Ends lookup style) (is_empty style || not (is_deprecated style))
      (stop-Ends lookup style)
      λ going.
        if-P_of (Ends lookup style)
          (is_empty (get_or style (lit "Parent Style ID") [])
            || contains seen (get_or style (lit "Style ID") []))
          (λ _. ([], refl, inl refl))
          λ unseen. Ends-next lookup style _ (ground arith) (
            follow-Ends fuel lookup (get_or style (lit "Style ID") [] ∷ seen)
              (successor lookup style) (ground arith, d)
              (listed_id lookup style listed (ground arith), all) (successor-IsListed lookup style)
              (omega arith))

followed-Ends :
    (lookup : Lookup) (reference : Text)
    → Ends lookup (first_style lookup reference) (followed lookup reference)
unfolding followed first_style rounds
followed-Ends lookup reference =
    follow-Ends (length lookup + 2) lookup [] (looked_up lookup (lower (strip reference))) tt tt
      (looked_up-IsListed lookup (lower (strip reference))) (omega arith)

-- The loop of `_resolve_style` ends whatever the lookup is, a cycle of parents included: at no style,
-- or at one that is not deprecated and that the style of the reference leads to by the parents of
-- deprecated styles.
pub resolve_style-Settled :
    (lookup : Lookup) (reference : Text)
    → (followed lookup reference ≡ some (resolve_style lookup reference))
      × Settled lookup (first_style lookup reference) (resolve_style lookup reference)
unfolding resolve_style
resolve_style-Settled lookup reference =
    let (last, e, settled) = followed-Ends lookup reference in
    let same : resolve_style lookup reference ≡ last = ap (λ (o : Option Row). row_or_empty o) e in
    (
      e ∙ ap (λ (row : Row). some row) (sym same),
      subst (λ (row : Row). Settled lookup (first_style lookup reference) row) (sym same) settled,
    )
