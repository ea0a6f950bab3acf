-- ===== src/Catalog/Cache/IndexCache.antt =====
-- The index that `_get_bm25` returns is that of the rows, from the cache or not.
-- The rows of a file that a variant keeps: the name of a variant stands for a filter.
use mathlib.Core.Path.{subst}
use package.true.Catalog.Bm25.{Index, fit}
use package.true.Catalog.Cache.{
  Disk, Entry, Indexed, Signature, find_index, fresh, get_bm25, same_signature, same_texts,
}
use package.true.Catalog.Cache.Snapshot.{HeldAt, IsStable, same_signature_eq}
use package.true.Catalog.Detailed.{documents_of}
use package.true.Catalog.Domain.{Row}
use package.true.Floats.{Floats}
use package.true.Prelude.{
  All, AllSome, Bool, Bool-cases, List, Option-cases, [], and_iff, ap, arith, if-P_of, inl, inr,
  leb, refl, select, some, sym, true, ℕ, ◌&&◌, ◌∙◌, ◌∷◌, ◌≡◌, ◌≤◌,
}
use package.true.Text.{==_eq, Text, ◌==◌}

abbrev pub Filters : Type 0
Filters = Text → Text → Row → Bool

module _ (fl : Floats) (disk : Disk) (filters : Filters) where
  -- What an index was made of was in the file.
  abbrev pub IsBuilt : ℕ → Indexed fl.Float → Type 0
  IsBuilt time entry =
      (rows : List Row) × ((t : ℕ) × ((t ≤ time) × HeldAt disk entry.path entry.signature rows t)
        × (entry.index
            ≡ fit fl
                (documents_of entry.search_cols (select (filters entry.path entry.variant) rows))))

same_texts_eq : (ss ts : List Text) → same_texts ss ts ≡ true → ss ≡ ts
unfolding same_texts
same_texts_eq [] [] e = refl
same_texts_eq [] (t ∷ ts) e = absurd (cc)
same_texts_eq (s ∷ ss) [] e = absurd (cc)
same_texts_eq (s ∷ ss) (t ∷ ts) e =
    let (first, rest) = (and_iff (s == t) (same_texts ss ts)).0 e in
    let same : s ≡ t = ==_eq s t first in let more : ss ≡ ts = same_texts_eq ss ts rest in cc

rows_same :
    (a b : Entry) (rows rows' : List Row)
    → some a ≡ some b
    → a.rows ≡ some rows
    → b.rows ≡ some rows'
    → rows ≡ rows'
rows_same a b rows rows' e p q =
    let same : a ≡ b = cc in
    let both : some rows ≡ some rows' = sym p ∙ ap (λ (x : Entry). x.rows) same ∙ q in cc

-- One signature stands for one list of rows.
held_once :
    (disk : Disk) (stable : IsStable disk) (path : Text) (signature : Signature)
    (rows rows' : List Row) (t u : ℕ)
    → HeldAt disk path signature rows t
    → HeldAt disk path signature rows' u
    → t ≤ u
    → rows ≡ rows'
held_once disk stable path signature rows rows' t u a b le =
    let c =
      stable path t u u (record { signature = signature; rows = some rows })
        (record { signature = signature; rows = some rows' }) le (omega arith) a b refl in
    rows_same (record { signature = signature; rows = some rows })
      (record { signature = signature; rows = some rows' }) rows rows' (sym c ∙ b) refl refl

held_anyway :
    (disk : Disk) (stable : IsStable disk) (path : Text) (signature : Signature)
    (rows rows' : List Row) (t u : ℕ)
    → HeldAt disk path signature rows t
    → HeldAt disk path signature rows' u
    → rows ≡ rows'
held_anyway disk stable path signature rows rows' t u a b = elim (Bool-cases (leb t u)) [
  | inl e ↦ held_once disk stable path signature rows rows' t u a b (ground (arith, e))
  | inr e ↦ sym (held_once disk stable path signature rows' rows u t b a (ground (arith, e)))
]

module _ (fl : Floats) (disk : Disk) (stable : IsStable disk) (filters : Filters) where
  find_index-P :
      (P : Indexed fl.Float → Type 0) (entries : List (Indexed fl.Float)) (path : Text)
      (cols : List Text) (variant : Text)
      → All P entries
      → AllSome
          (λ entry.
            P entry × (entry.path ≡ path) × (entry.search_cols ≡ cols) × (entry.variant ≡ variant))
          (find_index fl entries path cols variant)
  unfolding find_index
  find_index-P P [] path cols variant h = tt
  find_index-P P (entry ∷ entries) path cols variant h =
      if-P_of
        (AllSome (λ entry.
          P entry × (entry.path ≡ path) × (entry.search_cols ≡ cols) × (entry.variant ≡ variant)))
        (entry.path == path && same_texts entry.search_cols cols && entry.variant == variant)
        (λ e. (
          h.0,
          ==_eq entry.path path (ground (arith, e)),
          same_texts_eq entry.search_cols cols (ground (arith, e)),
          ==_eq entry.variant variant (ground (arith, e)),
        ))
        (λ _. find_index-P P entries path cols variant h.1)

  module _ (time : ℕ) (path : Text) (cols : List Text) (variant : Text) (signature : Signature)
      (rows : List Row) (t : ℕ) (le : t ≤ time) (held : HeldAt disk path signature rows t) where
    abbrev pub IsIndexOf : Index fl.Float × List (Indexed fl.Float) → Type 0
    IsIndexOf got =
        (got.0 ≡ fit fl (documents_of cols (select (filters path variant) rows)))
        × All (IsBuilt fl disk filters time) got.1

    fresh-IsIndexOf :
        (entries : List (Indexed fl.Float))
        → All (IsBuilt fl disk filters time) entries
        → IsIndexOf
            (fresh fl entries path cols variant signature (select (filters path variant) rows))
    unfolding fresh
    fresh-IsIndexOf entries h = (refl, ((rows, (t, (le, held), refl)), h))

    hit-IsIndexOf :
        (entry : Indexed fl.Float)
        → IsBuilt fl disk filters time entry
        → entry.path ≡ path
        → entry.search_cols ≡ cols
        → entry.variant ≡ variant
        → entry.signature ≡ signature
        → entry.index ≡ fit fl (documents_of cols (select (filters path variant) rows))
    hit-IsIndexOf entry (rows', (u, (le', held'), built)) a b c d =
        let held2 : HeldAt disk path signature rows' u =
          subst (λ p. HeldAt disk p signature rows' u) a
            (subst (λ s. HeldAt disk entry.path s rows' u) d held') in
        let same = held_anyway disk stable path signature rows' rows u t held2 held in
        rw (sym a, sym b, sym c, sym same) built

    -- Where a file with one signature at two moments is unchanged between them, a variant names one
    -- filter of a file, and the cached indexes are those of rows that files held: for rows that the
    -- file held with the signature, the index that is returned is that of the rows which the variant
    -- keeps, whether it was in the cache or not, and the cache again holds only such indexes.
    pub get_bm25-IsIndexOf :
        (entries : List (Indexed fl.Float))
        → All (IsBuilt fl disk filters time) entries
        → IsIndexOf
            (get_bm25 fl entries path cols variant signature (select (filters path variant) rows))
    unfolding get_bm25
    get_bm25-IsIndexOf entries h =
        let found = find_index-P (IsBuilt fl disk filters time) entries path cols variant h in
        elim (Option-cases (find_index fl entries path cols variant)) [
          | inl e ↦ rw (e, get_bm25) (fresh-IsIndexOf entries h)
          | inr (entry, e) ↦
              let (built, a, b, c) = rw e at found in
              rw (e, get_bm25)
                (if-P_of IsIndexOf (same_signature entry.signature signature)
                  (λ f. (
                    hit-IsIndexOf entry built a b c (same_signature_eq entry.signature signature f),
                    h,
                  ))
                  (λ _. fresh-IsIndexOf entries h))
        ]
