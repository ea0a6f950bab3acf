-- ===== src/Validation/Styles/Sound.antt =====
-- What the loop over the styles has gathered, where it finds no problem.
use mathlib.Core.Path.{subst}
use package.true.Catalog.Domain.{Row}
use package.true.Dict.{Dict, get, get-put, get_or, get_or-get, put}
use package.true.Prelude.{
  All, All-imp, Bool-cases, List, [], all, arith, inl, inr, map, some, true, ◌∷◌, ◌≡◌, ◌⊎◌,
}
use package.true.Text.{==_eq, Text, contains, lower, ◌==◌}
use package.true.Validation.Problems.{flag}
use package.true.Validation.Styles.{
  Gathered, gather, gathered, id_of, key_problems, keys_of, put_ids, rows_problems,
}
use package.true.Validation.Styles.Gather.{row_fine, rows_fine}

unfoldable pub folded_keys : Row → List Text
unfolding lower keys_of
folded_keys row = map lower (keys_of row)

key_problems-nil :
    (id key : Text) (keys : List Text) (lookup : Dict Text)
    → key_problems id (key ∷ keys) lookup ≡ []
    → ((get_or lookup (lower key) id == id) ≡ true)
      × (key_problems id keys (put lookup (lower key) id) ≡ [])
unfolding key_problems flag
key_problems-nil id key keys lookup h = ground (arith)

-- The keys of a style stand for it, and no old key for another style than before.
put_ids-keeps :
    (id : Text) (keys : List Text) (lookup : Dict Text) (k v : Text)
    → key_problems id keys lookup ≡ []
    → get lookup k ≡ some v
    → get (put_ids id keys lookup) k ≡ some v
unfolding key_problems put_ids
put_ids-keeps id [] lookup k v h g = g
put_ids-keeps id (key ∷ keys) lookup k v h g =
    let (same, rest) = key_problems-nil id key keys lookup h in
    put_ids-keeps id keys (put lookup (lower key) id) k v rest (elim (Bool-cases (k == lower key)) [
      | inl e ↦ ground (
        arith,
        get-put lookup (lower key) k id,
        e,
        ==_eq k (lower key) e,
        get_or-get lookup k id g,
        ==_eq _ id same,
      )
      | inr e ↦ ground (arith, get-put lookup (lower key) k id, e, g)
    ])

put_ids-get :
    (id : Text) (keys : List Text) (lookup : Dict Text) (k v : Text)
    → get (put_ids id keys lookup) k ≡ some v
    → (get lookup k ≡ some v) ⊎ ((v ≡ id) × (contains (map lower keys) k ≡ true))
unfolding put_ids
put_ids-get id [] lookup k v h = inl h
put_ids-get id (key ∷ keys) lookup k v h =
    elim (put_ids-get id keys (put lookup (lower key) id) k v h) [
      | inr (e, m) ↦ inr (e, ground (arith, m))
      | inl g ↦ elim (Bool-cases (k == lower key)) [
        | inl e ↦ inr (ground (arith, get-put lookup (lower key) k id, e, g), ground (arith, e))
        | inr e ↦ inl (ground (arith, get-put lookup (lower key) k id, e, g))
      ]
    ]

module _ (P : Row → Type 0) where
  -- A row that is found under an identity is one of those read, and has it.
  pub by_id-P :
      (g : Gathered) (rows : List Row) (k : Text) (row : Row)
      → All P rows
      → get (gather g rows).by_id k ≡ some row
      → (get g.by_id k ≡ some row) ⊎ (P row × (id_of row ≡ k))
  unfolding gather gathered
  by_id-P g [] k row all h = inl h
  by_id-P g (first ∷ rows) k row all h = elim (by_id-P (gathered g first) rows k row all.1 h) [
    | inr found ↦ inr found
    | inl old ↦ elim (Bool-cases (k == id_of first)) [
      | inl e ↦
          let same : first ≡ row = ground (arith, get-put g.by_id (id_of first) k first, e, old) in
          inr (subst P same all.0, ground (arith, same, ==_eq k (id_of first) e))
      | inr e ↦ inl (ground (arith, get-put g.by_id (id_of first) k first, e, old))
    ]
  ]

  -- What the lookup names is the identity of a style whose names include the key.
  pub lookup-P :
      (g : Gathered) (rows : List Row) (k v : Text)
      → All P rows
      → get (gather g rows).lookup k ≡ some v
      → (get g.lookup k ≡ some v)
        ⊎ ((row : Row) × P row × (v ≡ id_of row) × (contains (folded_keys row) k ≡ true))
  unfolding gather gathered folded_keys
  lookup-P g [] k v all h = inl h
  lookup-P g (first ∷ rows) k v all h = elim (lookup-P (gathered g first) rows k v all.1 h) [
    | inr found ↦ inr found
    | inl old ↦ elim (put_ids-get (id_of first) (keys_of first) g.lookup k v old) [
      | inl older ↦ inl older
      | inr (e, named) ↦ inr (first, all.0, e, named)
    ]
  ]

put_ids-names :
    (id : Text) (keys : List Text) (lookup : Dict Text)
    → key_problems id keys lookup ≡ []
    → All (λ key. get (put_ids id keys lookup) key ≡ some id) (map lower keys)
unfolding put_ids
put_ids-names id [] lookup h = tt
put_ids-names id (key ∷ keys) lookup h =
    let (same, rest) = key_problems-nil id key keys lookup h in
    (
      put_ids-keeps id keys (put lookup (lower key) id) (lower key) id rest
          (ground (arith, get-put lookup (lower key) (lower key) id)),
      put_ids-names id keys (put lookup (lower key) id) rest,
    )

lookup-keep :
    (targets : Dict (List Text)) (g : Gathered) (rows : List Row) (k v : Text)
    → rows_problems targets g rows ≡ []
    → get g.lookup k ≡ some v
    → get (gather g rows).lookup k ≡ some v
unfolding gather gathered
lookup-keep targets g [] k v h old = old
lookup-keep targets g (row ∷ rows) k v h old =
    let (fine, rest) = rows_fine targets g row rows h in
    let (_, _, _, keys) = row_fine targets g row fine in
    lookup-keep targets (gathered g row) rows k v rest
      (put_ids-keeps (id_of row) (keys_of row) g.lookup k v keys old)

-- Each name of a style leads to it.
pub lookup-names :
    (targets : Dict (List Text)) (g : Gathered) (rows : List Row)
    → rows_problems targets g rows ≡ []
    → All
        (λ row. All (λ key. get (gather g rows).lookup key ≡ some (id_of row)) (folded_keys row))
        rows
unfolding gather gathered folded_keys
lookup-names targets g [] h = tt
lookup-names targets g (row ∷ rows) h =
    let (fine, rest) = rows_fine targets g row rows h in
    let (_, _, _, keys) = row_fine targets g row fine in
    (
      All-imp (λ key found. lookup-keep targets (gathered g row) rows key (id_of row) rest found)
          (map lower (keys_of row)) (put_ids-names (id_of row) (keys_of row) g.lookup keys),
      lookup-names targets (gathered g row) rows rest,
    )
