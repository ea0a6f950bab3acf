-- ===== src/Validation/References/Sound.antt =====
-- What holds of the styles, the products and the rules where no problem is found.
use mathlib.Core.List.{Mem}
use mathlib.Core.Path.{subst}
use package.true.Catalog.Domain.{Row}
use package.true.DesignSystem.Mode.{first_row}
use package.true.Dict.{Dict, get}
use package.true.Prelude.{
  All, All-Mem, All-imp, All-zip, Bool-cases, List, Option-cases, [], arith, false, inl, inr, map,
  some, sym, true, ◌++◌, ◌∷◌, ◌≡◌, ◌⊎◌,
}
use package.true.Regex.{fullmatch}
use package.true.Text.{==_eq, Distinct, Text, contains, lit, lower, ◌==◌}
use package.true.Validation.Problems.{append_nil}
use package.true.Validation.References.{
  all_reference_problems, deprecated_problems, entries_problems, identity_problems,
  reference_problem, reference_problems, references_of,
}
use package.true.Validation.References.Parents.{
  HasParent, Rooted, entries-IsFine, fine-HasParent, fine-Rooted,
}
use package.true.Validation.Styles.{
  Gathered, gather, gathered, id_of, nothing_gathered, rows_problems, status_of, style_id_pattern,
}
use package.true.Validation.Styles.Gather.{ids-Distinct, row_fine, rows_fine}
use package.true.Validation.Styles.Sound.{folded_keys, lookup-P, lookup-names}
use package.true.Validation.Styles.Status.{HasStatus, status-HasStatus}

-- The reference is a name of a style that is not deprecated.
abbrev pub IsReference : List Row → Text → Type 0
IsReference styles reference =
    (row : Row) × Mem row styles
    × (contains (folded_keys row) (lower reference) ≡ true)
    × ((status_of row == lit "deprecated") ≡ false)

-- the first row of an identity, where identities do not repeat, is the row that has it
other_ids :
    (id : Text) (rows : List Row)
    → contains (map id_of rows) id ≡ false
    → All (λ row. (id == id_of row) ≡ false) rows
other_ids id [] h = tt
other_ids id (row ∷ rows) h = (ground arith, other_ids id rows (ground arith))

first_row-Distinct :
    (styles : List Row)
    → Distinct (map id_of styles)
    → All (λ row. first_row (λ r. id_of r == id_of row) styles ≡ some row) styles
unfolding first_row
first_row-Distinct [] d = tt
first_row-Distinct (first ∷ styles) d = (
  ground arith,
  All-imp (λ row h. ground (arith, h.0, h.1)) styles
      (All-zip (λ row. (id_of first == id_of row) ≡ false)
        (λ row. first_row (λ r. id_of r == id_of row) styles ≡ some row) styles
        (other_ids (id_of first) styles d.0) (first_row-Distinct styles d.1)),
)

reference_problems-nil :
    (styles : List Row) (lookup : Dict Text) (reference : Text)
    → reference_problems styles lookup reference ≡ []
    → (id : Text) × (get lookup (lower reference) ≡ some id)
      × (deprecated_problems styles id reference ≡ [])
unfolding reference_problems reference_problem
reference_problems-nil styles lookup reference h =
    elim (Option-cases (get lookup (lower reference))) [
      | inl e ↦ absurd (cc (h, e))
      | inr ([], e) ↦ absurd (cc (h, e))
      | inr (c ∷ t, e) ↦ (c ∷ t, e, rw (e, reference_problems) at h)
    ]

-- The style is one of those read, and `next` finds it by its identity.
abbrev IsFound : List Row → Row → Type 0
IsFound styles row = Mem row styles × (first_row (λ r. id_of r == id_of row) styles ≡ some row)

deprecated_problems-nil :
    (styles : List Row) (row : Row) (reference : Text)
    → first_row (λ r. id_of r == id_of row) styles ≡ some row
    → deprecated_problems styles (id_of row) reference ≡ []
    → (status_of row == lit "deprecated") ≡ false
unfolding deprecated_problems reference_problem
deprecated_problems-nil styles row reference found h = ground (arith, found, h)

reference_problems-IsReference :
    (styles : List Row) (reference : Text)
    → All (IsFound styles) styles
    → reference_problems styles (gather nothing_gathered styles).lookup reference ≡ []
    → IsReference styles reference
unfolding get
reference_problems-IsReference styles reference every h =
    let (id, known, fine) =
      reference_problems-nil styles (gather nothing_gathered styles).lookup reference h in
    elim (lookup-P (IsFound styles) nothing_gathered styles (lower reference) id every known) [
      | inl old ↦ absurd cc
      | inr (row, found, same, named) ↦ (
        row,
        found.0,
        named,
        deprecated_problems-nil styles row reference found.1
            (subst (λ (i : Text). deprecated_problems styles i reference ≡ []) same fine),
      )
    ]

all_reference_problems-IsReference :
    (styles : List Row) (references : List Text)
    → All (IsFound styles) styles
    → all_reference_problems styles (gather nothing_gathered styles).lookup references ≡ []
    → All (IsReference styles) references
unfolding all_reference_problems
all_reference_problems-IsReference styles [] every h = tt
all_reference_problems-IsReference styles (reference ∷ references) every h =
    let (fine, rest) =
      append_nil (reference_problems styles (gather nothing_gathered styles).lookup reference)
        (all_reference_problems styles (gather nothing_gathered styles).lookup references) h in
    (
      reference_problems-IsReference styles reference every fine,
      all_reference_problems-IsReference styles references every rest,
    )

-- No name of one style is a name of another.
abbrev pub NamesApart : Row → Row → Type 0
NamesApart row other =
    All (λ key. (contains (folded_keys other) key ≡ false) ⊎ (id_of other ≡ id_of row))
      (folded_keys row)

names_found :
    (lookup : Dict Text) (id : Text) (keys : List Text) (key : Text)
    → All (λ k. get lookup k ≡ some id) keys
    → contains keys key ≡ true
    → get lookup key ≡ some id
names_found lookup id [] key h m = absurd cc
names_found lookup id (k ∷ keys) key h m = elim (Bool-cases (key == k)) [
  | inl e ↦ subst (λ (t : Text). get lookup t ≡ some id) (sym (==_eq key k e)) h.0
  | inr e ↦ names_found lookup id keys key h.1 (ground (arith, e, m))
]

names-NamesApart :
    (lookup : Dict Text) (row other : Row)
    → All (λ key. get lookup key ≡ some (id_of row)) (folded_keys row)
    → All (λ key. get lookup key ≡ some (id_of other)) (folded_keys other)
    → NamesApart row other
names-NamesApart lookup row other own others =
    All-imp
      (λ key found. elim (Bool-cases (contains (folded_keys other) key)) [
        | inr e ↦ inl e
        | inl e ↦ inr (
            ground
              (arith, found, names_found lookup (id_of other) (folded_keys other) key others e))
      ])
      (folded_keys row) own

-- What the contract promises of a catalog.
pub record IsCatalog (targets : Dict (List Text)) (styles products reasoning : List Row)
    : Type 0 where
  pub ids : Distinct (map id_of styles)
  pub formats : All (λ row. fullmatch style_id_pattern (id_of row) ≡ true) styles
  pub statuses : All (HasStatus targets) styles
  pub names : All (λ row. All (λ other. NamesApart row other) styles) styles
  pub parents : All (HasParent styles) styles
  pub chains : All (Rooted styles) styles
  pub references : All (IsReference styles) (references_of products reasoning)

rows-All :
    (targets : Dict (List Text)) (g : Gathered) (rows : List Row)
    → rows_problems targets g rows ≡ []
    → All (λ row. (fullmatch style_id_pattern (id_of row) ≡ true) × HasStatus targets row) rows
rows-All targets g [] h = tt
rows-All targets g (row ∷ rows) h =
    let (fine, rest) = rows_fine targets g row rows h in
    let (format, _, status, _) = row_fine targets g row fine in
    ((format, status-HasStatus targets row status), rows-All targets (gathered g row) rows rest)

-- Where no problem is found with the styles, the products and the rules: no identity of a style stands
-- twice, and each has the form of an identity. Each status is one of the three and comes with the
-- parent or the redirect that it needs, and with no other redirect. No name of a style, whatever its
-- case, is a name of another. A parent is another style, which is active, and each chain of parents
-- ends at a style without one. Whatever products and rules refer to is a name of a style that is not
-- deprecated.
pub identity_problems-IsCatalog :
    (targets : Dict (List Text)) (styles products reasoning : List Row)
    → identity_problems targets styles products reasoning ≡ []
    → IsCatalog targets styles products reasoning
unfolding identity_problems
identity_problems-IsCatalog targets styles products reasoning h =
    let g : Gathered = gather nothing_gathered styles in
    let (rows, later) =
      append_nil (rows_problems targets nothing_gathered styles)
        (entries_problems g g.parents
          ++ all_reference_problems styles g.lookup (references_of products reasoning))
        h in
    let (entries, references) =
      append_nil (entries_problems g g.parents)
        (all_reference_problems styles g.lookup (references_of products reasoning)) later in
    let distinct = (ids-Distinct targets nothing_gathered styles rows).0 in
    let fine = entries-IsFine styles targets rows entries in
    let tested = rows-All targets nothing_gathered styles rows in
    let named = lookup-names targets nothing_gathered styles rows in
    record {
      ids = distinct;
      formats = All-imp (λ row t. t.0) styles tested;
      statuses = All-imp (λ row t. t.1) styles tested;
      names =
          All-imp
            (λ row own.
              All-imp (λ other others. names-NamesApart g.lookup row other own others) styles named)
            styles named;
      parents = All-imp (λ row f. fine-HasParent styles row fine f) styles fine;
      chains = All-imp (λ row f. fine-Rooted styles row fine f) styles fine;
      references =
          all_reference_problems-IsReference styles (references_of products reasoning)
            (All-zip (λ row. Mem row styles)
              (λ row. first_row (λ r. id_of r == id_of row) styles ≡ some row) styles
              (All-Mem (λ row. Mem row styles) styles (λ row m. m))
              (first_row-Distinct styles distinct))
            references;
    }
