-- ===== src/Catalog/Cache/Tests.antt =====
-- Runs of the caches, on a file that is written once.
use package.true.Catalog.Cache.{
  CsvCache, Disk, Entry, Signature, attempt, compared, get_bm25, hit_or_read, load_csv_snapshot,
  loaded, read, same_signature, stat_again,
}
use package.true.Catalog.Cache.IndexCache.{Filters, IsIndexOf, get_bm25-IsIndexOf}
use package.true.Catalog.Cache.Snapshot.{IsCoherent, IsLoaded, IsStable, load_csv_snapshot-IsLoaded}
use package.true.Catalog.Domain.{Row}
use package.true.Dict.{get}
use package.true.Floats.{whole_floats}
use package.true.Prelude.{
  Bool-cases, List, [], ap, arith, false, if◌then◌else◌, inl, inr, ltb, refl, select, some, sym,
  true, ◌∙◌, ◌∷◌, ◌≡◌, ◌≢◌,
}
use package.true.Text.{lit}

abbrev old : Entry
old = record { signature = (1, 10); rows = some [] }

abbrev new : Entry
new = record { signature = (2, 30); rows = some (((lit "Style ID", lit "glass") ∷ []) ∷ []) }

-- the file is written after the first moment
abbrev disk : Disk
disk t path = if ltb t 1 then some old else some new

old_not_new :
    (first last : Entry)
    → some old ≡ some first
    → some new ≡ some last
    → first.signature ≢ last.signature
old_not_new first last a b e =
    let same : old ≡ first = cc in
    let other_one : new ≡ last = cc in
    let times : old.signature ≡ new.signature =
      ap (λ (x : Entry). x.signature) same ∙ e ∙ sym (ap (λ (x : Entry). x.signature) other_one) in
    let first_time : 1 ≡ 2 = ap (λ (s : Signature). s.0) times in omega (arith, first_time)

disk-IsStable : IsStable disk
disk-IsStable path s t u first last le lt a b e = elim (Bool-cases (ltb s 1)) [
  | inl x ↦ elim (Bool-cases (ltb u 1)) [
    | inl y ↦ let z : ltb t 1 ≡ true = ground (arith, y, lt) in rw z (rw x at a)
    | inr y ↦ absurd (old_not_new first last (rw x at a) (rw y at b) e)
  ]
  | inr x ↦ let z : ltb t 1 ≡ false = ground (arith, x, le) in rw z (rw x at a)
]

abbrev no_cache : CsvCache
no_cache = []

no_cache-IsCoherent : IsCoherent disk 0 no_cache
unfolding get
no_cache-IsCoherent path signature rows e = absurd (cc)

-- the first look is at the old file, the rows are those of the new one
reads_new :
    (load_csv_snapshot disk (lit "styles.csv") 0 no_cache).result
    ≡ some (((lit "Style ID", lit "glass") ∷ []) ∷ [], (2, 30))
unfolding load_csv_snapshot hit_or_read attempt read stat_again compared loaded same_signature get
reads_new = refl

load_csv_snapshot-IsLoaded_example :
    IsLoaded disk (lit "styles.csv") 0 (load_csv_snapshot disk (lit "styles.csv") 0 no_cache)
load_csv_snapshot-IsLoaded_example =
    load_csv_snapshot-IsLoaded disk (lit "styles.csv") disk-IsStable 0 no_cache no_cache-IsCoherent

abbrev all_rows : Filters
all_rows path variant row = true

abbrev glass_rows : List Row
glass_rows = ((lit "Style ID", lit "glass") ∷ []) ∷ []

get_bm25-IsIndexOf_example :
    IsIndexOf whole_floats disk disk-IsStable all_rows 5
      (lit "styles.csv")
      (lit "Style ID" ∷ [])
      []
      (2, 30)
      glass_rows
      2
      (omega arith)
      refl
      (get_bm25 whole_floats []
        (lit "styles.csv")
        (lit "Style ID" ∷ [])
        []
        (2, 30)
        (select (all_rows (lit "styles.csv") []) glass_rows))
get_bm25-IsIndexOf_example =
    get_bm25-IsIndexOf whole_floats disk disk-IsStable all_rows 5 (lit "styles.csv")
      (lit "Style ID" ∷ []) [] (2, 30) glass_rows 2 (omega arith) refl [] tt
