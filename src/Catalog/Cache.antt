-- ===== src/Catalog/Cache.antt =====
-- The caches of core.py: `_load_csv_snapshot` and `_get_bm25`.
-- Other processes may write a file at any time, so a file is what it is at each moment, and each
-- call of the operating system takes a moment.
-- (st_mtime_ns, st_size)
pub mod Snapshot
pub mod IndexCache
mod Tests
use package.true.Catalog.Bm25.{Index, fit}
use package.true.Catalog.Detailed.{documents_of}
use package.true.Catalog.Domain.{Row}
use package.true.Dict.{Dict, get, put}
use package.true.Floats.{Floats}
use package.true.Prelude.{
  Bool, List, Option, [], eqb, false, if◌then◌else◌, none, some, suc, true, zero, ℕ, ◌&&◌, ◌+◌, ◌∷◌,
}
use package.true.Text.{Text, ◌==◌}

abbrev pub Signature : Type 0
Signature = ℕ × ℕ

unfoldable pub same_signature : Signature → Signature → Bool
same_signature (a, b) (c, d) = eqb a c && eqb b d

-- A file at one moment: its signature, and its rows unless it cannot be read as CSV.
pub record Entry : Type 0 where
  pub signature : Signature
  pub rows : Option (List Row)

abbrev pub Disk : Type 0
Disk = ℕ → Text → Option Entry

-- `_csv_cache`, and what `_load_csv_snapshot` returns: rows with their signature, unless it raises
abbrev pub CsvCache : Type 0
CsvCache = Dict (Signature × List Row)

pub record Loaded : Type 0 where
  pub time : ℕ
  pub cache : CsvCache
  pub result : Option (List Row × Signature)

module _ (disk : Disk) (path : Text) where
  loaded : ℕ → CsvCache → Option (List Row × Signature) → Loaded
  loaded time cache result = record { time = time; cache = cache; result = result }

  -- the rows are taken if the signature is the same before and after they are read
  compared : ℕ → CsvCache → List Row → Signature → Signature → Loaded → Loaded
  unfolding loaded
  compared time cache rows before after again =
      if same_signature before after
      then loaded time (put cache path (after, rows)) (some (rows, after))
      else again

  stat_again : ℕ → CsvCache → List Row → Signature → Loaded → Loaded
  unfolding compared loaded
  stat_again time cache rows before again = elim (disk time path) [
    | none ↦ loaded time cache none
    | some after ↦ compared time cache rows before after.signature again
  ]

  read : ℕ → CsvCache → Signature → Loaded → Loaded
  unfolding stat_again loaded
  read time cache before again = elim (disk time path) [
    | none ↦ loaded time cache none
    | some entry ↦ elim entry.rows [
      | none ↦ loaded time cache none
      | some rows ↦ stat_again (time + 1) cache rows before again
    ]
  ]

  -- the loop over the attempts
  attempt : ℕ → ℕ → CsvCache → Loaded
  unfolding read loaded
  attempt zero time cache = loaded time cache none
  attempt (suc attempts) time cache =
      let again = attempt attempts (time + 3) cache in
      elim (disk time path) [
        | none ↦ loaded time cache none
        | some before ↦ read (time + 1) cache before.signature again
      ]

  hit_or_read : ℕ → CsvCache → Signature → Option (Signature × List Row) → Loaded
  unfolding attempt loaded
  hit_or_read time cache signature none = attempt 3 (time + 1) cache
  hit_or_read time cache signature (some (cached, rows)) =
      if same_signature cached signature
      then loaded time cache (some (rows, signature))
      else attempt 3 (time + 1) cache

  -- `_load_csv_snapshot`, at a moment and with a cache
  unfoldable pub load_csv_snapshot : ℕ → CsvCache → Loaded
  unfolding hit_or_read loaded
  load_csv_snapshot time cache = elim (disk time path) [
    | none ↦ loaded time cache none
    | some entry ↦ hit_or_read time cache entry.signature (get cache path)
  ]

-- The key and the value of an index: _INDEX_VERSION is the same for all.
pub record Indexed (F : Type 0) : Type 0 where
  pub path : Text
  pub search_cols : List Text
  pub variant : Text
  pub signature : Signature
  pub index : Index F

same_texts : List Text → List Text → Bool
same_texts [] [] = true
same_texts [] (t ∷ ts) = false
same_texts (s ∷ ss) [] = false
same_texts (s ∷ ss) (t ∷ ts) = s == t && same_texts ss ts

module _ (fl : Floats) where
  open fl use {Float}

  -- `_bm25_cache.get(key)`; the newest value of a key stands first
  find_index : List (Indexed Float) → Text → List Text → Text → Option (Indexed Float)
  unfolding same_texts
  find_index [] path cols variant = none
  find_index (entry ∷ entries) path cols variant =
      let rest = find_index entries path cols variant in
      if entry.path == path && same_texts entry.search_cols cols && entry.variant == variant
      then some entry
      else rest

  fresh :
      List (Indexed Float)
      → Text
      → List Text
      → Text
      → Signature
      → List Row
      → Index Float × List (Indexed Float)
  fresh entries path cols variant signature rows =
      let index = fit fl (documents_of cols rows) in
      (
        index,
        record {
          path = path;
          search_cols = cols;
          variant = variant;
          signature = signature;
          index = index;
        }
            ∷ entries,
      )

  -- `_get_bm25`, with the signature of the rows
  unfoldable pub get_bm25 :
      List (Indexed Float)
      → Text
      → List Text
      → Text
      → Signature
      → List Row
      → Index Float × List (Indexed Float)
  unfolding find_index fresh
  get_bm25 entries path cols variant signature rows = elim (find_index entries path cols variant) [
    | none ↦ fresh entries path cols variant signature rows
    | some entry ↦
        if same_signature entry.signature signature
        then (entry.index, entries)
        else fresh entries path cols variant signature rows
  ]
