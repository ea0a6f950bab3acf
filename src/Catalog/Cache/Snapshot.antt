-- ===== src/Catalog/Cache/Snapshot.antt =====
-- What `_load_csv_snapshot` returns, whoever writes the file meanwhile.
-- The file had that signature and those rows at the moment.
use mathlib.Core.Path.{subst}
use package.true.Catalog.Cache.{
  CsvCache, Disk, Entry, Loaded, Signature, attempt, compared, hit_or_read, load_csv_snapshot,
  loaded, read, same_signature, stat_again,
}
use package.true.Catalog.Domain.{Row}
use package.true.Dict.{get, get-put, put}
use package.true.Prelude.{
  AllSome, Bool-cases, List, Option-cases, ap, arith, if-P_of, inl, inr, none, refl, some, suc, sym,
  true, zero, ℕ, ◌+◌, ◌∙◌, ◌≡◌, ◌≤◌,
}
use package.true.Text.{==_eq, Text, ◌==◌}

abbrev pub HeldAt : Disk → Text → Signature → List Row → ℕ → Type 0
HeldAt disk path signature rows t =
    disk t path ≡ some (record { signature = signature; rows = some rows })

-- A file that has one signature at two moments is unchanged between them: each write moves its time
-- of modification on.
abbrev pub IsStable : Disk → Type 0
IsStable disk =
    (path : Text) (s t u : ℕ) (first last : Entry)
    → s ≤ t
    → t ≤ u
    → disk s path ≡ some first
    → disk u path ≡ some last
    → first.signature ≡ last.signature
    → disk t path ≡ some first

-- What the cache holds for a file was in the file.
abbrev pub IsCoherent : Disk → ℕ → CsvCache → Type 0
IsCoherent disk time cache =
    (path : Text) (signature : Signature) (rows : List Row)
    → get cache path ≡ some (signature, rows)
    → (t : ℕ) × ((t ≤ time) × HeldAt disk path signature rows t)

-- The rows, if there are some, stood in the file between two moments, and the cache is coherent.
abbrev pub IsLoaded : Disk → Text → ℕ → Loaded → Type 0
IsLoaded disk path start l =
    (start ≤ l.time)
    × (IsCoherent disk l.time l.cache
        × AllSome
            (λ (rows, signature).
              (t : ℕ) × ((start ≤ t) × ((t ≤ l.time) × HeldAt disk path signature rows t)))
            l.result)

pub same_signature_eq : (a b : Signature) → same_signature a b ≡ true → a ≡ b
unfolding same_signature
same_signature_eq (a, b) (c, d) h =
    let first : a ≡ c = ground (arith, h) in let second : b ≡ d = ground (arith, h) in cc

entry-eq :
    (entry : Entry) (signature : Signature) (rows : List Row)
    → entry.signature ≡ signature
    → entry.rows ≡ some rows
    → entry ≡ record { signature = signature; rows = some rows }
entry-eq entry signature rows p q = rw (sym p, sym q) refl

module _ (disk : Disk) (path : Text) where
  later-IsCoherent :
      (s t : ℕ) (cache : CsvCache) → s ≤ t → IsCoherent disk s cache → IsCoherent disk t cache
  later-IsCoherent s t cache le h p signature rows e =
      let (m, (before, held)) = h p signature rows e in (m, (omega (arith, le, before), held))

  put-IsCoherent :
      (t m : ℕ) (cache : CsvCache) (signature : Signature) (rows : List Row)
      → m ≤ t
      → HeldAt disk path signature rows m
      → IsCoherent disk t cache
      → IsCoherent disk t (put cache path (signature, rows))
  put-IsCoherent t m cache signature rows le held h p signature' rows' e =
      elim (Bool-cases (p == path)) [
        | inl f ↦
            let found : some (signature, rows) ≡ some (signature', rows') =
              rw (get-put cache path p (signature, rows), f) at e in
            let same : (signature, rows) ≡ (signature', rows') = cc in
            let there : HeldAt disk path signature' rows' m =
              subst (λ (v : Signature × List Row). HeldAt disk path v.0 v.1 m) same held in
            (m, (le, subst (λ q. HeldAt disk q signature' rows' m) (sym (==_eq p path f)) there))
        | inr f ↦
            let found : get cache p ≡ some (signature', rows') =
              rw (get-put cache path p (signature, rows), f) at e in
            h p signature' rows' found
      ]

  failed :
      (start time : ℕ) (cache : CsvCache)
      → start ≤ time
      → IsCoherent disk time cache
      → IsLoaded disk path start (loaded disk path time cache none)
  unfolding loaded
  failed start time cache le h = (le, (h, tt))

  compared-IsLoaded :
      (start time m : ℕ) (cache : CsvCache) (rows : List Row) (before after : Signature)
      (again : Loaded)
      → start ≤ m
      → m ≤ time
      → IsCoherent disk time cache
      → (same_signature before after ≡ true → HeldAt disk path after rows m)
      → IsLoaded disk path start again
      → IsLoaded disk path start (compared disk path time cache rows before after again)
  unfolding compared loaded
  compared-IsLoaded start time m cache rows before after again le lt h held k =
      if-P_of (IsLoaded disk path start) (same_signature before after)
        (λ e. (
          omega (arith, le, lt),
          (put-IsCoherent time m cache after rows lt (held e) h, (m, (le, (lt, held e)))),
        ))
        (λ _. k)

  module _ (stable : IsStable disk) where
    -- a file that is read between two looks at one signature is what it was at the first
    held_between :
        (time : ℕ) (first reading last : Entry) (rows : List Row)
        → disk time path ≡ some first
        → disk (time + 1) path ≡ some reading
        → disk (time + 1 + 1) path ≡ some last
        → reading.rows ≡ some rows
        → same_signature first.signature last.signature ≡ true
        → HeldAt disk path last.signature rows (time + 1)
    held_between time first reading last rows a b c r e =
        let same = same_signature_eq first.signature last.signature e in
        let unchanged =
          stable path time (time + 1) (time + 1 + 1) first last (omega arith) (omega arith) a c
            same in
        let as_first : reading ≡ first = cc in
        let signature = ap (λ (x : Entry). x.signature) as_first ∙ same in
        b ∙ ap some (entry-eq reading last.signature rows signature r)

    stat_again-IsLoaded :
        (start time : ℕ) (cache : CsvCache) (rows : List Row) (first reading : Entry)
        (again : Loaded)
        → start ≤ time
        → disk time path ≡ some first
        → disk (time + 1) path ≡ some reading
        → reading.rows ≡ some rows
        → IsCoherent disk (time + 1 + 1) cache
        → IsLoaded disk path start again
        → IsLoaded disk path start
            (stat_again disk path (time + 1 + 1) cache rows first.signature again)
    unfolding stat_again
    stat_again-IsLoaded start time cache rows first reading again le a b r h k =
        elim (Option-cases (disk (time + 1 + 1) path)) [
          | inl e ↦ rw (e, stat_again) (failed start (time + 1 + 1) cache (omega (arith, le)) h)
          | inr (last, e) ↦
              rw (e, stat_again)
                (compared-IsLoaded start (time + 1 + 1) (time + 1) cache rows first.signature
                  last.signature again (omega (arith, le)) (omega arith) h
                  (λ f. held_between time first reading last rows a b e r f) k)
        ]

    read-IsLoaded :
        (start time : ℕ) (cache : CsvCache) (first : Entry) (again : Loaded)
        → start ≤ time
        → disk time path ≡ some first
        → IsCoherent disk (time + 1) cache
        → IsLoaded disk path start again
        → IsLoaded disk path start (read disk path (time + 1) cache first.signature again)
    unfolding read
    read-IsLoaded start time cache first again le a h k =
        elim (Option-cases (disk (time + 1) path)) [
          | inl e ↦ rw (e, read) (failed start (time + 1) cache (omega (arith, le)) h)
          | inr (reading, e) ↦ elim (Option-cases reading.rows) [
            | inl f ↦ rw (e, read) (rw f (failed start (time + 1) cache (omega (arith, le)) h))
            | inr (rows, f) ↦
                rw (e, read)
                  (rw f (
                    stat_again-IsLoaded start time cache rows first reading again le a e f
                      (later-IsCoherent (time + 1) (time + 1 + 1) cache (omega arith) h) k))
          ]
        ]

    attempt-IsLoaded :
        (attempts start time : ℕ) (cache : CsvCache)
        → start ≤ time
        → IsCoherent disk time cache
        → IsLoaded disk path start (attempt disk path attempts time cache)
    unfolding attempt
    attempt-IsLoaded zero start time cache le h = failed start time cache le h
    attempt-IsLoaded (suc attempts) start time cache le h =
        let more =
          attempt-IsLoaded attempts start (time + 3) cache (omega (arith, le))
            (later-IsCoherent time (time + 3) cache (omega arith) h) in
        elim (Option-cases (disk time path)) [
          | inl e ↦ rw (e, attempt) (failed start time cache le h)
          | inr (first, e) ↦
              rw (e, attempt)
                (read-IsLoaded start time cache first (attempt disk path attempts (time + 3) cache)
                  le e (later-IsCoherent time (time + 1) cache (omega arith) h) more)
        ]

    -- what the cache has for the present signature is what the file holds now
    hit_or_read-IsLoaded :
        (time : ℕ) (cache : CsvCache) (entry : Entry)
        → disk time path ≡ some entry
        → IsCoherent disk time cache
        → IsLoaded disk path time
            (hit_or_read disk path time cache entry.signature (get cache path))
    unfolding hit_or_read loaded
    hit_or_read-IsLoaded time cache entry a h =
        let more =
          attempt-IsLoaded 3 time (time + 1) cache (omega arith)
            (later-IsCoherent time (time + 1) cache (omega arith) h) in
        elim (Option-cases (get cache path)) [
          | inl e ↦ rw e more
          | inr ((cached, rows), e) ↦ rw e (
              if-P_of (IsLoaded disk path time) (same_signature cached entry.signature)
                (λ f.
                  let (m, (before, held)) = h path cached rows e in
                  let same = same_signature_eq cached entry.signature f in
                  let now =
                    stable path m time time (record { signature = cached; rows = some rows }) entry
                      before (omega arith) held a same in
                  (
                    omega arith,
                    (
                      h,
                      (
                        time,
                        (
                          omega arith,
                          (omega arith, subst (λ s. HeldAt disk path s rows time) same now),
                        ),
                      ),
                    ),
                  ))
                (λ _. more))
        ]

    -- Where a file with one signature at two moments is unchanged between them, and the cache holds
    -- only what files held before: rows that are returned, from the cache or not, are those that the
    -- file had, with that signature, at one moment between the call and the return, whoever writes it
    -- meanwhile, and the cache again holds only what files held.
    pub load_csv_snapshot-IsLoaded :
        (time : ℕ) (cache : CsvCache)
        → IsCoherent disk time cache
        → IsLoaded disk path time (load_csv_snapshot disk path time cache)
    unfolding load_csv_snapshot
    load_csv_snapshot-IsLoaded time cache h = elim (Option-cases (disk time path)) [
      | inl e ↦ rw (e, load_csv_snapshot) (failed time time cache (omega arith) h)
      | inr (entry, e) ↦ rw (e, load_csv_snapshot) (hit_or_read-IsLoaded time cache entry e h)
    ]
