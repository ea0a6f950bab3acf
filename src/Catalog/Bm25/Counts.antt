-- ===== src/Catalog/Bm25/Counts.antt =====
-- The counts that `fit` takes are those of the corpus.
-- How often the word stands in the document; in how many documents it stands.
use package.true.Catalog.Bm25.{
  bump, bump_all, count_docs, dict_keys, fit, idf_of, term_freqs_of, vocabulary,
}
use package.true.Catalog.Tokens.{tokenize}
use package.true.Dict.{Dict, NodupKeys, get, get-put, get_or, has_key, has_key-put, put-NodupKeys}
use package.true.Floats.{Floats}
use package.true.Prelude.{
  List, [], any, ap, arith, if◌then◌else◌, length, length-map, map, refl, suc, ℕ, ◌+◌, ◌||◌, ◌∙◌,
  ◌∷◌, ◌≡◌, ◌≤◌,
}
use package.true.Text.{Text, contains, ◌==◌}

abbrev pub occurrences : Text → List Text → ℕ
occurrences w [] = 0
occurrences w (x ∷ doc) = if w == x then suc (occurrences w doc) else occurrences w doc

abbrev pub docs_with : Text → List (List Text) → ℕ
docs_with w [] = 0
docs_with w (doc ∷ docs) = if contains doc w then suc (docs_with w docs) else docs_with w docs

pub get_or-bump :
    (d : Dict ℕ) (w x : Text)
    → get_or (bump d x) w 0 ≡ (if w == x then get_or d x 0 + 1 else get_or d w 0)
unfolding bump get_or
get_or-bump d w x = ground (arith, get-put d x w (get_or d x 0 + 1))

pub get_or-bump_all :
    (doc : List Text) (d : Dict ℕ) (w : Text)
    → get_or (bump_all d doc) w 0 ≡ get_or d w 0 + occurrences w doc
unfolding bump_all
get_or-bump_all [] d w = omega arith
get_or-bump_all (x ∷ doc) d w = ground (arith, get_or-bump_all doc (bump d x) w, get_or-bump d w x)

-- The counts of one document are its occurrences.
term_freqs-occurrences :
    (doc : List Text) (w : Text) → get_or (term_freqs_of doc) w 0 ≡ occurrences w doc
unfolding term_freqs_of get_or get
term_freqs-occurrences doc w = omega (arith, get_or-bump_all doc [] w)

-- The keys of a count are distinct, and are the words counted.
has_key-bump_all :
    (doc : List Text) (d : Dict ℕ) (w : Text)
    → has_key (bump_all d doc) w ≡ (has_key d w || contains doc w)
unfolding bump_all bump
has_key-bump_all [] d w = ground arith
has_key-bump_all (x ∷ doc) d w =
    ground (arith, has_key-bump_all doc (bump d x) w, has_key-put d x w (get_or d x 0 + 1))

bump_all-NodupKeys : (doc : List Text) (d : Dict ℕ) → NodupKeys d → NodupKeys (bump_all d doc)
unfolding bump_all bump
bump_all-NodupKeys [] d n = n
bump_all-NodupKeys (x ∷ doc) d n =
    bump_all-NodupKeys doc (bump d x) (put-NodupKeys d x (get_or d x 0 + 1) n)

contains-dict_keys {ℓ} :
    {V : Type ℓ} (d : Dict V) (w : Text) → contains (dict_keys d) w ≡ has_key d w
unfolding has_key
contains-dict_keys [] w = refl
contains-dict_keys ((k, v) ∷ d) w = ground (arith, contains-dict_keys d w)

dict_keys-once {ℓ} :
    {V : Type ℓ} (d : Dict V) (w : Text)
    → NodupKeys d
    → occurrences w (dict_keys d) ≡ (if has_key d w then 1 else 0)
unfolding has_key
dict_keys-once [] w n = refl
dict_keys-once ((k, v) ∷ d) w n = ground (arith, dict_keys-once d w n.1)

-- A document hands each of its words on once.
words_once :
    (doc : List Text) (w : Text)
    → occurrences w (dict_keys (term_freqs_of doc)) ≡ (if contains doc w then 1 else 0)
unfolding term_freqs_of has_key
words_once doc w =
    rw (dict_keys-once (bump_all [] doc) w (bump_all-NodupKeys doc [] tt))
      (rw (has_key-bump_all doc [] w))

pub count_docs-docs_with :
    (docs : List (List Text)) (freqs : Dict ℕ) (w : Text)
    → get_or (count_docs freqs docs) w 0 ≡ get_or freqs w 0 + docs_with w docs
unfolding count_docs
count_docs-docs_with [] freqs w = omega arith
count_docs-docs_with (doc ∷ docs) freqs w =
    let keys = dict_keys (term_freqs_of doc) in
    ground (
      arith,
      count_docs-docs_with docs (bump_all freqs keys) w,
      get_or-bump_all keys freqs w,
      words_once doc w,
    )

keys_kept :
    (doc : List Text) (w : Text) → contains (dict_keys (term_freqs_of doc)) w ≡ contains doc w
unfolding term_freqs_of has_key
keys_kept doc w = contains-dict_keys (bump_all [] doc) w ∙ has_key-bump_all doc [] w

has_key-count_docs :
    (docs : List (List Text)) (freqs : Dict ℕ) (w : Text)
    → has_key (count_docs freqs docs) w ≡ (has_key freqs w || any (λ doc. contains doc w) docs)
unfolding count_docs
has_key-count_docs [] freqs w = ground arith
has_key-count_docs (doc ∷ docs) freqs w =
    let keys = dict_keys (term_freqs_of doc) in
    ground (
      arith,
      has_key-count_docs docs (bump_all freqs keys) w,
      has_key-bump_all keys freqs w,
      keys_kept doc w,
    )

docs_with-le : (w : Text) (docs : List (List Text)) → docs_with w docs ≤ length docs
docs_with-le w [] = omega arith
docs_with-le w (doc ∷ docs) = ground (arith, docs_with-le w docs)

module _ (fl : Floats) where
  keys-idf_of : (size : ℕ) (freqs : Dict ℕ) → dict_keys (idf_of fl size freqs) ≡ dict_keys freqs
  unfolding idf_of
  keys-idf_of size [] = refl
  keys-idf_of size ((w, n) ∷ freqs) = ap (λ ks. w ∷ ks) (keys-idf_of size freqs)

  -- After `fit`, the frequency of a word is the number of documents whose tokens hold it, which is
  -- at most the number of documents.
  pub doc_freqs-fit :
      (documents : List Text) (w : Text)
      → (get_or (fit fl documents).doc_freqs w 0 ≡ docs_with w (map tokenize documents))
        × (get_or (fit fl documents).doc_freqs w 0 ≤ length documents)
  unfolding fit get_or get
  doc_freqs-fit [] w = (refl, omega arith)
  doc_freqs-fit (d ∷ ds) w =
      let docs = map tokenize (d ∷ ds) in
      let exact = count_docs-docs_with docs [] w in
      (
        omega (arith, exact),
        omega (arith, exact, docs_with-le w docs, length-map tokenize (d ∷ ds)),
      )

  -- After `fit`, the vocabulary holds exactly the tokens of the documents.
  pub vocabulary-fit :
      (documents : List Text) (w : Text)
      → contains (vocabulary fl (fit fl documents)) w
        ≡ any (λ doc. contains doc w) (map tokenize documents)
  unfolding fit vocabulary has_key
  vocabulary-fit [] w = refl
  vocabulary-fit (d ∷ ds) w =
      let docs = map tokenize (d ∷ ds) in
      let freqs = count_docs [] docs in
      ap (λ ks. contains ks w) (keys-idf_of (length docs) freqs)
      ∙ contains-dict_keys freqs w
      ∙ has_key-count_docs docs [] w
