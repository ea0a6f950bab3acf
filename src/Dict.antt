-- ===== src/Dict.antt =====
-- Python's `dict` with text keys: the entries in the order of insertion.
use package.true.Prelude.{
  All, Bool, Bool-cases, List, Option, [], arith, false, if◌then◌else◌, inl, inr, is_none, none,
  not, refl, some, ◌||◌, ◌∷◌, ◌≡◌,
}
use package.true.Text.{==_eq, Text, ◌==◌}

abbrev pub Dict {ℓ} : Type ℓ → Type ℓ
Dict V = List (Text × V)

module _ {ℓ} {V : Type ℓ} where
  -- d.get(k)
  unfoldable pub get : Dict V → Text → Option V
  get [] k = none
  get ((j, v) ∷ d) k = if k == j then some v else get d k

  -- d.get(k, default)
  unfoldable pub get_or : Dict V → Text → V → V
  unfolding get
  get_or d k v = elim (get d k) [ none ↦ v | some w ↦ w ]

  pub get_or-get : (d : Dict V) (k : Text) (w : V) {v : V} → get d k ≡ some v → get_or d k w ≡ v
  unfolding get_or
  get_or-get d k w h = rw (h, get_or)

  pub get_or-missing : (d : Dict V) (k : Text) (w : V) → get d k ≡ none → get_or d k w ≡ w
  unfolding get_or
  get_or-missing d k w h = rw (h, get_or)

  -- k in d
  unfoldable pub has_key : Dict V → Text → Bool
  has_key [] k = false
  has_key ((j, v) ∷ d) k = k == j || has_key d k

  pub has_key-get : (d : Dict V) (k : Text) → has_key d k ≡ not (is_none (get d k))
  unfolding has_key get
  has_key-get [] k = refl
  has_key-get ((j, v) ∷ d) k = ground (arith, has_key-get d k)

  -- d[k] = v: an old key keeps its place
  unfoldable pub put : Dict V → Text → V → Dict V
  put [] k v = (k, v) ∷ []
  put ((j, w) ∷ d) k v = if k == j then (j, v) ∷ d else (j, w) ∷ put d k v

  -- d.pop(k, None)
  unfoldable pub erase : Dict V → Text → Dict V
  erase [] k = []
  erase ((j, v) ∷ d) k = let rest = erase d k in if k == j then rest else (j, v) ∷ rest

  pub get-erase : (d : Dict V) (k j : Text) → get (erase d k) j ≡ (if j == k then none else get d j)
  unfolding get erase
  get-erase [] k j = ground arith
  get-erase ((i, w) ∷ d) k j = ground (arith, get-erase d k j)

  pub get-erase_self : (d : Dict V) (k : Text) → get (erase d k) k ≡ none
  get-erase_self d k = ground (arith, get-erase d k k)

  -- d.update(e)
  unfoldable pub update : Dict V → Dict V → Dict V
  unfolding put
  update d [] = d
  update d ((k, v) ∷ e) = update (put d k v) e

  abbrev pub NodupKeys : Dict V → Type 0
  NodupKeys [] = Unit
  NodupKeys ((k, v) ∷ d) = (has_key d k ≡ false) × NodupKeys d

  pub get-put :
      (d : Dict V) (k j : Text) (v : V) → get (put d k v) j ≡ (if j == k then some v else get d j)
  unfolding get put
  get-put [] k j v = ground arith
  get-put ((i, w) ∷ d) k j v = ground (arith, get-put d k j v)

  -- After an update a key has the last of its new values, or its old one.
  pub get-update_of_absent :
      (d e : Dict V) (k : Text) → has_key e k ≡ false → get (update d e) k ≡ get d k
  unfolding update has_key
  get-update_of_absent d [] k h = refl
  get-update_of_absent d ((j, v) ∷ e) k h =
      ground (arith, get-update_of_absent (put d j v) e k, get-put d j k v)

  pub get-update :
      (d e : Dict V) (k : Text) {v : V}
      → NodupKeys e
      → get e k ≡ some v
      → get (update d e) k ≡ some v
  unfolding update get
  get-update d [] k {v} n h = absurd (cc)
  get-update d ((j, w) ∷ e) k {v} n h = elim (Bool-cases (k == j)) [
    | inl same ↦
        ground (arith, get-update_of_absent (put d j w) e k, get-put d j k w, ==_eq k j same)
    | inr other ↦
        let now : get e k ≡ some v = rw (other, get) at h in
        get-update (put d j w) e k {v = v} n.1 now
  ]

  pub has_key-put :
      (d : Dict V) (k j : Text) (v : V) → has_key (put d k v) j ≡ (j == k || has_key d j)
  unfolding has_key put
  has_key-put [] k j v = ground arith
  has_key-put ((i, w) ∷ d) k j v = ground (arith, has_key-put d k j v)

  pub put-NodupKeys : (d : Dict V) (k : Text) (v : V) → NodupKeys d → NodupKeys (put d k v)
  unfolding put has_key
  put-NodupKeys [] k v n = ground arith
  put-NodupKeys ((i, w) ∷ d) k v n = ground (arith, put-NodupKeys d k v n.1, has_key-put d k i v)

module _ {ℓ κ} {V : Type ℓ} (P : V → Type κ) where
  pub put-All :
      (d : Dict V) (k : Text) (v : V)
      → All (λ (j, w). P w) d
      → P v
      → All (λ (j, w). P w) (put d k v)
  unfolding put
  put-All [] k v h p = (p, tt)
  put-All ((j, w) ∷ d) k v h p = elim (Bool-cases (k == j)) [
    | inl e ↦ rw (e, put) (p, h.1)
    | inr e ↦ rw (e, put) (h.0, put-All d k v h.1 p)
  ]
