-- ===== src/DesignSystem/Persist/Race/Safe.antt =====
-- Runs at once neither overwrite a file nor mix their texts, and one of them wins at most.
-- It says that it wrote the file.
use package.true.DesignSystem.Persist.{Written, done, exists_already, os_error}
use package.true.DesignSystem.Persist.Race.{
  Phase, Stage, Step, Steps, Writer, begun, ended, fill_temp, filled, link_found, link_new, more,
  open_temp, opened, removing, set_phase, stage, stay, unlink_temp,
}
use package.true.Dict.{
  Dict, erase, get, get-erase, get-put, get_or, get_or-get, has_key, has_key-get, put,
}
use package.true.Prelude.{
  Bool, Bool-cases, Option, [], arith, eqb, false, inl, inr, none, refl, some, sym, true, ℕ, ◌∙◌,
  ◌≡◌,
}
use package.true.Text.{Text, ◌==◌}

abbrev pub is_won : Phase → Bool
is_won begun = false
is_won opened = false
is_won filled = false
is_won (removing done) = true
is_won (removing exists_already) = false
is_won (removing os_error) = false
is_won (ended done) = true
is_won (ended exists_already) = false
is_won (ended os_error) = false

won_ended : (outcome : Written) → is_won (ended outcome) ≡ is_won (removing outcome)
won_ended done = refl
won_ended exists_already = refl
won_ended os_error = refl

-- The temporary files have names of their own.
pub record Apart (writers : ℕ → Writer) (path : Text) : Type 0 where
  pub temps : (i j : ℕ) → eqb i j ≡ false → ((writers i).temp_name == (writers j).temp_name) ≡ false
  pub from_path : (i : ℕ) → (path == (writers i).temp_name) ≡ false

module _ (writers : ℕ → Writer) (path : Text) (start : Option Text) where
  -- The temporary file of a run that has filled it holds its text.
  pub record IsSafe (s : Stage) : Type 0 where
    pub whole :
        (i : ℕ) → s.phase i ≡ filled → get s.files (writers i).temp_name ≡ some (writers i).content
    pub holds_won :
        (i : ℕ) → is_won (s.phase i) ≡ true → get s.files path ≡ some (writers i).content
    pub one : (i j : ℕ) → is_won (s.phase i) ≡ true → is_won (s.phase j) ≡ true → i ≡ j
    pub kept : (v : Text) → start ≡ some v → get s.files path ≡ some v
    pub owned :
        (v : Text)
        → start ≡ none
        → get s.files path ≡ some v
        → (i : ℕ) × ((is_won (s.phase i) ≡ true) × (v ≡ (writers i).content))

  module _ (apart : Apart writers path) (s : Stage) (safe : IsSafe s) where
    -- A call that leaves the file of the path alone, and by which no run wins.
    quiet-IsSafe :
        (i : ℕ) (p : Phase) (files : Dict Text)
        → get files path ≡ get s.files path
        → is_won p ≡ is_won (s.phase i)
        → ((j : ℕ)
            → set_phase s.phase i p j ≡ filled
            → get files (writers j).temp_name ≡ some (writers j).content)
        → IsSafe (stage files (set_phase s.phase i p))
    quiet-IsSafe i p files same won whole =
        let as_before = λ (j : ℕ).
          let k : is_won (set_phase s.phase i p j) ≡ is_won (s.phase j) = ground (arith, won) in
          k in
        record {
          whole = whole;
          holds_won = λ j w. same ∙ safe.holds_won j (sym (as_before j) ∙ w);
          one = λ j k v w. safe.one j k (sym (as_before j) ∙ v) (sym (as_before k) ∙ w);
          kept = λ v e. same ∙ safe.kept v e;
          owned = λ v e g.
              let (j, found) = safe.owned v e (sym same ∙ g) in
              (j, (as_before j ∙ found.0, found.1));
        }

    open_temp-IsSafe :
        (i : ℕ)
        → s.phase i ≡ begun
        → IsSafe (stage (put s.files (writers i).temp_name []) (set_phase s.phase i opened))
    open_temp-IsSafe i h =
        let temp = (writers i).temp_name in
        quiet-IsSafe i opened (put s.files temp [])
          (ground (arith, get-put s.files temp path [], apart.from_path i)) (rw h refl)
          (λ j f. ground (
            arith,
            f,
            safe.whole j,
            apart.temps j i,
            get-put s.files temp (writers j).temp_name [],
          ))

    fill_temp-IsSafe :
        (i : ℕ)
        → s.phase i ≡ opened
        → IsSafe (
            stage
              (put s.files (writers i).temp_name (writers i).content)
              (set_phase s.phase i filled))
    fill_temp-IsSafe i h =
        let temp = (writers i).temp_name in
        let text = (writers i).content in
        quiet-IsSafe i filled (put s.files temp text)
          (ground (arith, get-put s.files temp path text, apart.from_path i)) (rw h refl)
          (λ j f. elim (Bool-cases (eqb j i)) [
            | inl e ↦
                let same : j ≡ i = ground arith in
                rw same (ground (arith, get-put s.files temp temp text))
            | inr e ↦ ground (
              arith,
              e,
              f,
              safe.whole j,
              apart.temps j i,
              get-put s.files temp (writers j).temp_name text,
            )
          ])

    link_found-IsSafe :
        (i : ℕ)
        → s.phase i ≡ filled
        → IsSafe (stage s.files (set_phase s.phase i (removing exists_already)))
    link_found-IsSafe i h =
        quiet-IsSafe i (removing exists_already) s.files refl (rw h refl)
          (λ j f. safe.whole j (ground (arith, f)))

    unlink_temp-IsSafe :
        (i : ℕ) (outcome : Written)
        → s.phase i ≡ removing outcome
        → IsSafe (stage (erase s.files (writers i).temp_name) (set_phase s.phase i (ended outcome)))
    unlink_temp-IsSafe i outcome h =
        let temp = (writers i).temp_name in
        quiet-IsSafe i (ended outcome) (erase s.files temp)
          (ground (arith, get-erase s.files temp path, apart.from_path i))
          (rw h (won_ended outcome))
          (λ j f.
            ground (
              arith,
              f,
              safe.whole j,
              apart.temps j i,
              get-erase s.files temp (writers j).temp_name,
            ))

    -- Where the path has no file, no run has won.
    none_won : (j : ℕ) → has_key s.files path ≡ false → is_won (s.phase j) ≡ false
    none_won j free = elim (Bool-cases (is_won (s.phase j))) [
      | inl w ↦ ground (arith, safe.holds_won j w, has_key-get s.files path)
      | inr e ↦ e
    ]

    -- Where the path has no file, it had none at the start.
    taken : (v : Text) → start ≡ some v → has_key s.files path ≡ false → true ≡ false
    taken v e free = ground (arith, safe.kept v e, has_key-get s.files path)

    link_new-IsSafe :
        (i : ℕ)
        → s.phase i ≡ filled
        → has_key s.files path ≡ false
        → IsSafe (
            stage
              (put s.files path (get_or s.files (writers i).temp_name []))
              (set_phase s.phase i (removing done)))
    link_new-IsSafe i h free =
        let temp = (writers i).temp_name in
        let text : get_or s.files temp [] ≡ (writers i).content =
          get_or-get s.files temp [] (safe.whole i h) in
        let here : get (put s.files path (writers i).content) path ≡ some (writers i).content =
          ground (arith, get-put s.files path path (writers i).content) in
        let only = λ (j : ℕ) (w : is_won (set_phase s.phase i (removing done) j) ≡ true).
          let k : j ≡ i = ground (arith, w, none_won j free) in k in
        rw text (record {
          whole = λ j f. ground (
            arith,
            f,
            safe.whole j,
            apart.from_path j,
            get-put s.files path (writers j).temp_name (writers i).content,
          );
          holds_won = λ j w. rw (only j w) here;
          one = λ j k v w. only j v ∙ sym (only k w);
          kept = λ v e. absurd (cc (taken v e free));
          owned = λ v e g. (i, (ground arith, ground (arith, here, g)));
        })

  Step-IsSafe : {s t : Stage} → Apart writers path → IsSafe s → Step writers path s t → IsSafe t
  Step-IsSafe {s} apart safe (open_temp i h _) = open_temp-IsSafe apart s safe i h
  Step-IsSafe {s} apart safe (fill_temp i h) = fill_temp-IsSafe apart s safe i h
  Step-IsSafe {s} apart safe (link_new i h free) = link_new-IsSafe apart s safe i h free
  Step-IsSafe {s} apart safe (link_found i h _) = link_found-IsSafe apart s safe i h
  Step-IsSafe {s} apart safe (unlink_temp i outcome h) = unlink_temp-IsSafe apart s safe i outcome h

  Steps-IsSafe : {s t : Stage} → Apart writers path → IsSafe s → Steps writers path s t → IsSafe t
  Steps-IsSafe apart safe stay = safe
  Steps-IsSafe apart safe (more steps step) = Step-IsSafe apart (Steps-IsSafe apart safe steps) step

begun-IsSafe :
    (writers : ℕ → Writer) (path : Text) (files : Dict Text)
    → IsSafe writers path (get files path) (stage files (λ _. begun))
begun-IsSafe writers path files = record {
  whole = λ i h. absurd (cc);
  holds_won = λ i h. absurd (cc);
  one = λ i j h k. absurd (cc);
  kept = λ v e. e;
  owned = λ v e g. absurd (cc);
}

-- However the calls of any number of runs that are not forced follow one another: a file that stood at
-- the path keeps its text; if there was none, the file that is there holds the whole text of a run
-- that says that it wrote it; of such runs there is one at most, and the file holds its text. That
-- holds where the temporary files differ from each other and from the path.
pub concurrent-IsSafe :
    (writers : ℕ → Writer) (path : Text) (files : Dict Text) {t : Stage}
    → Apart writers path
    → Steps writers path (stage files (λ _. begun)) t
    → IsSafe writers path (get files path) t
concurrent-IsSafe writers path files apart steps =
    Steps-IsSafe writers path (get files path) apart (begun-IsSafe writers path files) steps
