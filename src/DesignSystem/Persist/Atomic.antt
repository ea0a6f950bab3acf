-- ===== src/DesignSystem/Persist/Atomic.antt =====
-- What `_write_persisted_file` leaves on the disk, whichever call fails.
use package.true.DesignSystem.Persist.{
  Call, Disk, Written, clean_up, done, exists_already, link, make_temp, os_error, publish,
  publish_temp, remove_temp, replace, with_files, write_persisted_file, write_temp,
}
use package.true.Dict.{
  Dict, erase, get, get-erase, get-erase_self, get-put, get_or, get_or-get, has_key, has_key-put,
  put,
}
use package.true.Prelude.{
  Bool, [], ap, arith, false, if-P, if-P_of, if◌then◌else◌, inl, inr, none, not, refl, some, true,
  ◌&&◌, ◌||◌, ◌≡◌, ◌⊎◌,
}
use package.true.Text.{Text, ◌==◌}

abbrev pub is_error : Written → Bool
is_error done = false
is_error exists_already = false
is_error os_error = true

-- What a write may leave behind at the paths other than that of the temporary file.
module _ (temp_name path content : Text) (force : Bool) (before : Dict Text) where
  -- The new text is at its path, which had no file, or was to be overwritten.
  pub record Published (after : Dict Text) : Type 0 where
    pub allowed : (force || not (has_key before path)) ≡ true
    pub texts :
        (p : Text)
        → (p == temp_name) ≡ false
        → get after p ≡ (if p == path then some content else get before p)

  pub record Untouched (after : Dict Text) : Type 0 where
    pub same : (p : Text) → (p == temp_name) ≡ false → get after p ≡ get before p

  -- How a write may end.
  abbrev pub Ended : Written → Dict Text → Type 0
  Ended done after = Published after
  Ended exists_already after = ((force ≡ false) × (has_key before path ≡ true)) × Untouched after
  Ended os_error after = Published after ⊎ Untouched after

  Published-erase : (after : Dict Text) → Published after → Published (erase after temp_name)
  Published-erase after h = record {
    allowed = h.allowed;
    texts = λ p n. ground (arith, h.texts p n, get-erase after temp_name p);
  }

  Untouched-erase : (after : Dict Text) → Untouched after → Untouched (erase after temp_name)
  Untouched-erase after h = record {
    same = λ p n. ground (arith, h.same p n, get-erase after temp_name p);
  }

  Ended-erase :
      (outcome : Written) (after : Dict Text)
      → Ended outcome after
      → Ended outcome (erase after temp_name)
  Ended-erase done after h = Published-erase after h
  Ended-erase exists_already after h = (h.0, Untouched-erase after h.1)
  Ended-erase os_error after (inl h) = inl (Published-erase after h)
  Ended-erase os_error after (inr h) = inr (Untouched-erase after h)

  -- A write that did not come to its end is one that may have failed.
  Ended-os_error :
      (outcome : Written) (after : Dict Text) → Ended outcome after → Ended os_error after
  Ended-os_error done after h = inl h
  Ended-os_error exists_already after h = inr h.1
  Ended-os_error os_error after h = h

  put_temp-Untouched : (t : Text) → Untouched (put before temp_name t)
  put_temp-Untouched t = record { same = λ p n. ground (arith, get-put before temp_name p t) }

  -- The text of the temporary file becomes that of the path.
  put_path-Published :
      (force || not (has_key before path)) ≡ true
      → Published (
          put
            (put before temp_name content)
            path
            (get_or (put before temp_name content) temp_name []))
  put_path-Published h = record {
    allowed = h;
    texts = λ p n. ground (
      arith,
      get-put (put before temp_name content) path p
          (get_or (put before temp_name content) temp_name []),
      get-put before temp_name p content,
      get-put before temp_name temp_name content,
      get_or-get (put before temp_name content) temp_name [] {v = content},
    );
  }

  module _ (fails : Call → Bool) where
    -- A write is atomic. If it is done, its path holds the whole new text; if the file exists already
    -- nothing is changed; if a call fails, one of the two. It takes the place of no file unless it
    -- is forced to. The temporary file is gone, unless a call fails and its removal too.
    pub record IsAtomic (result : Written × Disk) : Type 0 where
      pub ended : Ended result.0 result.1.files
      pub removed :
          (is_error result.0 && fails remove_temp) ≡ false
          → get before temp_name ≡ none
          → get result.1.files temp_name ≡ none

    clean_up-IsAtomic :
        (outcome : Written) (disk : Disk)
        → Ended outcome disk.files
        → IsAtomic (clean_up fails temp_name outcome disk)
    unfolding clean_up with_files
    clean_up-IsAtomic outcome disk h =
        if-P_of IsAtomic (fails remove_temp)
          (λ e. record { ended = Ended-os_error outcome disk.files h; removed = λ f. absurd (cc) })
          (λ e. record {
            ended = Ended-erase outcome disk.files h;
            removed = λ f n. get-erase_self disk.files temp_name;
          })

    replace-IsAtomic :
        (disk : Disk)
        → disk.files ≡ put before temp_name content
        → force ≡ true
        → IsAtomic (replace fails temp_name path disk)
    unfolding replace with_files
    replace-IsAtomic disk e forced =
        if-P IsAtomic (fails publish_temp)
          (clean_up-IsAtomic os_error disk (rw e (inr (put_temp-Untouched content))))
          (rw e (record {
            ended = Published-erase _ (put_path-Published (ground arith));
            removed = λ f n. get-erase_self _ temp_name;
          }))

    link-IsAtomic :
        (disk : Disk)
        → disk.files ≡ put before temp_name content
        → force ≡ false
        → (path == temp_name) ≡ false
        → IsAtomic (link fails temp_name path disk)
    unfolding link with_files
    link-IsAtomic disk e plain n =
        let new = has_key-put before temp_name path content in
        if-P_of IsAtomic (has_key disk.files path)
          (λ h. clean_up-IsAtomic exists_already disk (
            rw e (
              (plain, ground (arith, h, ap (λ (fs : Dict Text). has_key fs path) e, new)),
              put_temp-Untouched content,
            )))
          (λ h.
            if-P IsAtomic (fails publish_temp)
              (clean_up-IsAtomic os_error disk (rw e (inr (put_temp-Untouched content))))
              (clean_up-IsAtomic done _ (
                rw e (
                  put_path-Published
                    (ground (arith, h, ap (λ (fs : Dict Text). has_key fs path) e, new))))))

    publish-IsAtomic :
        (disk : Disk)
        → disk.files ≡ put before temp_name content
        → (path == temp_name) ≡ false
        → IsAtomic (publish fails force temp_name path disk)
    unfolding publish
    publish-IsAtomic disk e n =
        if-P_of IsAtomic force (replace-IsAtomic disk e) (λ plain. link-IsAtomic disk e plain n)

-- A write to a file is atomic, whichever of its calls fail. If it is done, its path holds the whole
-- new text; if it finds that the file exists, nothing is changed; if a call failed, one of the two;
-- and no path but these and that of the temporary file is touched. It takes the place of a file
-- only if it is forced to. The temporary file is gone, unless a call failed and its removal too, which is an error. That holds where
-- the name of the temporary file is not the path.
pub write_persisted_file-IsAtomic :
    (fails : Call → Bool) (temp_name torn path content : Text) (force : Bool) (disk : Disk)
    → (path == temp_name) ≡ false
    → IsAtomic temp_name path content force disk.files fails
        (write_persisted_file fails temp_name torn path content force disk)
unfolding write_persisted_file with_files
write_persisted_file-IsAtomic fails temp_name torn path content force disk n =
    let P = IsAtomic temp_name path content force disk.files fails in
    if-P P (fails make_temp)
      (record { ended = inr (record { same = λ _ _. refl }); removed = λ _ e. e })
      (if-P P (fails write_temp)
        (clean_up-IsAtomic temp_name path content force disk.files fails os_error _
          (inr (put_temp-Untouched temp_name path content force disk.files torn)))
        (publish-IsAtomic temp_name path content force disk.files fails _ refl n))
