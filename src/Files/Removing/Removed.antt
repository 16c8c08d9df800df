-- ===== src/Files/Removing/Removed.antt =====
-- io/fileutils.go: RemoveTempDir without an error leaves nothing in the directory.
use gofrog.Prelude.{
  ◌⊎◌, inl, inr, true, Option-cases, ◌≡◌, refl, List, [], ◌∷◌, Bool, false, All, Option, none, some,
  Bytes, arith,
}
use gofrog.Filepath.{join}
use gofrog.Files.Listing.{is_dir_exists}
use gofrog.Files.Removing.{
  TempSystem, after_remove, remove_each, closing, remove_named, remove_dir_contents, fall_back,
  remove_temp_dir,
}

-- What is there: a removal without an error takes the path away, and no removal makes anything.
pub record IsRemoval {S X : Type 0} (sys : TempSystem S X) (there : S → Bytes → Bool) : Type 0 where
  pub gone :
      (s : S) (p : Bytes) → (sys.remove_all s p).1 ≡ none → there (sys.remove_all s p).0 p ≡ false
  pub stays : (s : S) (p q : Bytes) → there s q ≡ false → there (sys.remove_all s p).0 q ≡ false

module _ {S X : Type 0} (sys : TempSystem S X) (there : S → Bytes → Bool)
    (removal : IsRemoval sys there) where
  after_remove-stays :
      (next : S → S × Option X) (r : S × Option X) (q : Bytes)
      → ((s : S) → there s q ≡ false → there (next s).0 q ≡ false)
      → there r.0 q ≡ false
      → there (after_remove sys next r).0 q ≡ false
  unfolding after_remove
  after_remove-stays next (s, some e) q keep h = h
  after_remove-stays next (s, none) q keep h = keep s h

  remove_each-stays :
      (dir_path : Bytes) (names : List Bytes) (s : S) (q : Bytes)
      → there s q ≡ false
      → there (remove_each sys dir_path names s).0 q ≡ false
  unfolding remove_each
  remove_each-stays dir_path [] s q h = h
  remove_each-stays dir_path (name ∷ names) s q h =
      after_remove-stays (remove_each sys dir_path names)
        (sys.remove_all s (join (dir_path ∷ name ∷ []))) q
        (λ t. remove_each-stays dir_path names t q)
        (removal.stays s (join (dir_path ∷ name ∷ [])) q h)

  after_remove-gone :
      (dir_path name : Bytes) (names : List Bytes) (r : S × Option X)
      → (after_remove sys (remove_each sys dir_path names) r).1 ≡ none
      → (r.1 ≡ none → there r.0 (join (dir_path ∷ name ∷ [])) ≡ false)
      → there (after_remove sys (remove_each sys dir_path names) r).0 (join (dir_path ∷ name ∷ []))
        ≡ false
  unfolding after_remove
  after_remove-gone dir_path name names (t, some e) k gone = absurd (ground arith)
  after_remove-gone dir_path name names (t, none) k gone =
      remove_each-stays dir_path names t (join (dir_path ∷ name ∷ [])) (gone refl)

  after_remove-all_gone :
      (dir_path : Bytes) (names : List Bytes) (r : S × Option X)
      → ((t : S)
          → (remove_each sys dir_path names t).1 ≡ none
          → All
              (λ name.
                there (remove_each sys dir_path names t).0 (join (dir_path ∷ name ∷ [])) ≡ false)
              names)
      → (after_remove sys (remove_each sys dir_path names) r).1 ≡ none
      → All
          (λ name.
            there
              (after_remove sys (remove_each sys dir_path names) r).0
              (join (dir_path ∷ name ∷ []))
            ≡ false)
          names
  unfolding after_remove
  after_remove-all_gone dir_path names (t, some e) rest k = absurd (ground arith)
  after_remove-all_gone dir_path names (t, none) rest k = rest t k

  remove_each-gone :
      (dir_path : Bytes) (names : List Bytes) (s : S)
      → (remove_each sys dir_path names s).1 ≡ none
      → All
          (λ name. there (remove_each sys dir_path names s).0 (join (dir_path ∷ name ∷ [])) ≡ false)
          names
  unfolding remove_each
  remove_each-gone dir_path [] s h = tt
  remove_each-gone dir_path (name ∷ names) s h = (
    after_remove-gone dir_path name names (sys.remove_all s (join (dir_path ∷ name ∷ []))) h
        (λ e. removal.gone s (join (dir_path ∷ name ∷ [])) e),
    after_remove-all_gone dir_path names (sys.remove_all s (join (dir_path ∷ name ∷ [])))
        (remove_each-gone dir_path names) h,
  )

  closing-nil :
      (dir_path : Bytes) (r : S × Option X)
      → (closing sys dir_path r).1 ≡ []
      → (r.1 ≡ none) × ((closing sys dir_path r).0 ≡ r.0)
  unfolding closing
  closing-nil dir_path (s, none) h = (refl, refl)
  closing-nil dir_path (s, some e) h = absurd (ground arith)

  -- Every entry that the directory was found to have is gone.
  abbrev IsEmptied : Bytes → X ⊎ List Bytes → S → Type 0
  IsEmptied dir_path found t =
      (names : List Bytes) × (found ≡ inr names)
      × All (λ name. there t (join (dir_path ∷ name ∷ [])) ≡ false) names

  remove_named-IsEmptied :
      (dir_path : Bytes) (s : S) (found : X ⊎ List Bytes)
      → (remove_named sys dir_path s found).1 ≡ none
      → IsEmptied dir_path found (remove_named sys dir_path s found).0
  unfolding remove_named
  remove_named-IsEmptied dir_path s (inl e) h = absurd (ground arith)
  remove_named-IsEmptied dir_path s (inr names) h =
      (names, refl, remove_each-gone dir_path names s h)

  remove_dir_contents-IsEmptied :
      (dir_path : Bytes) (s : S)
      → (remove_dir_contents sys s dir_path).1 ≡ []
      → IsEmptied dir_path (sys.read_dir_names s dir_path) (remove_dir_contents sys s dir_path).0
  unfolding remove_dir_contents
  remove_dir_contents-IsEmptied dir_path s = elim (Option-cases (sys.open_dir s dir_path)) [
    | inl opens ↦
        rw (opens, remove_dir_contents)
          (λ h.
            let r = remove_named sys dir_path s (sys.read_dir_names s dir_path) in
            let (no_error, same) = closing-nil dir_path r h in
            rw (same) (remove_named-IsEmptied dir_path s (sys.read_dir_names s dir_path) no_error))
    | inr (e, fails) ↦ rw (fails, remove_dir_contents) (λ h. absurd (ground arith))
  ]

  fall_back-gone :
      (dir_path : Bytes) (r : S × Option X)
      → (r.1 ≡ none → there r.0 dir_path ≡ false)
      → (fall_back sys dir_path r).1 ≡ []
      → (there (fall_back sys dir_path r).0 dir_path ≡ false)
        ⊎ IsEmptied dir_path (sys.read_dir_names r.0 dir_path) (fall_back sys dir_path r).0
  unfolding fall_back
  fall_back-gone dir_path (s, none) gone h = inl (gone refl)
  fall_back-gone dir_path (s, some e) gone h = inr (remove_dir_contents-IsEmptied dir_path s h)

  -- RemoveTempDir of a directory that is there, without an error: the directory is gone or, when it could not
  -- be removed, every entry that it was then found to have.
  remove_temp_dir-gone :
      (dir_path : Bytes) (s : S)
      → is_dir_exists (sys.fs s) dir_path false ≡ inr true
      → (remove_temp_dir sys s dir_path).1 ≡ []
      → (there (remove_temp_dir sys s dir_path).0 dir_path ≡ false)
        ⊎ IsEmptied dir_path
            (sys.read_dir_names (sys.remove_all s dir_path).0 dir_path)
            (remove_temp_dir sys s dir_path).0
  unfolding remove_temp_dir
  remove_temp_dir-gone dir_path s exists =
      rw (exists, remove_temp_dir)
        (fall_back-gone dir_path (sys.remove_all s dir_path) (removal.gone s dir_path))
