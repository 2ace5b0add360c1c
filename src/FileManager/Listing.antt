-- ===== src/FileManager/Listing.antt =====
-- Reading a directory into a panel: which entries the array holds afterwards, and when the store
-- leaves it.
use mathlib.Core.List.{append_assoc, append-nil}
use hw.Prelude.{
  ℕ, zero, suc, ◌+◌, ◌≤◌, ◌<◌, ◌≡◌, ◌↔◌, refl, ap, sym, ◌∙◌, true, List, [], ◌∷◌, ◌++◌, some, map,
  arith, ltb, length, set, take, length-set, Bool-cases, inl, inr,
}
use hw.Prelude.Outcome.{done, fault}
use hw.FileManager.{File, Panel, Kernel, file_of, fill, list_files, max_files}

take-set_next :
    (xs : List File) (i : ℕ) (f : File)
    → i < length xs
    → take (suc i) (set xs i f) ≡ take i xs ++ (f ∷ [])
take-set_next [] i f h = absurd (omega arith)
take-set_next (x ∷ xs) zero f h = refl
take-set_next (x ∷ xs) (suc i) f h = ap (λ t. x ∷ t) (take-set_next xs i f (omega arith))

-- The panel `q` after the entries `added` were stored behind those that `p` held.
pub record Extends (p q : Panel) (added : List File) : Type 0 where
  pub sized : length q.files ≡ length p.files
  pub counted : q.file_count ≡ p.file_count + length added
  pub held : take q.file_count q.files ≡ take p.file_count p.files ++ added
  pub cursor : q.current_file ≡ p.current_file
  pub scrolled : q.scroll_offset ≡ p.scroll_offset

module _ (kernel : Kernel) (t : ℕ) (path : List ℕ) where
  abbrev pub entries : List (List ℕ) → List File
  entries names = map (file_of kernel t path) names

  abbrev pushed : Panel → List ℕ → Panel
  pushed p d_name = record p {
    files = set p.files p.file_count (file_of kernel t path d_name);
    file_count = suc p.file_count;
  }

  fill_fits :
      (names : List (List ℕ)) (p : Panel)
      → p.file_count + length names ≤ length p.files
      → (q : Panel) × (fill kernel t path names p ≡ done q) × Extends p q (entries names)
  unfolding fill
  fill_fits [] p h = (
    p,
    refl,
    record {
      sized = refl;
      counted = omega arith;
      held = sym (append-nil (take p.file_count p.files));
      cursor = refl;
      scrolled = refl;
    },
  )
  fill_fits (d_name ∷ names) p h =
      let room : ltb p.file_count (length p.files) ≡ true = ground arith in
      let (q, run, e) =
        fill_fits names (pushed p d_name)
          (omega (arith, length-set p.files p.file_count (file_of kernel t path d_name))) in
      (
        q,
        rw room run,
        record {
          sized = e.sized ∙ length-set p.files p.file_count (file_of kernel t path d_name);
          counted = omega (arith, e.counted);
          held =
              e.held
              ∙ ap (λ l. l ++ entries names)
                  (take-set_next p.files p.file_count (file_of kernel t path d_name) (omega arith))
              ∙ append_assoc (take p.file_count p.files) (file_of kernel t path d_name ∷ [])
                  (entries names);
          cursor = e.cursor;
          scrolled = e.scrolled;
        },
      )

  fill_overflows :
      (names : List (List ℕ)) (p : Panel)
      → length p.files < p.file_count + length names
      → p.file_count ≤ length p.files
      → fill kernel t path names p ≡ fault
  unfolding fill
  fill_overflows [] p h k = absurd (omega arith)
  fill_overflows (d_name ∷ names) p h k = elim (Bool-cases (ltb p.file_count (length p.files))) [
    | inl room ↦
        (let same : length (pushed p d_name).files ≡ length p.files =
            length-set p.files p.file_count (file_of kernel t path d_name) in
          rw room
            (fill_overflows names (pushed p d_name) (omega (arith, same)) (ground (arith, same))))
    | inr full ↦ rw full
  ]

  -- Where the directory can be read and has at most MAX_FILES entries, the panel lists them all,
  -- in order, with the sizes and kinds that `stat` gives.
  pub list_files-entries :
      (p : Panel) (names : List (List ℕ))
      → length p.files ≡ max_files
      → kernel.read_dir t path ≡ some names
      → length names ≤ max_files
      → (q : Panel) × (list_files kernel t p path ≡ done q)
        × Extends (record p { file_count = 0 }) q (entries names)
  unfolding list_files
  list_files-entries p names size answer few =
      let (q, run, e) = fill_fits names (record p { file_count = 0 }) (omega (arith, size)) in
      (q, rw (list_files, answer) run, e)

  -- The listing stores outside the array exactly where the directory has more than MAX_FILES
  -- entries.
  pub list_files-fault :
      (p : Panel) (names : List (List ℕ))
      → length p.files ≡ max_files
      → kernel.read_dir t path ≡ some names
      → (list_files kernel t p path ≡ fault) ↔ (max_files < length names)
  unfolding list_files
  list_files-fault p names size answer = elim (Bool-cases (ltb max_files (length names))) [
    | inl over ↦
        (let run : list_files kernel t p path ≡ fault =
            rw (list_files, answer)
              (fill_overflows names (record p { file_count = 0 }) (ground (arith, size))
                (omega arith)) in
          (λ _. ground arith, λ _. run))
    | inr few ↦
        (let (q, run, _) = fill_fits names (record p { file_count = 0 }) (ground (arith, size)) in
          let back : list_files kernel t p path ≡ done q = rw (list_files, answer) run in
          (λ e. cc, λ over. absurd (ground arith)))
  ]
