-- ===== src/FileManager/Panels.antt =====
-- The keys on a panel: its cursor stays on an entry and on the screen, no access leaves the array,
-- and so a whole run ends without undefined behaviour.
use hw.Prelude.{
  ℕ, zero, suc, ◌+◌, ◌≤◌, ◌<◌, ◌≡◌, refl, ◌∙◌, true, false, List, [], ◌∷◌, if◌then◌else◌, some,
  arith, length, Bool-cases, Option-cases, inl, inr, length-map, ◌⊎◌, ℕ_discrete,
}
use hw.Prelude.Outcome.{done}
use hw.FileManager.{
  parent, file_of, File, Panel, Kernel, load, list_files, getcwd, Key, move_up, move_down, went,
  open_entry, handle_navigation, max_files,
}
use hw.Stdio.{same_string}
use hw.FileManager.Listing.{list_files-entries}

-- The cursor is on an entry, or there is none and the cursor is at the top.
abbrev pub OnEntry : Panel → Type 0
OnEntry p = (p.current_file < p.file_count) ⊎ ((p.file_count ≡ 0) × (p.current_file ≡ 0))

-- A panel with `height` rows on the screen: the cursor is on an entry, where there is one, and
-- among the rows shown.
pub record IsPanel (height : ℕ) (p : Panel) : Type 0 where
  pub sized : length p.files ≡ max_files
  pub counted : p.file_count ≤ max_files
  pub on_entry : OnEntry p
  pub below_top : p.scroll_offset ≤ p.current_file
  pub above_bottom : p.current_file < p.scroll_offset + height

-- A kernel whose directories have at most MAX_FILES entries, and whose working directories have
-- paths of less than 1024 bytes, which `getcwd` can tell.
pub record IsSmall (kernel : Kernel) : Type 0 where
  pub few :
      (t : ℕ) (path : List ℕ) (names : List (List ℕ))
      → kernel.read_dir t path ≡ some names
      → length names ≤ max_files
  pub short : (t : ℕ) (dir to d : List ℕ) → kernel.chdir t dir to ≡ some d → length d < 1024
  pub found : (t : ℕ) (dir : List ℕ) → kernel.known t dir ≡ true

move_up-IsPanel :
    (height : ℕ) (p : Panel) → 0 < height → IsPanel height p → IsPanel height (move_up p)
move_up-IsPanel height p pos ok = record {
  sized = ground (arith, ok.sized);
  counted = ground (arith, ok.counted);
  on_entry = ground (arith, ok.on_entry);
  below_top = ground (arith, ok.below_top);
  above_bottom = ground (arith, ok.above_bottom, ok.below_top);
}

move_down-IsPanel :
    (height : ℕ) (p : Panel) → 0 < height → IsPanel height p → IsPanel height (move_down height p)
move_down-IsPanel height p pos ok = record {
  sized = ground (arith, ok.sized);
  counted = ground (arith, ok.counted);
  on_entry = ground (arith, ok.on_entry);
  below_top = ground (arith, ok.below_top);
  above_bottom = ground (arith, ok.above_bottom);
}

load_inside : {A : Type 0} (xs : List A) (i : ℕ) → i < length xs → (a : A) × (load xs i ≡ done a)
load_inside [] i h = absurd (omega arith)
load_inside (x ∷ xs) zero h = (x, refl)
load_inside (x ∷ xs) (suc i) h = load_inside xs i (omega arith)

-- A panel after a reading, its cursor reset or not yet.
pub record IsListed (p : Panel) : Type 0 where
  pub sized : length p.files ≡ max_files
  pub counted : p.file_count ≤ max_files

abbrev pub reset : Panel → Panel
reset p = record p { current_file = 0; scroll_offset = 0 }

cursor_at_top : (p : Panel) → OnEntry (reset p)
cursor_at_top p = elim (ℕ_discrete p.file_count 0) [
  | yes empty ↦ inr (empty, refl)
  | no more ↦ inl (omega (arith, more))
]

pub reset-IsPanel : (height : ℕ) (p : Panel) → 0 < height → IsListed p → IsPanel height (reset p)
reset-IsPanel height p pos ok = record {
  sized = ok.sized;
  counted = ok.counted;
  on_entry = cursor_at_top p;
  below_top = omega arith;
  above_bottom = omega arith;
}

module _ (kernel : Kernel) (small : IsSmall kernel) where
  pub list_files-IsListed :
      (t : ℕ) (p : Panel) (path : List ℕ)
      → IsListed p
      → (q : Panel) × (list_files kernel t p path ≡ done q)
        × IsListed q
        × (q.current_file ≡ p.current_file)
        × (q.scroll_offset ≡ p.scroll_offset)
  unfolding list_files
  list_files-IsListed t p path ok = elim (Option-cases (kernel.read_dir t path)) [
    | inl refused ↦ (p, rw (list_files, refused), ok, refl, refl)
    | inr (names, answer) ↦
        (let few = small.few t path names answer in
          let (q, run, e) = list_files-entries kernel t path p names ok.sized answer few in
          (
            q,
            run,
            record {
              sized = e.sized ∙ ok.sized;
              counted = omega (arith, e.counted, length-map names (file_of kernel t path), few);
            },
            e.cursor,
            e.scrolled,
          ))
  ]

  went_short :
      (t : ℕ) (dir to : List ℕ)
      → length dir < 1024
      → length (went dir (kernel.chdir t dir to)) < 1024
  went_short t dir to h = elim (Option-cases (kernel.chdir t dir to)) [
    | inl refused ↦ rw refused h
    | inr (d, answer) ↦ rw answer (small.short t dir to d answer)
  ]

  pub getcwd_short : (t : ℕ) (dir : List ℕ) → length dir < 1024 → getcwd kernel t dir ≡ done dir
  getcwd_short t dir h = ground (arith, small.found t dir)

  abbrev target : List ℕ → ℕ → File → List ℕ
  target dir t file =
      went dir (kernel.chdir t dir (if same_string file.name parent then parent else file.name))

  open_plain :
      (t : ℕ) (dir : List ℕ) (p : Panel) (file : File)
      → load p.files p.current_file ≡ done file
      → file.is_dir ≡ false
      → open_entry kernel t dir p ≡ done (p, dir, t)
  unfolding open_entry
  open_plain t dir p file there plain = rw there (rw plain)

  open_folder :
      (t : ℕ) (dir : List ℕ) (p : Panel) (file : File) (q : Panel)
      → load p.files p.current_file ≡ done file
      → file.is_dir ≡ true
      → length (target dir t file) < 1024
      → list_files kernel t (record p { current_path = target dir t file }) (target dir t file)
        ≡ done q
      → open_entry kernel t dir p ≡ done (reset q, target dir t file, suc t)
  unfolding open_entry
  open_folder t dir p file q there folder short run =
      rw there (rw folder (rw (getcwd_short t (target dir t file) short) (rw run)))

  open_entry_lem :
      (height t : ℕ) (dir : List ℕ) (p : Panel)
      → 0 < height
      → IsPanel height p
      → length dir < 1024
      → (q : Panel) × (dir' : List ℕ) × (t' : ℕ) × (open_entry kernel t dir p ≡ done (q, dir', t'))
        × IsPanel height q
        × (length dir' < 1024)
  open_entry_lem height t dir p pos ok h =
      let (file, there) =
        load_inside p.files p.current_file (omega (arith, ok.sized, ok.counted, ok.on_entry)) in
      elim (Bool-cases file.is_dir) [
        | inr plain ↦ (p, dir, t, open_plain t dir p file there plain, ok, h)
        | inl folder ↦
            (let dir' = target dir t file in
              let short =
                went_short t dir (if same_string file.name parent then parent else file.name) h in
              let (q, run, listed, _, _) =
                list_files-IsListed t (record p { current_path = dir' }) dir'
                  (record { sized = ok.sized; counted = ok.counted }) in
              (
                reset q,
                dir',
                suc t,
                open_folder t dir p file q there folder short run,
                reset-IsPanel height q pos listed,
                short,
              ))
      ]

  -- With such a kernel every key that a well-formed panel gets leaves its cursor on the screen and
  -- on an entry, or at the top where the panel lists no entry, and no access leaves its array.
  pub handle_navigation-IsPanel :
      (height t : ℕ) (dir : List ℕ) (p : Panel) (key : Key)
      → 0 < height
      → IsPanel height p
      → length dir < 1024
      → (q : Panel) × (dir' : List ℕ) × (t' : ℕ) × (handle_navigation kernel t dir p key height
          ≡ done (q, dir', t'))
        × IsPanel height q
        × (length dir' < 1024)
  unfolding handle_navigation
  handle_navigation-IsPanel height t dir p Key.up pos ok h =
      (move_up p, dir, t, refl, move_up-IsPanel height p pos ok, h)
  handle_navigation-IsPanel height t dir p Key.down pos ok h =
      (move_down height p, dir, t, refl, move_down-IsPanel height p pos ok, h)
  handle_navigation-IsPanel height t dir p Key.enter pos ok h =
      open_entry_lem height t dir p pos ok h
  handle_navigation-IsPanel height t dir p Key.tab pos ok h = (p, dir, t, refl, ok, h)
  handle_navigation-IsPanel height t dir p Key.quit pos ok h = (p, dir, t, refl, ok, h)
  handle_navigation-IsPanel height t dir p Key.other pos ok h = (p, dir, t, refl, ok, h)
