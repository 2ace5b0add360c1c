-- ===== src/FileManager/Screen.antt =====
-- What a panel shows: its rows, and the cursor among them.
use hw.Prelude.{
  ℕ, zero, suc, ◌+◌, ◌≤◌, ◌<◌, ◌≡◌, refl, ap, Bool, true, false, ◌&&◌, List, [], ◌∷◌, some, arith,
  ltb, ◌==◌, if◌then◌else◌, length, Bool-cases, ◌≢◌, ℕ_discrete, inl, inr, get_elem?,
}
use mathlib.Core.Path.{subst}
use hw.Prelude.Outcome.{done}
use hw.FileManager.{File, Panel, load, max_files, Row, blank, line, show_file, display_rows}
use hw.FileManager.Panels.{IsPanel}

-- Row `k` of a panel: the entry at the scroll offset plus `k`, or blank behind the last entry.
pub data IsRow (p : Panel) (active : Bool) (j : ℕ) (row : Row) : Type 0 where
  entry :
      (f : File)
      → j < p.file_count
      → get_elem? p.files j ≡ some f
      → row ≡ show_file f ((j == p.current_file) && active)
      → IsRow p active j row
  empty : p.file_count ≤ j → row ≡ blank → IsRow p active j row

abbrev is_reversed : Row → ℕ
is_reversed blank = 0
is_reversed (line name size true) = 1
is_reversed (line name size false) = 0

-- How many rows are in reverse.
unfoldable pub reversed : List Row → ℕ
reversed [] = 0
reversed (row ∷ rows) = is_reversed row + reversed rows

is_reversed-show_file : (f : File) (b : Bool) → is_reversed (show_file f b) ≡ (if b then 1 else 0)
unfolding show_file
is_reversed-show_file f true = refl
is_reversed-show_file f false = refl

load_elem :
    (xs : List File) (i : ℕ)
    → i < length xs
    → (f : File) × (load xs i ≡ done f) × (get_elem? xs i ≡ some f)
load_elem [] i h = absurd (omega arith)
load_elem (x ∷ xs) zero h = (x, refl, refl)
load_elem (x ∷ xs) (suc i) h = load_elem xs i (omega arith)

-- The rows from `i` on.
pub record Shows (p : Panel) (active : Bool) (left i : ℕ) (rows : List Row) : Type 0 where
  pub size : length rows ≡ left
  each :
      (k : ℕ)
      → k < left
      → (row : Row) × (get_elem? rows k ≡ some row) × IsRow p active (i + k + p.scroll_offset) row
  past : p.current_file < i + p.scroll_offset → reversed rows ≡ 0
  within :
      active ≡ true
      → p.current_file < p.file_count
      → i + p.scroll_offset ≤ p.current_file
      → p.current_file < i + left + p.scroll_offset
      → reversed rows ≡ 1

module _ (p : Panel) (active : Bool) where
  row_other : (j : ℕ) (row : Row) → IsRow p active j row → j ≢ p.current_file → is_reversed row ≡ 0
  row_other j row (entry f inside there e) other =
      let off : (j == p.current_file) ≡ false = ground arith in rw (e, is_reversed-show_file, off)
  row_other j row (empty behind e) other = rw e

  row_here :
      (j : ℕ) (row : Row)
      → IsRow p active j row
      → active ≡ true
      → j ≡ p.current_file
      → p.current_file < p.file_count
      → is_reversed row ≡ 1
  row_here j row (entry f inside there e) on here lt =
      let at : (j == p.current_file) ≡ true = ground arith in rw (e, is_reversed-show_file, at, on)
  row_here j row (empty behind e) on here lt = absurd (omega (arith, here))

  Shows-cons :
      (left i : ℕ) (row : Row) (rows : List Row)
      → IsRow p active (i + p.scroll_offset) row
      → Shows p active left (suc i) rows
      → Shows p active (suc left) i (row ∷ rows)
  unfolding reversed
  Shows-cons left i row rows first rest = record {
    size = ap suc rest.size;
    each = λ k h. each k h;
    past = λ before.
        omega
          (arith, row_other (i + p.scroll_offset) row first (omega arith), rest.past (omega arith));
    within = λ on lt above below. elim (ℕ_discrete (i + p.scroll_offset) p.current_file) [
      | yes here ↦ omega (
        arith,
        row_here (i + p.scroll_offset) row first on here lt,
        rest.past (omega (arith, here)),
      )
      | no later ↦ omega (
        arith,
        row_other (i + p.scroll_offset) row first later,
        rest.within on lt (omega arith) (omega arith),
      )
    ];
  }
    where
      each :
          (k : ℕ)
          → k < suc left
          → (r : Row) × (get_elem? (row ∷ rows) k ≡ some r)
            × IsRow p active (i + k + p.scroll_offset) r
      each zero h = let n : i + 0 ≡ i = omega arith in (row, refl, rw n first)
      each (suc k) h =
          let (r, at, shown) = rest.each k (omega arith) in
          let n : i + suc k ≡ suc i + k = omega arith in (r, at, rw n shown)

  pub rows_shown :
      (left i : ℕ)
      → length p.files ≡ max_files
      → p.file_count ≤ max_files
      → (rows : List Row) × (display_rows p active left i ≡ done rows) × Shows p active left i rows
  unfolding display_rows reversed
  rows_shown zero i sized counted = (
    [],
    refl,
    record {
      size = refl;
      each = λ k h. absurd (omega arith);
      past = λ _. refl;
      within = λ _ _ h k. absurd (omega arith);
    },
  )
  rows_shown (suc left) i sized counted =
      let (rows, run, ih) = rows_shown left (suc i) sized counted in
      elim (Bool-cases (ltb (i + p.scroll_offset) p.file_count)) [
        | inr behind ↦ (
          blank ∷ rows,
          rw run (rw behind),
          Shows-cons left i blank rows (empty (ground arith) refl) ih,
        )
        | inl inside ↦
            (let lt : i + p.scroll_offset < p.file_count = ground arith in
              let (f, there, elem) =
                load_elem p.files (i + p.scroll_offset) (omega (arith, sized, counted, lt)) in
              let row = show_file f ((i + p.scroll_offset == p.current_file) && active) in
              (
                row ∷ rows,
                rw run (rw inside (rw there)),
                Shows-cons left i row rows (entry f lt elem refl) ih,
              ))
      ]

-- A panel whose cursor is in place is shown without an access out of bounds, on as many rows as
-- the screen has; row `k` shows the entry at the scroll offset plus `k`, in reverse if the cursor
-- is there and the panel active, or is blank behind the last entry.
pub display_rows-IsRow :
    (height : ℕ) (p : Panel) (active : Bool) (k : ℕ)
    → IsPanel height p
    → k < height
    → (rows : List Row) × (display_rows p active height 0 ≡ done rows)
      × (length rows ≡ height)
      × (row : Row) × (get_elem? rows k ≡ some row)
      × IsRow p active (k + p.scroll_offset) row
display_rows-IsRow height p active k ok h =
    let (rows, run, s) = rows_shown p active height 0 ok.sized ok.counted in
    let (row, at, shown) = s.each k h in
    let n : 0 + k ≡ k = omega arith in
    (rows, run, s.size, row, at, subst (λ m. IsRow p active (m + p.scroll_offset) row) n shown)

-- In an active panel whose cursor is in place and which has an entry, exactly one row is in
-- reverse.
pub reversed-display_rows :
    (height : ℕ) (p : Panel)
    → IsPanel height p
    → 0 < p.file_count
    → (rows : List Row) × (display_rows p true height 0 ≡ done rows) × (reversed rows ≡ 1)
reversed-display_rows height p ok filled =
    let (rows, run, s) = rows_shown p true height 0 ok.sized ok.counted in
    (
      rows,
      run,
      s.within refl (omega (arith, ok.on_entry)) (omega (arith, ok.below_top))
          (omega (arith, ok.above_bottom)),
    )
