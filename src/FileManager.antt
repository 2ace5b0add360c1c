-- ===== src/FileManager.antt =====
-- file system/fm/file_manager.c: two panels that list directories, their cursors, and the loop
-- that reads keys. The terminal and the file system are arguments: the size of the screen, the
-- keys that `getch` returns, and what the kernel answers.
pub mod Listing
pub mod Panels
pub mod Screen
pub mod Run
mod Tests
use hw.Prelude.{
  ℕ, zero, suc, ◌+◌, ◌-◌, Bool, true, false, ◌||◌, ◌&&◌, List, [], ◌∷◌, ◌++◌, Option, none, some,
  ltb, leb, ◌==◌, if◌then◌else◌, length, get_elem?, set, take, replicate,
}
use hw.Prelude.Outcome.{Outcome, done, fault, check, ◌>>=◌, ◌>>◌}
use hw.Stdio.{same_string}

abbrev pub max_files : ℕ
max_files = 1024

abbrev pub min_width : ℕ
min_width = 107

abbrev pub min_height : ℕ
min_height = 24

pub record File : Type 0 where
  pub name : List ℕ
  pub size : ℕ
  pub is_dir : Bool

pub record Panel : Type 0 where
  pub files : List File
  pub file_count : ℕ
  pub current_file : ℕ
  pub scroll_offset : ℕ
  pub current_path : List ℕ

-- What the kernel answers. Answers change with time, so each has the number of directories read
-- before: the names that `opendir` and `readdir` give, `none` where `opendir` fails; the size and
-- whether it is a directory that `stat` gives; and the working directory after `chdir` in the
-- working directory given, `none` where that fails; and whether `getcwd` can tell the path of the
-- working directory, which may be gone or not readable.
pub record Kernel : Type 0 where
  pub read_dir : ℕ → List ℕ → Option (List (List ℕ))
  pub stat : ℕ → List ℕ → Option (ℕ × Bool)
  pub chdir : ℕ → List ℕ → List ℕ → Option (List ℕ)
  pub known : ℕ → List ℕ → Bool

-- The globals of the program, with the working directory of the process and the number of
-- directories read so far.
pub record Session : Type 0 where
  pub panels : List Panel
  pub active_panel : ℕ
  pub working_dir : List ℕ
  pub reads : ℕ

abbrev pub load {ℓ} : {A : Type ℓ} → List A → ℕ → Outcome A
load xs i = elim (get_elem? xs i) [ none ↦ fault | some a ↦ done a ]

-- `snprintf(…, size, "%s", s)`: what fits, with room for the NUL.
abbrev pub snprintf : ℕ → List ℕ → List ℕ
snprintf size s = take (size - 1) s

-- The entry that `list_files` makes of a name.
unfoldable pub file_of : Kernel → ℕ → List ℕ → List ℕ → File
file_of kernel t path d_name = elim (kernel.stat t (snprintf 1024 (path ++ (b'/' ∷ d_name)))) [
  | none ↦ record { name = snprintf 256 d_name; size = 0; is_dir = false }
  | some (size, is_dir) ↦ record { name = snprintf 256 d_name; size = size; is_dir = is_dir }
]

-- The loop over `readdir`. There is no test of the index: past the array it is a store out of
-- bounds.
unfoldable pub fill : Kernel → ℕ → List ℕ → List (List ℕ) → Panel → Outcome Panel
fill kernel t path [] p = done p
fill kernel t path (d_name ∷ names) p = do
  check (ltb p.file_count (length p.files))
  fill kernel t path names (record p {
    files = set p.files p.file_count (file_of kernel t path d_name);
    file_count = suc p.file_count;
  })

unfoldable pub list_files : Kernel → ℕ → Panel → List ℕ → Outcome Panel
list_files kernel t p path = elim (kernel.read_dir t path) [
  | none ↦ done p
  | some names ↦ fill kernel t path names (record p { file_count = 0 })
]

-- `getcwd` into the 1024 bytes of `current_path`; what they hold after it failed, for a path too
-- long for them or one that cannot be told, is not defined, and is used all the same.
abbrev pub getcwd : Kernel → ℕ → List ℕ → Outcome (List ℕ)
getcwd kernel t dir = if kernel.known t dir && ltb (length dir) 1024 then done dir else fault

-- The keys that the program tells apart.
pub data Key : Type 0 where
  up : Key
  down : Key
  enter : Key
  tab : Key
  quit : Key
  other : Key

abbrev pub move_up : Panel → Panel
move_up p =
    if ltb 0 p.current_file
    then record p {
      current_file = p.current_file - 1;
      scroll_offset =
          if ltb (p.current_file - 1) p.scroll_offset then p.scroll_offset - 1 else p.scroll_offset;
    }
    else p

abbrev pub move_down : ℕ → Panel → Panel
move_down height p =
    if ltb (suc p.current_file) p.file_count
    then record p {
      current_file = suc p.current_file;
      scroll_offset =
          if leb (p.scroll_offset + height) (suc p.current_file)
          then suc p.scroll_offset
          else p.scroll_offset;
    }
    else p

abbrev pub parent : List ℕ
parent = b'.' ∷ b'.' ∷ []

-- A `chdir` that fails leaves the process where it is.
abbrev pub went : List ℕ → Option (List ℕ) → List ℕ
went dir none = dir
went dir (some d) = d

-- The case '\n': the panel, the working directory and the directories read.
unfoldable pub open_entry : Kernel → ℕ → List ℕ → Panel → Outcome (Panel × List ℕ × ℕ)
open_entry kernel t dir p = do
  file ← load p.files p.current_file
  elim file.is_dir [
    | false ↦ done (p, dir, t)
    | true ↦ (do
      let to = if same_string file.name parent then parent else file.name
      let dir' = went dir (kernel.chdir t dir to)
      path ← getcwd kernel t dir'
      p' ← list_files kernel t (record p { current_path = path }) path
      done (record p' { current_file = 0; scroll_offset = 0 }, dir', suc t))
  ]

unfoldable pub handle_navigation :
    Kernel → ℕ → List ℕ → Panel → Key → ℕ → Outcome (Panel × List ℕ × ℕ)
handle_navigation kernel t dir p Key.up height = done (move_up p, dir, t)
handle_navigation kernel t dir p Key.down height = done (move_down height p, dir, t)
handle_navigation kernel t dir p Key.enter height = open_entry kernel t dir p
handle_navigation kernel t dir p Key.tab height = done (p, dir, t)
handle_navigation kernel t dir p Key.quit height = done (p, dir, t)
handle_navigation kernel t dir p Key.other height = done (p, dir, t)

-- A line of a panel: a blank, or a name with <DIR> (`none`) or a size, in reverse or not.
pub data Row : Type 0 where
  blank : Row
  line : (name : List ℕ) (size : Option ℕ) (reverse : Bool) → Row

unfoldable pub show_file : File → Bool → Row
show_file f reverse = line f.name (if f.is_dir then none else some f.size) reverse

-- The loop of `display_panel` from row `i` on, with `left` rows to go.
unfoldable pub display_rows : Panel → Bool → ℕ → ℕ → Outcome (List Row)
display_rows p active zero i = done []
display_rows p active (suc left) i = do
  rows ← display_rows p active left (suc i)
  elim (ltb (i + p.scroll_offset) p.file_count) [
    | true ↦ (do
      f ← load p.files (i + p.scroll_offset)
      done (show_file f ((i + p.scroll_offset == p.current_file) && active) ∷ rows))
    | false ↦ done (blank ∷ rows)
  ]

-- What a panel shows: whether its heading is bold, and its rows.
pub record Shown : Type 0 where
  pub bold : Bool
  pub rows : List Row

unfoldable pub display_panel : Session → ℕ → ℕ → Outcome Shown
display_panel s panel_index height = do
  p ← load s.panels panel_index
  rows ← display_rows p (panel_index == s.active_panel) height 0
  done (record { bold = panel_index == s.active_panel; rows = rows })

-- One frame: which title is bold, and both panels.
pub record Frame : Type 0 where
  pub bold_title : ℕ
  pub left : Shown
  pub right : Shown

unfoldable pub draw : Session → ℕ → Outcome Frame
draw s height = do
  left ← display_panel s 0 height
  right ← display_panel s 1 height
  done (record { bold_title = if s.active_panel == 0 then 2 else 1; left = left; right = right })

unfoldable pub navigate : Kernel → Session → Key → ℕ → Outcome Session
navigate kernel s key height = do
  p ← load s.panels s.active_panel
  (p', dir, t) ← handle_navigation kernel s.reads s.working_dir p key height
  done (record s { panels = set s.panels s.active_panel p'; working_dir = dir; reads = t })

-- The `switch` of `main`: the session after the key, or `none` after `exit(0)`.
unfoldable pub press : Kernel → ℕ → Session → Key → Outcome (Option Session)
press kernel height s Key.up = do s' ← navigate kernel s Key.up height; done (some s')
press kernel height s Key.down = do s' ← navigate kernel s Key.down height; done (some s')
press kernel height s Key.enter = do s' ← navigate kernel s Key.enter height; done (some s')
press kernel height s Key.tab = done (some (record s { active_panel = 1 - s.active_panel }))
press kernel height s Key.quit = done none
press kernel height s Key.other = done (some s)

-- How a run stands: it ended with an exit status, or waits in `getch`.
pub data State : Type 0 where
  exited : ℕ → State
  waiting : Session → State

-- The loop of `main` on the keys pressed, with the frames drawn.
unfoldable pub main_loop :
    Kernel → ℕ → List Key → Session → List Frame → Outcome (List Frame × State)
main_loop kernel height [] s frames = do
  frame ← draw s height
  done (frames ++ (frame ∷ []), waiting s)
main_loop kernel height (key ∷ keys) s frames = do
  frame ← draw s height
  next ← press kernel height s key
  elim next [
    | none ↦ done (frames ++ (frame ∷ []), exited 0)
    | some s' ↦ main_loop kernel height keys s' (frames ++ (frame ∷ []))
  ]

abbrev pub empty_file : File
empty_file = record { name = []; size = 0; is_dir = false }

-- The globals before `main`: static storage is zero.
unfoldable pub empty_panel : Panel
empty_panel = record {
  files = replicate max_files empty_file;
  file_count = 0;
  current_file = 0;
  scroll_offset = 0;
  current_path = [];
}

unfoldable pub set_up : Kernel → List ℕ → Outcome Session
set_up kernel dir = do
  path ← getcwd kernel 0 dir
  path' ← getcwd kernel 0 dir
  first ← list_files kernel 0 (record empty_panel { current_path = path }) path
  second ← list_files kernel 1 (record empty_panel { current_path = path' }) path'
  done (record { panels = first ∷ second ∷ []; active_panel = 0; working_dir = dir; reads = 2 })

-- `main` on a screen of `cols` columns and `lines` lines, `check_terminal_size` first.
unfoldable pub main : Kernel → (cols lines : ℕ) → List ℕ → List Key → Outcome (List Frame × State)
main kernel cols lines dir keys =
    if ltb cols min_width || ltb lines min_height
    then done ([], exited 1)
    else (do s ← set_up kernel dir; main_loop kernel (lines - 3) keys s [])
