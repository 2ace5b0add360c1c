-- ===== src/FileManager/Tests.antt =====
-- A small file system, runs of the file manager on it, and the theorems there.
use hw.Prelude.{
  inl, ℕ, ◌<◌, ◌≡◌, ◌↔◌, refl, true, false, List, [], ◌∷◌, none, some, arith, length, replicate,
  length-replicate, ltb, if◌then◌else◌,
}
use hw.Stdio.{codes}
use hw.Prelude.Outcome.{done, fault, lift}
use hw.FileManager.{
  Panel, Kernel, Key, max_files, empty_file, list_files, handle_navigation, fill, set_up,
  empty_panel, main_loop, draw, display_panel, press, navigate, display_rows, Frame, State, exited,
  main,
}
use hw.FileManager.Listing.{list_files-fault}
use hw.FileManager.Panels.{IsPanel, IsSmall, handle_navigation-IsPanel}
use hw.FileManager.Run.{Ends, main_returns}

abbrev names : List (List ℕ)
names = codes ".." ∷ codes "src" ∷ codes "notes" ∷ []

-- Every directory has the three names; all but the last are directories.
abbrev disk : Kernel
disk = record {
  read_dir = λ t path. some names;
  stat = λ t path. if ltb (length path) 7 then some (4096, true) else some (12, false);
  chdir = λ t dir to. some (codes "/");
  known = λ t dir. true;
}

-- A directory of 1025 names.
abbrev crowded : Kernel
crowded = record {
  read_dir = λ t path. some (replicate 1025 (codes "x"));
  stat = λ t path. none;
  chdir = λ t dir to. none;
  known = λ t dir. true;
}

abbrev panel : Panel
panel = record {
  files = replicate max_files empty_file;
  file_count = 3;
  current_file = 2;
  scroll_offset = 1;
  current_path = codes "/";
}

run_rows :
    lift {B = ℕ × ℕ × ℕ}
      (λ (p : Panel). (p.file_count, p.current_file, p.scroll_offset))
      (list_files disk 0 panel (codes "/"))
    ≡ done (3, 2, 1)
unfolding list_files fill
run_rows = refl

small_screen : main disk 80 24 (codes "/") (Key.down ∷ []) ≡ done ([], exited 1)
unfolding main
small_screen = refl

quit_run :
    lift {B = ℕ × State}
      (λ (e : List Frame × State). (length e.0, e.1))
      (main disk 120 24 (codes "/") (Key.down ∷ Key.quit ∷ Key.up ∷ []))
    ≡ done (2, exited 0)
unfolding main set_up list_files fill empty_panel main_loop draw display_panel display_rows press
    navigate handle_navigation
quit_run = refl

disk-IsSmall : IsSmall disk
disk-IsSmall = record {
  few = λ t path ns e. ground arith;
  short = λ t dir to d e. ground arith;
  found = λ t dir. refl;
}

panel-IsPanel : IsPanel 2 panel
panel-IsPanel = record {
  sized = length-replicate max_files empty_file;
  counted = omega arith;
  on_entry = inl (omega arith);
  below_top = omega arith;
  above_bottom = omega arith;
}

list_files-fault_example :
    (list_files crowded 0 panel (codes "/") ≡ fault)
    ↔ (max_files < length (replicate 1025 (codes "x")))
list_files-fault_example =
    list_files-fault crowded 0 (codes "/") panel (replicate 1025 (codes "x"))
      (length-replicate max_files empty_file) refl

handle_navigation-IsPanel_example :
    (q : Panel) × (dir' : List ℕ) × (t' : ℕ) × (handle_navigation disk 2 (codes "/") panel Key.up 2
      ≡ done (q, dir', t'))
    × IsPanel 2 q
    × (length dir' < 1024)
handle_navigation-IsPanel_example =
    handle_navigation-IsPanel disk disk-IsSmall 2 2 (codes "/") panel Key.up (omega arith)
      panel-IsPanel (omega arith)

main_returns_example :
    (end : List Frame × State) × (main disk 120 24 (codes "/") (Key.down ∷ Key.enter ∷ Key.tab ∷ [])
      ≡ done end)
    × Ends 21 end
main_returns_example =
    main_returns disk disk-IsSmall 120 24 (codes "/") (Key.down ∷ Key.enter ∷ Key.tab ∷ [])
      (omega arith)
