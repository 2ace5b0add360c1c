-- ===== src/FileManager/Run.antt =====
-- Whole runs of the file manager: what every session satisfies, and that no run has undefined
-- behaviour.
use hw.Prelude.{
  ℕ, ◌-◌, ◌<◌, ◌≡◌, refl, ◌||◌, List, [], ◌∷◌, ◌++◌, none, some, Option, arith, ltb, ◌==◌,
  if◌then◌else◌, length, set, Bool-cases, inl, inr, length-replicate,
}
use hw.Prelude.Outcome.{done, ◌>>=◌}
use hw.FileManager.{
  Panel, Kernel, Session, load, max_files, list_files, Key, handle_navigation, navigate, press,
  display_panel, draw, Shown, Frame, State, exited, waiting, main_loop, main, empty_file,
  empty_panel, set_up, min_width, min_height,
}
use hw.FileManager.Panels.{
  IsPanel, IsSmall, IsListed, list_files-IsListed, getcwd_short, handle_navigation-IsPanel,
}
use hw.FileManager.Screen.{rows_shown}

-- A session on a screen of `height` rows: two panels with their cursors in place, one of them
-- active, and a working directory that `getcwd` can store.
pub record IsSession (height : ℕ) (s : Session) : Type 0 where
  pub left : Panel
  pub right : Panel
  pub two : s.panels ≡ left ∷ right ∷ []
  pub left_ok : IsPanel height left
  pub right_ok : IsPanel height right
  pub active : s.active_panel < 2
  pub dir_fits : length s.working_dir < 1024

-- What a run comes to: an exit, or a session in which both cursors are in place.
abbrev pub Ends : ℕ → List Frame × State → Type 0
Ends height (frames, exited n) = Unit {0}
Ends height (frames, waiting s) = IsSession height s

module _ (height : ℕ) where
  display_panel_returns :
      (s : Session) (i : ℕ) (p : Panel)
      → load s.panels i ≡ done p
      → IsPanel height p
      → (shown : Shown) × (display_panel s i height ≡ done shown)
  unfolding display_panel
  display_panel_returns s i p there ok =
      let (rows, run, _) = rows_shown p (i == s.active_panel) height 0 ok.sized ok.counted in
      (record { bold = i == s.active_panel; rows = rows }, rw there (rw run refl))

  draw_returns : (s : Session) → IsSession height s → (frame : Frame) × (draw s height ≡ done frame)
  unfolding draw
  draw_returns s ok =
      let (l, e) = display_panel_returns s 0 ok.left (rw ok.two) ok.left_ok in
      let (r, e') = display_panel_returns s 1 ok.right (rw ok.two) ok.right_ok in
      (
        record { bold_title = if s.active_panel == 0 then 2 else 1; left = l; right = r },
        rw e (rw e' refl),
      )

module _ (kernel : Kernel) (height : ℕ) where
  abbrev moved : Session → Panel → List ℕ → ℕ → Session
  moved s q dir t = record s {
    panels = set s.panels s.active_panel q;
    working_dir = dir;
    reads = t;
  }

  navigate-moved :
      (s : Session) (key : Key) (p q : Panel) (dir : List ℕ) (t : ℕ)
      → load s.panels s.active_panel ≡ done p
      → handle_navigation kernel s.reads s.working_dir p key height ≡ done (q, dir, t)
      → navigate kernel s key height ≡ done (moved s q dir t)
  unfolding navigate
  navigate-moved s key p q dir t there run = rw there (rw run refl)

  module _ (small : IsSmall kernel) (pos : 0 < height) where
    navigate-IsSession :
        (s : Session) (key : Key)
        → IsSession height s
        → (s' : Session) × (navigate kernel s key height ≡ done s') × IsSession height s'
    navigate-IsSession s key ok = elim (Bool-cases (s.active_panel == 0)) [
      | inl first ↦
          (let at : s.active_panel ≡ 0 = ground arith in
            let (q, dir, t, run, q_ok, fits) =
              handle_navigation-IsPanel kernel small height s.reads s.working_dir ok.left key pos
                ok.left_ok ok.dir_fits in
            (
              moved s q dir t,
              navigate-moved s key ok.left q dir t (rw (at, ok.two)) run,
              record {
                left = q;
                right = ok.right;
                two = rw (at, ok.two);
                left_ok = q_ok;
                right_ok = ok.right_ok;
                active = ok.active;
                dir_fits = fits;
              },
            ))
      | inr second ↦
          (let at : s.active_panel ≡ 1 = ground (arith, ok.active) in
            let (q, dir, t, run, q_ok, fits) =
              handle_navigation-IsPanel kernel small height s.reads s.working_dir ok.right key pos
                ok.right_ok ok.dir_fits in
            (
              moved s q dir t,
              navigate-moved s key ok.right q dir t (rw (at, ok.two)) run,
              record {
                left = ok.left;
                right = q;
                two = rw (at, ok.two);
                left_ok = ok.left_ok;
                right_ok = q_ok;
                active = ok.active;
                dir_fits = fits;
              },
            ))
    ]

    -- What a key leaves: the end of the program, or a session with both cursors in place.
    abbrev Kept : Option Session → Type 0
    Kept none = Unit {0}
    Kept (some s) = IsSession height s

    navigated :
        (s : Session) (key : Key)
        → IsSession height s
        → press kernel height s key ≡ (navigate kernel s key height >>= λ t. done (some t))
        → (next : Option Session) × (press kernel height s key ≡ done next) × Kept next
    navigated s key ok e =
        let (s', run, ok') = navigate-IsSession s key ok in (some s', rw (e, run), ok')

    press_keeps :
        (s : Session) (key : Key)
        → IsSession height s
        → (next : Option Session) × (press kernel height s key ≡ done next) × Kept next
    unfolding press
    press_keeps s Key.up ok = navigated s Key.up ok refl
    press_keeps s Key.down ok = navigated s Key.down ok refl
    press_keeps s Key.enter ok = navigated s Key.enter ok refl
    press_keeps s Key.tab ok = (
      some (record s { active_panel = 1 - s.active_panel }),
      refl,
      record {
        left = ok.left;
        right = ok.right;
        two = ok.two;
        left_ok = ok.left_ok;
        right_ok = ok.right_ok;
        active = omega arith;
        dir_fits = ok.dir_fits;
      },
    )
    press_keeps s Key.quit ok = (none, refl, tt)
    press_keeps s Key.other ok = (some s, refl, ok)

    main_loop_returns :
        (keys : List Key) (s : Session) (frames : List Frame)
        → IsSession height s
        → (end : List Frame × State) × (main_loop kernel height keys s frames ≡ done end)
          × Ends height end
    unfolding main_loop
    main_loop_returns [] s frames ok =
        let (frame, drawn) = draw_returns height s ok in
        ((frames ++ (frame ∷ []), waiting s), rw drawn refl, ok)
    main_loop_returns (key ∷ keys) s frames ok =
        let (frame, drawn) = draw_returns height s ok in
        let (next, run, kept) = press_keeps s key ok in
        go frame next drawn run kept (λ t. main_loop_returns keys t (frames ++ (frame ∷ [])))
      where
        go :
            (frame : Frame) (next : Option Session)
            → draw s height ≡ done frame
            → press kernel height s key ≡ done next
            → Kept next
            → ((t : Session)
                → IsSession height t
                → (end : List Frame × State) × (main_loop kernel height keys t
                      (frames ++ (frame ∷ []))
                    ≡ done end)
                  × Ends height end)
            → (end : List Frame × State) × (main_loop kernel height (key ∷ keys) s frames
                ≡ done end)
              × Ends height end
        go frame none drawn run kept later =
            ((frames ++ (frame ∷ []), exited 0), rw drawn (rw run refl), tt)
        go frame (some s') drawn run kept later =
            let (end, rest, sound) = later s' kept in (end, rw drawn (rw run rest), sound)

empty-IsListed : (path : List ℕ) → IsListed (record empty_panel { current_path = path })
unfolding empty_panel
empty-IsListed path = record {
  sized = length-replicate max_files empty_file;
  counted = omega arith;
}

empty_cursor : (empty_panel.current_file ≡ 0) × (empty_panel.scroll_offset ≡ 0)
unfolding empty_panel
empty_cursor = (refl, refl)

module _ (kernel : Kernel) (small : IsSmall kernel) where
  first_listing :
      (height t : ℕ) (dir : List ℕ)
      → 0 < height
      → (p : Panel) × (list_files kernel t (record empty_panel { current_path = dir }) dir ≡ done p)
        × IsPanel height p
  first_listing height t dir pos =
      let (p, run, listed, cursor, scroll) =
        list_files-IsListed kernel small t (record empty_panel { current_path = dir }) dir
          (empty-IsListed dir) in
      (
        p,
        run,
        record {
          sized = listed.sized;
          counted = listed.counted;
          on_entry = omega (arith, cursor, empty_cursor.0);
          below_top = omega (arith, cursor, scroll, empty_cursor.0, empty_cursor.1);
          above_bottom = omega (arith, cursor, empty_cursor.0);
        },
      )

  set_up-IsSession :
      (height : ℕ) (dir : List ℕ)
      → 0 < height
      → length dir < 1024
      → (s : Session) × (set_up kernel dir ≡ done s) × IsSession height s
  unfolding set_up
  set_up-IsSession height dir pos fits =
      let (p, run, ok) = first_listing height 0 dir pos in
      let (q, run', ok') = first_listing height 1 dir pos in
      (
        record { panels = p ∷ q ∷ []; active_panel = 0; working_dir = dir; reads = 2 },
        rw (getcwd_short kernel small 0 dir fits) (rw run (rw run' refl)),
        record {
          left = p;
          right = q;
          two = refl;
          left_ok = ok;
          right_ok = ok';
          active = omega arith;
          dir_fits = fits;
        },
      )

  -- Where no directory has more than MAX_FILES entries, no working directory has a path of 1024
  -- bytes or more, and `getcwd` can tell each of them, the program has no undefined behaviour, on
  -- any screen and for any keys: it has exited, or it waits for a key with both cursors on the
  -- screen, each on an entry, or at the top where its panel lists no entry.
  pub main_returns :
      (cols lines : ℕ) (dir : List ℕ) (keys : List Key)
      → length dir < 1024
      → (end : List Frame × State) × (main kernel cols lines dir keys ≡ done end)
        × Ends (lines - 3) end
  unfolding main
  main_returns cols lines dir keys fits =
      elim (Bool-cases (ltb cols min_width || ltb lines min_height)) [
        | inl small_screen ↦ (([], exited 1), rw small_screen, tt)
        | inr enough ↦
            (let pos : 0 < lines - 3 = ground arith in
              let (s, run, ok) = set_up-IsSession (lines - 3) dir pos fits in
              let (end, later, sound) =
                main_loop_returns kernel (lines - 3) small pos keys s [] ok in
              (end, rw enough (rw run later), sound))
      ]
