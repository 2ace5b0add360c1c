-- ===== src/Substring/Tests.antt =====
-- Runs of the search, and its theorems at concrete strings.
use hw.Prelude.{ℕ, ◌≡◌, ◌↔◌, refl, List, [], ◌∷◌, ◌++◌, none, some}
use hw.Stdio.{codes}
use hw.Prelude.Outcome.{done, fault}
use hw.Substring.{find_substring, main}
use hw.Substring.Laws.{IsFirst, find_substring-IsFirst}

abbrev newline : List ℕ
newline = 10 ∷ []

found_run :
    main (codes "ababc" ++ (newline ++ (codes "abc" ++ newline))) ≡ done (some (codes "abc"))
unfolding main
found_run = refl

-- The empty pattern is found in any string but the empty one.
empty_run : main (newline ++ newline) ≡ done none
unfolding main
empty_run = refl

unset_run : main (codes "ab") ≡ fault
unfolding main
unset_run = refl

find_substring-IsFirst_example :
    (find_substring (codes "xyabab") (codes "ab") ≡ some (codes "abab"))
    ↔ IsFirst (codes "ab") (codes "xyabab") (codes "abab")
find_substring-IsFirst_example = find_substring-IsFirst (codes "xyabab") (codes "ab") (codes "abab")
