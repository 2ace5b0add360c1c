-- ===== src/Mailbox/Texts.antt =====
-- The texts of the two messages of each pair, and the arrays that carry them.
use hw.Prelude.{◌≡◌, refl, [], ◌∷◌, ◌++◌, some, arith}
use hw.Stdio.{codes}
use hw.Unix.Buffers.{Chars, unset, fill, c_text, strcpy, c_text-fill}
use hw.Mailbox.{into}

-- The arrays that the server sends, and the client where it received that.
abbrev pub greeting : Chars
greeting = fill (unset 1024) (codes "Hi!" ++ 0 ∷ [])

abbrev pub answer : Chars
answer = fill (into greeting (unset 1024)) (codes "Hello!" ++ 0 ∷ [])

pub written : strcpy (unset 1024) (codes "Hi!") ≡ some greeting
unfolding strcpy unset
written = refl

pub greeting_text : c_text greeting ≡ some (codes "Hi!")
greeting_text = c_text-fill (unset 1024) (codes "Hi!") [] (omega arith)

pub received : c_text (into greeting (unset 1024)) ≡ some (codes "Hi!")
unfolding c_text fill unset
received = refl

pub answered_with : strcpy (into greeting (unset 1024)) (codes "Hello!") ≡ some answer
unfolding strcpy fill unset
answered_with = refl

pub answer_text : c_text answer ≡ some (codes "Hello!")
answer_text = c_text-fill (into greeting (unset 1024)) (codes "Hello!") [] (omega arith)

pub got_answer : c_text (into answer greeting) ≡ some (codes "Hello!")
unfolding c_text fill unset
got_answer = refl
