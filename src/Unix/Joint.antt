-- ===== src/Unix/Joint.antt =====
-- Two programs that take turns in one system, a call in each turn, in every order of the turns.
use hw.Prelude.{ℕ, suc, ◌≡◌, refl, Bool, true, false, not, List, [], ◌∷◌, ◌++◌, Option, none, some}
use hw.Unix.Calls.{Call, Answer, Io, pure, call}
use hw.Unix.Runs.{Entry}

-- The answer to a call and the system's state behind it; `none` is a call that waits.
abbrev pub System : Type 0 → Type 0
System S = S → (c : Call) → Option (Answer c × S)

-- A task: what is left of its program, and the calls that it made, oldest first.
abbrev pub Task : Type 0
Task = Io ℕ × List Entry

module _ {S : Type 0} (system : System S) where
  unfoldable pub answered :
      (c : Call) → (Answer c → Io ℕ) → List Entry → S → Option (Answer c × S) → S × Task
  answered c next calls s none = (s, (call c next, calls))
  answered c next calls s (some (a, s')) = (s', (next a, calls ++ ((c, a) ∷ [])))

  -- A turn. An ended program does nothing in it.
  unfoldable pub turn : S → Task → S × Task
  unfolding answered
  turn s (call c next, calls) = answered c next calls s (system s c)
  turn s (m, calls) = (s, (m, calls))

  -- The turns in this order, `true` for the first program.
  unfoldable pub joint : List Bool → S × Task × Task → S × Task × Task
  joint [] w = w
  joint (true ∷ order) (s, p, q) = let (s', p') = turn s p in joint order (s', p', q)
  joint (false ∷ order) (s, p, q) = let (s', q') = turn s q in joint order (s', p, q')

-- In this many rounds, one after the other, each program has a turn.
pub data Rounds : ℕ → List Bool → Type 0 where
  any : (order : List Bool) → Rounds 0 order
  round :
      (n : ℕ) (first : Bool) (others order : List Bool)
      → Rounds n order
      → Rounds (suc n) (first ∷ (others ++ (not first ∷ order)))

-- A program that makes these calls, and then returns 0, as long as it gets these answers.
abbrev pub Follows : List Entry → Io ℕ → Type 0
Follows [] m = m ≡ pure 0
Follows ((c, a) ∷ script) m = (next : Answer c → Io ℕ) × (m ≡ call c next) × Follows script (next a)

-- A process that made its calls so far by a script, and has these left.
abbrev pub Along : List Entry → List Entry → Task → Type 0
Along done left (m, calls) = (calls ≡ done) × Follows left m

module _ {S : Type 0} (system : System S) where
  pub moves :
      (s s' : S) (c : Call) (a : Answer c) (done left : List Entry) (p : Task)
      → Along done ((c, a) ∷ left) p
      → system s c ≡ some (a, s')
      → ((turn system s p).0 ≡ s') × Along (done ++ ((c, a) ∷ [])) left (turn system s p).1
  unfolding turn answered
  moves s s' c a done left (m, calls) (same, (next, e, rest)) answer =
      rw (turn, e, answer, same) (refl, (refl, rest))

  pub stays :
      (s : S) (c : Call) (a : Answer c) (done left : List Entry) (p : Task)
      → Along done ((c, a) ∷ left) p
      → system s c ≡ none
      → turn system s p ≡ (s, p)
  unfolding turn answered
  stays s c a done left (m, calls) (same, (next, e, rest)) waits = rw (turn, e, waits)

  pub rests : (s : S) (done : List Entry) (p : Task) → Along done [] p → turn system s p ≡ (s, p)
  unfolding turn answered
  rests s done (m, calls) (same, e) = rw (turn, e)

  pub joint-append :
      (first order : List Bool) (w : S × Task × Task)
      → joint system (first ++ order) w ≡ joint system order (joint system first w)
  unfolding joint
  joint-append [] order w = refl
  joint-append (true ∷ first) order (s, p, q) =
      joint-append first order ((turn system s p).0, (turn system s p).1, q)
  joint-append (false ∷ first) order (s, p, q) =
      joint-append first order ((turn system s q).0, p, (turn system s q).1)
