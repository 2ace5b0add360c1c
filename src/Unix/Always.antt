-- ===== src/Unix/Always.antt =====
-- What holds of a program whatever the answers to its calls are, as a predicate on the tree of
-- its calls, and what it says of every run.
use hw.Prelude.{
  ℕ, suc, ◌≡◌, ap, refl, true, false, ◌==◌, List, [], ◌∷◌, Option, none, some, inl, inr,
  Option-cases,
}
use hw.Unix.Calls.{Fd, Call, Answer, Io, pure, exit, fault, cut_off, call, ◌>>=◌, from_option}
use hw.Unix.Runs.{Kernel, Entry, run}

-- Every call that it can make is one of which P holds.
abbrev pub Always : {A : Type 0} → (Call → Type 0) → Io A → Type 0
Always P (pure a) = Unit {0}
Always P (exit n) = Unit {0}
Always P fault = Unit {0}
Always P cut_off = Unit {0}
Always P (call c next) = P c × ((a : Answer c) → Always P (next a))

abbrev pub AllCalls : (Call → Type 0) → List Entry → Type 0
AllCalls P [] = Unit {0}
AllCalls P ((c, a) ∷ calls) = P c × AllCalls P calls

pub run-AllCalls :
    {A : Type 0} (P : Call → Type 0) (k : Kernel) (n : ℕ) (m : Io A)
    → Always P m
    → AllCalls P (run k n m).1
unfolding run
run-AllCalls P k n (pure a) h = tt
run-AllCalls P k n (exit s) h = tt
run-AllCalls P k n fault h = tt
run-AllCalls P k n cut_off h = tt
run-AllCalls P k n (call c next) (h, hs) = (h, run-AllCalls P k (suc n) (next (k n c)) (hs (k n c)))

-- The list without its first member that is the descriptor: `none` where none is.
abbrev pub without : Fd → List ℕ → Option (List ℕ)
without none ds = none
without (some d) [] = none
without (some d) (e ∷ ds) = elim (d == e) [
  | true ↦ some ds
  | false ↦ elim (without (some d) ds) [ none ↦ none | some es ↦ some (e ∷ es) ]
]

-- With the ends `ds` of pipes open, it closes each of them, and both of each pipe that it makes,
-- before it ends in any way, and before it waits or another program takes its place. It closes
-- nothing else, and nothing twice.
abbrev pub Owes : {A : Type 0} → List ℕ → Io A → Type 0
Owes ds (pure a) = ds ≡ []
Owes ds (exit n) = ds ≡ []
Owes ds fault = ds ≡ []
Owes ds cut_off = ds ≡ []
Owes ds (call (Call.close fd) next) =
    (es : List ℕ) × (without fd ds ≡ some es) × ((a : Unit {0}) → Owes es (next a))
Owes ds (call Call.pipe next) =
    Owes ds (next none) × ((p : ℕ × ℕ) → Owes (p.0 ∷ p.1 ∷ ds) (next (some p)))
Owes ds (call Call.wait next) = (ds ≡ []) × ((a : Unit {0}) → Owes ds (next a))
Owes ds (call (Call.exec program args) next) = (ds ≡ []) × ((a : Unit {0}) → Owes ds (next a))
Owes ds (call c next) = (a : Answer c) → Owes ds (next a)

-- The ends of pipes that are open behind the calls, with `ds` before them: `none` where a close
-- is not of one of them, and where some is open at a wait or when a program is executed.
abbrev pub ends_open : List ℕ → List Entry → Option (List ℕ)
ends_open ds [] = some ds
ends_open ds ((Call.close fd, a) ∷ calls) = elim (without fd ds) [
  | none ↦ none
  | some es ↦ ends_open es calls
]
ends_open ds ((Call.pipe, some p) ∷ calls) = ends_open (p.0 ∷ p.1 ∷ ds) calls
ends_open ds ((Call.wait, a) ∷ calls) = elim ds [ [] ↦ ends_open [] calls | _ ∷ _ ↦ none ]
ends_open ds ((Call.exec program args, a) ∷ calls) = elim ds [
  | [] ↦ ends_open [] calls
  | _ ∷ _ ↦ none
]
ends_open ds ((_, a) ∷ calls) = ends_open ds calls

pub Owes-ends_open :
    {A : Type 0} (ds : List ℕ) (k : Kernel) (n : ℕ) (m : Io A)
    → Owes ds m
    → ends_open ds (run k n m).1 ≡ some []
unfolding run
Owes-ends_open ds k n (pure a) h = ap (λ t. some t) h
Owes-ends_open ds k n (exit s) h = ap (λ t. some t) h
Owes-ends_open ds k n fault h = ap (λ t. some t) h
Owes-ends_open ds k n cut_off h = ap (λ t. some t) h
Owes-ends_open ds k n (call (Call.close fd) next) (es, e, hs) =
    rw (ends_open, e) (Owes-ends_open es k (suc n) (next tt) (hs tt))
Owes-ends_open ds k n (call Call.pipe next) (h, hs) = elim (Option-cases (k n Call.pipe)) [
  | inl e ↦ rw e (Owes-ends_open ds k (suc n) (next none) h)
  | inr (p, e) ↦ rw e (Owes-ends_open (p.0 ∷ p.1 ∷ ds) k (suc n) (next (some p)) (hs p))
]
Owes-ends_open [] k n (call Call.wait next) (h, hs) = Owes-ends_open [] k (suc n) (next tt) (hs tt)
Owes-ends_open (d ∷ ds) k n (call Call.wait next) (h, hs) = cc
Owes-ends_open [] k n (call (Call.exec program args) next) (h, hs) =
    Owes-ends_open [] k (suc n) (next tt) (hs tt)
Owes-ends_open (d ∷ ds) k n (call (Call.exec program args) next) (h, hs) = cc
Owes-ends_open ds k n (call c next) h = Owes-ends_open ds k (suc n) (next (k n c)) (h (k n c))

pub Owes-from_option :
    {A B : Type 0} (o : Option A) (f : A → Io B)
    → ((a : A) → o ≡ some a → Owes [] (f a))
    → Owes [] (from_option o >>= f)
Owes-from_option none f h = refl
Owes-from_option (some a) f h = h a refl

pub Always-from_option :
    {A B : Type 0} (P : Call → Type 0) (o : Option A) (f : A → Io B)
    → ((a : A) → o ≡ some a → Always P (f a))
    → Always P (from_option o >>= f)
Always-from_option P none f h = tt
Always-from_option P (some a) f h = h a refl
