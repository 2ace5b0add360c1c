-- ===== src/Unix/Runs.antt =====
-- Running a program against a kernel: how it ends, and the calls it made with their answers.
use hw.Prelude.{ℕ, suc, List, [], ◌∷◌, none, some, take}
use hw.Unix.Calls.{Call, Answer, Io, pure, exit, fault, cut_off, call}

-- The answer to each call, which may change with the number of calls made before.
abbrev pub Kernel : Type 0
Kernel = ℕ → (c : Call) → Answer c

pub data End (A : Type 0) : Type 0 where
  returned : A → End A
  exited : ℕ → End A
  undefined : End A
  running : End A

-- A call with its answer.
abbrev pub Entry : Type 0
Entry = (c : Call) × Answer c

unfoldable pub run : {A : Type 0} → Kernel → ℕ → Io A → End A × List Entry
run k n (pure a) = (returned a, [])
run k n (exit status) = (exited status, [])
run k n fault = (undefined, [])
run k n cut_off = (running, [])
run k n (call c next) = let (end, calls) = run k (suc n) (next (k n c)) in (end, (c, k n c) ∷ calls)

-- What a program sent, and the texts that it printed, oldest first.
abbrev pub sent : List Entry → List (List ℕ)
sent [] = []
sent ((Call.write fd bytes, a) ∷ calls) = bytes ∷ sent calls
sent ((Call.sendto fd bytes to, a) ∷ calls) = bytes ∷ sent calls
sent ((_, a) ∷ calls) = sent calls

abbrev pub said : List Entry → List (List ℕ)
said [] = []
said ((Call.say format text, a) ∷ calls) = text ∷ said calls
said ((_, a) ∷ calls) = said calls

-- The bytes that arrived, as far as the program asked for them; an end of file or a failure is
-- none.
abbrev pub chunk : ℕ → List ℕ → List (List ℕ) → List (List ℕ)
chunk size bytes rest = elim (take size bytes) [ [] ↦ rest | c ∷ cs ↦ (c ∷ cs) ∷ rest ]

abbrev pub received : List Entry → List (List ℕ)
received [] = []
received ((Call.read fd size, none) ∷ calls) = received calls
received ((Call.read fd size, some bytes) ∷ calls) = chunk size bytes (received calls)
received ((Call.recvfrom fd size, none) ∷ calls) = received calls
received ((Call.recvfrom fd size, some (bytes, from)) ∷ calls) = chunk size bytes (received calls)
received ((_, a) ∷ calls) = received calls

-- How a run ends, what it sent and what it printed.
abbrev pub outcome : {A : Type 0} → End A × List Entry → End A × List (List ℕ) × List (List ℕ)
outcome (end, calls) = (end, sent calls, said calls)
