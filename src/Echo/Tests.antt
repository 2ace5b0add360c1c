-- ===== src/Echo/Tests.antt =====
-- The programs of sockets/hw2 at concrete kernels.
use hw.Prelude.{ℕ, ◌≡◌, refl, List, [], ◌==◌, if◌then◌else◌, ◌∷◌, some, map, arith}
use hw.Stdio.{codes}
use hw.Unix.Buffers.{c_text, fill, bytes_of}
use hw.Unix.Runs.{Kernel, returned, run, outcome}
use hw.Unix.Sample.{delivering}
use hw.Echo.{handle_client}
use hw.Echo.Loop.{Message, wire, handle_client_echoes}
use hw.Echo.Multi.{serve_both}
use hw.Echo.Multi.Sockets.{Settled, serve_both-Settled, settled}

abbrev messages : List Message
messages = (codes "one", []) ∷ (codes "two", codes "more") ∷ []

-- A kernel whose reads bring two messages and then the end of the connection.
abbrev at_call : ℕ → List ℕ
at_call n =
    if n == 0
    then wire (codes "one", [])
    else if n == 3
    then wire (codes "two", codes "more")
    else []

abbrev two_messages : Kernel
two_messages n = delivering (at_call n) n

handle_client_echoes_example :
    outcome (run two_messages 0 (handle_client 3 (some 4)))
    ≡ (returned tt, map wire messages, codes "one" ∷ codes "two" ∷ [])
handle_client_echoes_example =
    handle_client_echoes two_messages (some 4) messages 3
      (refl, omega arith, omega arith, (refl, omega arith, omega arith, refl)) (omega arith)

serve_both-Settled_example :
    Settled (run (delivering (wire (codes "hi", []))) 0 (serve_both 2 (some 3) (some 5)))
serve_both-Settled_example =
    serve_both-Settled (delivering (wire (codes "hi", []))) 2 (some 3) (some 5)

-- Both accepted sockets stay open.
answered :
    settled (run (delivering (wire (codes "hi", []))) 0 (serve_both 2 (some 3) (some 5))).1
    ≡ 4 ∷ 4 ∷ []
unfolding run serve_both c_text fill bytes_of
answered = refl
