-- ===== src/Echo/Loop.antt =====
-- What the thread of sockets/hw2/pserver/server.c returns to its client, over a whole connection.
use Prim.Native.String.{String}
use hw.Prelude.{
  append_nil, ℕ, zero, suc, ◌≤◌, ◌<◌, ◌≡◌, refl, ap, ◌∙◌, true, List, [], ◌∷◌, ◌++◌, none, some,
  arith, length, take, map, take_all,
}
use hw.Unix.Calls.{Fd, Call, Io, ◌>>=◌, ◌>>◌, perform}
use hw.Unix.Buffers.{
  Chars, unset, fill, c_text, bytes_of, IsText, c_text-fill, c_text-fill-unset, bytes_of-fill,
}
use hw.Unix.Runs.{Kernel, End, returned, undefined, run, outcome}
use hw.Unix.{read_into}
use hw.Echo.{
  serve_taken, serve_numbered, int_bytes, echo_loop, handle_client, some_came, buffer_size,
}

-- A message: a text, and what follows the text's NUL.
abbrev pub Message : Type 0
Message = List ℕ × List ℕ

abbrev pub wire : Message → List ℕ
wire (t, rest) = t ++ (0 ∷ rest)

-- From its n-th call on, a thread that makes three calls for each message reads these messages
-- and then the end of the connection.
abbrev pub Sends : Kernel → Fd → ℕ → List Message → Type 0
Sends k sock n [] = k n (Call.read sock 1024) ≡ some []
Sends k sock n (m ∷ ms) =
    (k n (Call.read sock 1024) ≡ some (wire m))
    × IsText m.0
    × (length (wire m) ≤ 1024)
    × Sends k sock (suc (suc (suc n))) ms

wire-some : (t rest : List ℕ) → some_came (some (length (wire (t, rest)))) ≡ true
wire-some [] rest = ground arith
wire-some (c ∷ t) rest = ground arith

-- The rest of a connection, from some call on, and what follows it.
abbrev connection : ℕ → String → Fd → Chars → Io (Unit {0}) → Io (Unit {0})
connection rounds format sock b next = echo_loop rounds format sock b >>= λ _. next

module _ (k : Kernel) (sock : Fd) (format : String) (next : Io (Unit {0}))
    (end : End (Unit {0})) where
  one_message :
      (rounds n : ℕ) (b : Chars) (bytes t w : List ℕ) (ws ts : List (List ℕ))
      → k n (Call.read sock 1024) ≡ some bytes
      → some_came (some (length (take 1024 bytes))) ≡ true
      → c_text (fill b (take 1024 bytes)) ≡ some t
      → bytes_of (fill b (take 1024 bytes)) (length (take 1024 bytes)) ≡ some w
      → outcome (
          run k (suc (suc (suc n))) (connection rounds format sock (fill b (take 1024 bytes)) next))
        ≡ (end, ws, ts)
      → outcome (run k n (connection (suc rounds) format sock b next)) ≡ (end, w ∷ ws, t ∷ ts)
  unfolding run echo_loop read_into
  one_message rounds n b bytes t w ws ts came more held stored later =
      rw (run, came, more)
        (rw held (
          rw stored (
            ap (λ (r : End (Unit {0}) × List (List ℕ) × List (List ℕ)). (r.0, w ∷ r.1, t ∷ r.2))
              later)))

  -- What follows comes to the same from any call on.
  module _ (ws ts : List (List ℕ)) (behind : (n : ℕ) → outcome (run k n next) ≡ (end, ws, ts)) where
    echoes :
        (ms : List Message) (rounds n : ℕ) (b : Chars)
        → Sends k sock n ms
        → length ms < rounds
        → outcome (run k n (connection rounds format sock b next))
          ≡ (end, map wire ms ++ ws, map (λ m. m.0) ms ++ ts)
    unfolding run echo_loop read_into
    echoes [] (suc rounds) n b s h = rw (run, s) (behind (suc n))
    echoes (m ∷ ms) (suc rounds) n b (came, clean, fits, later) h =
        let whole : take 1024 (wire m) ≡ wire m = take_all 1024 (wire m) fits in
        one_message rounds n b (wire m) m.0 (wire m) (map wire ms ++ ws) (map (λ m. m.0) ms ++ ts)
          came (rw whole (wire-some m.0 m.1)) (rw whole (c_text-fill b m.0 m.1 clean))
          (rw whole (bytes_of-fill b (wire m)))
          (echoes ms rounds (suc (suc (suc n))) (fill b (take 1024 (wire m))) later
            (omega (arith, h)))
    echoes ms zero n b s h = ground arith

-- Where a client sends messages of at most 1024 bytes, each with its NUL, and then closes, the
-- thread prints the text of each, returns each as it came, and ends, whatever the kernel answers
-- besides, in at most one round more than there are messages.
pub handle_client_echoes :
    (k : Kernel) (sock : Fd) (ms : List Message) (rounds : ℕ)
    → Sends k sock 0 ms
    → length ms < rounds
    → outcome (run k 0 (handle_client rounds sock)) ≡ (returned tt, map wire ms, map (λ m. m.0) ms)
unfolding run handle_client
handle_client_echoes k sock ms rounds s h =
    echoes k sock "Received: %s\n" (perform (Call.close sock)) (returned tt) [] [] (λ n. refl) ms
      rounds 0 (unset buffer_size) s h
    ∙ rw (append_nil (map wire ms), append_nil (map (λ m. m.0) ms)) refl

-- The same of a worker of the queued server, which prints a line before and one behind.
pub serve_taken_echoes :
    (k : Kernel) (sock : Fd) (ms : List Message) (rounds : ℕ)
    → Sends k sock 1 ms
    → length ms < rounds
    → outcome (run k 0 (serve_taken rounds sock))
      ≡ (returned tt, map wire ms, [] ∷ map (λ m. m.0) ms ++ [] ∷ [])
unfolding run serve_taken
serve_taken_echoes k sock ms rounds s h =
    let served =
      echoes k sock "Received: %s\n"
        (perform (Call.close sock) >> perform (Call.say "Client disconnected\n" [])) (returned tt)
        [] ([] ∷ []) (λ n. refl) ms rounds 1 (unset buffer_size) s h in
    ap (λ (r : End (Unit {0}) × List (List ℕ) × List (List ℕ)). (r.0, r.1, [] ∷ r.2)) served
    ∙ rw (append_nil (map wire ms)) refl

-- The same of a thread of the pool, which then sends its number through the pipe.
pub serve_numbered_echoes :
    (k : Kernel) (id : ℕ) (sock to : Fd) (ms : List Message) (rounds : ℕ)
    → Sends k sock 1 ms
    → length ms < rounds
    → outcome (run k 0 (serve_numbered rounds id sock to))
      ≡ (returned tt, map wire ms ++ int_bytes id ∷ [], (id ∷ []) ∷ map (λ m. m.0) ms)
unfolding run serve_numbered
serve_numbered_echoes k id sock to ms rounds s h =
    let served =
      echoes k sock "Thread %d received: %s\n"
        (perform (Call.close sock) >> (perform (Call.write to (int_bytes id)) >> Io.pure tt))
        (returned tt) (int_bytes id ∷ []) [] (λ n. refl) ms rounds 1 (unset buffer_size) s h in
    ap (λ (r : End (Unit {0}) × List (List ℕ) × List (List ℕ)). (r.0, r.1, (id ∷ []) ∷ r.2)) served
    ∙ rw (append_nil (map (λ m. m.0) ms)) refl

-- Where the first message has no NUL, as those of the repository's clients, and leaves the buffer
-- with none, the thread prints from an array that was never stored to: nothing is returned.
pub handle_client_unterminated :
    (k : Kernel) (sock : Fd) (c : ℕ) (t : List ℕ) (rounds : ℕ)
    → k 0 (Call.read sock 1024) ≡ some (c ∷ t)
    → IsText (c ∷ t)
    → length (c ∷ t) ≤ 1024
    → outcome (run k 0 (handle_client (suc rounds) sock)) ≡ (undefined, [], [])
unfolding run handle_client echo_loop read_into
handle_client_unterminated k sock c t rounds came clean fits =
    let whole : take 1024 (c ∷ t) ≡ c ∷ t = take_all 1024 (c ∷ t) fits in
    let lost : c_text (fill (unset 1024) (take 1024 (c ∷ t))) ≡ none =
      rw whole (c_text-fill-unset (c ∷ t) 1024 clean) in
    let more : some_came (some (length (take 1024 (c ∷ t)))) ≡ true = ground arith in
    rw (run, came) (rw more (rw lost refl))
