-- ===== src/Exchange/Replies.antt =====
-- What the servers of sockets/hw1 answer, when their buffer overflows, and what a client sees.
use hw.Prelude.{
  ℕ, ◌+◌, ◌≤◌, ◌<◌, ◌≡◌, refl, ap, inl, inr, Option-cases, true, List, [], ◌∷◌, ◌++◌, none, some,
  arith, length, take, length-take,
}
use hw.Unix.Calls.{Family, Kind, Address, Call, Io}
use hw.Unix.Buffers.{
  Chars, unset, zeroed, fill, c_text, strcat, IsText, c_text-fill, IsText-append, length-fill,
  length-unset, strcat_fits, strcat_overflows,
}
use hw.Unix.Runs.{Kernel, End, returned, undefined, run, sent, outcome}
use hw.Exchange.{
  hello, greeting, remark, inet_tcp_server, inet_tcp_client, inet_udp_server, inet_udp_client,
  local_tcp_server, local_tcp_client, local_udp_server, local_udp_client,
}

-- The four pairs of programs.
pub data Transport : Type 0 where
  inet_tcp inet_udp local_tcp local_udp : Transport

abbrev pub server : Transport → Io ℕ
server inet_tcp = inet_tcp_server
server inet_udp = inet_udp_server
server local_tcp = local_tcp_server
server local_udp = local_udp_server

abbrev pub client : Transport → Io ℕ
client inet_tcp = inet_tcp_client
client inet_udp = inet_udp_client
client local_tcp = local_tcp_client
client local_udp = local_udp_client

-- A kernel under which no call fails and the bytes that arrive are `bytes`.
pub record Delivers (k : Kernel) (fd conn from : ℕ) (bytes : List ℕ) : Type 0 where
  pub sockets : (n : ℕ) (f : Family) (t : Kind) → k n (Call.socket f t) ≡ some fd
  pub resolves : (n : ℕ) → k n (Call.inet_pton "127.0.0.1") ≡ true
  pub binds : (n : ℕ) (a : Address) → k n (Call.bind (some fd) a) ≡ true
  pub listens : (n : ℕ) → k n (Call.listen (some fd) 1) ≡ true
  pub accepts : (n : ℕ) → k n (Call.accept (some fd)) ≡ some (conn, from)
  pub connects : (n : ℕ) (a : Address) → k n (Call.connect (some fd) a) ≡ true
  pub reads : (n d : ℕ) → k n (Call.read (some d) 1024) ≡ some bytes
  pub receives : (n : ℕ) → k n (Call.recvfrom (some fd) 1024) ≡ some (bytes, from)

-- The first 1024 bytes that arrive are a text, its NUL and perhaps more.
pub record Holds (bytes t : List ℕ) : Type 0 where
  pub rest : List ℕ
  pub split : take 1024 bytes ≡ t ++ (0 ∷ rest)
  pub clean : IsText t

-- The server's buffer after the message arrived, and with the remark behind it.
abbrev arrived : List ℕ → Chars
arrived bytes = fill (unset 1024) (take 1024 bytes)

arrived_text : (bytes t : List ℕ) → Holds bytes t → c_text (arrived bytes) ≡ some t
arrived_text bytes t h = rw h.split (c_text-fill (unset 1024) t h.rest h.clean)

length-arrived : (bytes : List ℕ) → length (arrived bytes) ≡ 1024
length-arrived bytes = omega (
  arith,
  length-fill (unset 1024) (take 1024 bytes)
      (omega (arith, length-take 1024 bytes, length-unset 1024)),
  length-unset 1024,
)

remark-IsText : IsText remark
remark-IsText = omega arith

length-remark : length remark ≡ 19
length-remark = refl

module _ (k : Kernel) {fd conn from : ℕ} {bytes : List ℕ} (d : Delivers k fd conn from bytes) where
  -- A server whose buffer holds the text `t`, and the remark joined to it.
  module _ (t : List ℕ) (held : c_text (arrived bytes) ≡ some t) (b : Chars)
      (joined : strcat (arrived bytes) remark ≡ some b) (u : List ℕ)
      (whole : c_text b ≡ some u) where
    replies :
        (p : Transport) → outcome (run k 0 (server p)) ≡ (returned 0, (u ++ (0 ∷ [])) ∷ [], t ∷ [])
    unfolding run inet_tcp_server inet_udp_server local_tcp_server local_udp_server
    replies inet_tcp =
        rw (run, d.sockets 0, d.binds 1, d.listens 2, d.accepts 3, d.reads 4, held, joined, whole)
    replies inet_udp = rw (run, d.sockets 0, d.binds 1, d.receives 2, held, joined, whole)
    replies local_tcp =
        rw (run, d.sockets 0, d.binds 2, d.listens 3, d.accepts 4, d.reads 5, held, joined, whole)
    replies local_udp = rw (run, d.sockets 0, d.binds 2, d.receives 3, held, joined, whole)

  module _ (t : List ℕ) (held : c_text (arrived bytes) ≡ some t)
      (over : strcat (arrived bytes) remark ≡ none) where
    overflows : (p : Transport) → outcome (run k 0 (server p)) ≡ (undefined, [], t ∷ [])
    unfolding run inet_tcp_server inet_udp_server local_tcp_server local_udp_server
    overflows inet_tcp =
        rw (run, d.sockets 0, d.binds 1, d.listens 2, d.accepts 3, d.reads 4, held, over)
    overflows inet_udp = rw (run, d.sockets 0, d.binds 1, d.receives 2, held, over)
    overflows local_tcp =
        rw (run, d.sockets 0, d.binds 2, d.listens 3, d.accepts 4, d.reads 5, held, over)
    overflows local_udp = rw (run, d.sockets 0, d.binds 2, d.receives 3, held, over)

  -- Where no call fails and a text of at most 1004 bytes arrives with its NUL, a server prints the
  -- text, sends it back with the remark behind it and a NUL, and returns 0.
  pub server_replies :
      (p : Transport) (t : List ℕ)
      → Holds bytes t
      → length t + 19 < 1024
      → outcome (run k 0 (server p)) ≡ (returned 0, ((t ++ remark) ++ (0 ∷ [])) ∷ [], t ∷ [])
  server_replies p t h short =
      let held = arrived_text bytes t h in
      let joined =
        strcat_fits (arrived bytes) t remark held
          (omega (arith, short, length-remark, length-arrived bytes)) in
      replies t held (fill (arrived bytes) ((t ++ remark) ++ (0 ∷ []))) joined (t ++ remark)
        (c_text-fill (arrived bytes) (t ++ remark) []
          (IsText-append t remark h.clean remark-IsText))
        p

  -- Where no call fails and a longer text arrives, a server prints it and then stores the remark
  -- outside its buffer: the run is undefined, and nothing was sent.
  pub server_overflows :
      (p : Transport) (t : List ℕ)
      → Holds bytes t
      → 1024 ≤ length t + 19
      → outcome (run k 0 (server p)) ≡ (undefined, [], t ∷ [])
  server_overflows p t h long =
      let held = arrived_text bytes t h in
      overflows t held
        (strcat_overflows (arrived bytes) t remark held
          (omega (arith, long, length-remark, length-arrived bytes)))
        p

  greeting_text : c_text greeting ≡ some hello
  greeting_text = c_text-fill (zeroed 1024) hello [] (omega arith)

  -- A client sends its greeting with the NUL, and prints the text that comes back.
  client_prints :
      (p : Transport) (t rest : List ℕ)
      → take 1024 bytes ≡ t ++ (0 ∷ rest)
      → IsText t
      → outcome (run k 0 (client p)) ≡ (returned 0, (hello ++ (0 ∷ [])) ∷ [], t ∷ [])
  unfolding run inet_tcp_client inet_udp_client local_tcp_client local_udp_client
  client_prints inet_tcp t rest split clean =
      let back = c_text-fill greeting t rest clean in
      rw (run, d.sockets 0, d.resolves 1, d.connects 2, greeting_text, d.reads 4, split, back)
  client_prints inet_udp t rest split clean =
      let back = c_text-fill greeting t rest clean in
      rw (run, d.sockets 0, greeting_text, d.receives 3, split, back)
  client_prints local_tcp t rest split clean =
      let back = c_text-fill greeting t rest clean in
      rw (run, d.sockets 0, d.connects 1, greeting_text, d.reads 3, split, back)
  client_prints local_udp t rest split clean =
      let back = c_text-fill greeting t rest clean in
      rw (run, d.sockets 0, d.binds 2, greeting_text, d.receives 4, split, back)

  -- What a client sends does not depend on what comes back.
  pub client_sends : (p : Transport) → sent (run k 0 (client p)).1 ≡ (hello ++ (0 ∷ [])) ∷ []
  unfolding run inet_tcp_client inet_udp_client local_tcp_client local_udp_client
  client_sends p = elim (Option-cases (c_text (fill greeting (take 1024 bytes)))) [
    | inl lost ↦ without lost p
    | inr (t, back) ↦ with_text t back p
  ]
    where
      without :
          c_text (fill greeting (take 1024 bytes)) ≡ none
          → (p : Transport) → sent (run k 0 (client p)).1 ≡ (hello ++ (0 ∷ [])) ∷ []
      without e inet_tcp =
          rw (run, d.sockets 0, d.resolves 1, d.connects 2, greeting_text, d.reads 4, e)
      without e inet_udp = rw (run, d.sockets 0, greeting_text, d.receives 3, e)
      without e local_tcp = rw (run, d.sockets 0, d.connects 1, greeting_text, d.reads 3, e)
      without e local_udp = rw (run, d.sockets 0, d.binds 2, greeting_text, d.receives 4, e)

      with_text :
          (t : List ℕ)
          → c_text (fill greeting (take 1024 bytes)) ≡ some t
          → (p : Transport) → sent (run k 0 (client p)).1 ≡ (hello ++ (0 ∷ [])) ∷ []
      with_text t e inet_tcp =
          rw (run, d.sockets 0, d.resolves 1, d.connects 2, greeting_text, d.reads 4, e)
      with_text t e inet_udp = rw (run, d.sockets 0, greeting_text, d.receives 3, e)
      with_text t e local_tcp = rw (run, d.sockets 0, d.connects 1, greeting_text, d.reads 3, e)
      with_text t e local_udp = rw (run, d.sockets 0, d.binds 2, greeting_text, d.receives 4, e)

-- What one side sent.
abbrev pub sends : {A : Type 0} → Kernel → Io A → List (List ℕ)
sends k p = sent (run k 0 p).1

-- The exchange, over each transport: where no call fails, what the client sends reaches the server
-- and what the server sends then reaches the client, both return 0, the server prints the client's
-- greeting and the client prints the greeting with the remark.
pub exchange :
    (p : Transport) (ks kc : Kernel) {fd conn from fd' conn' from' : ℕ} {request reply : List ℕ}
    → Delivers ks fd conn from request
    → Delivers kc fd' conn' from' reply
    → sends kc (client p) ≡ request ∷ []
    → sends ks (server p) ≡ reply ∷ []
    → (outcome (run ks 0 (server p)) ≡ (returned 0, reply ∷ [], hello ∷ []))
      × (outcome (run kc 0 (client p)) ≡ (returned 0, request ∷ [], (hello ++ remark) ∷ []))
exchange p ks kc {request} {reply} ds dc from_client from_server =
    let asked : request ≡ hello ++ (0 ∷ []) = cc (client_sends kc dc p) in
    let holds : Holds request hello = record {
      rest = [];
      split = rw asked refl;
      clean = omega arith;
    } in
    let served = server_replies ks ds p hello holds (omega arith) in
    let answered : reply ≡ (hello ++ remark) ++ (0 ∷ []) =
      cc (ap (λ (r : End ℕ × List (List ℕ) × List (List ℕ)). r.1) served) in
    let came : take 1024 reply ≡ (hello ++ remark) ++ (0 ∷ []) = rw answered refl in
    (rw answered served, rw asked (client_prints kc dc p (hello ++ remark) [] came (omega arith)))
