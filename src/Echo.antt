-- ===== src/Echo.antt =====
-- sockets/hw2: the servers that return what they read, apart from their threads, and their
-- clients. The set-up of the listening socket is the same in the three TCP servers. Failure of
-- `socket` is -1, but the programs test for 0. `while (1)` loops take a bound on their rounds.
pub mod Loop
pub mod Clients
pub mod Multi
mod Tests
use Prim.Native.String.{String}
use hw.Prelude.{
  ℕ, zero, suc, ◌/◌, ◌%◌, Bool, true, false, not, List, [], ◌∷◌, ◌++◌, Option, none, some, map,
  take, length, ◌==◌, if◌then◌else◌,
}
use hw.Stdio.{codes}
use hw.Unix.{show, read_into, recv_into}
use hw.Unix.Calls.{
  Fd, Family, Kind, Address, Call, Io, pure, exit, cut_off, ◌>>=◌, ◌>>◌, perform, from_option, fail,
  require, require_or_close, is_open,
}
use hw.Unix.Buffers.{Chars, unset, zeroed, bytes_of}

abbrev pub port : ℕ
port = 8080

abbrev pub buffer_size : ℕ
buffer_size = 1024

-- `fd == 0`
abbrev pub is_zero_fd : Fd → Bool
is_zero_fd none = false
is_zero_fd (some n) = n == 0

-- `bytes_read > 0`
abbrev pub some_came : Option ℕ → Bool
some_came none = false
some_came (some n) = not (n == 0)

abbrev pub count_of : Option ℕ → ℕ
count_of none = 0
count_of (some n) = n

-- An `int` in memory, its low byte first.
abbrev pub int_bytes : ℕ → List ℕ
int_bytes n = n % 256 ∷ (n / 256) % 256 ∷ (n / 65536) % 256 ∷ (n / 16777216) % 256 ∷ []

-- The `while` around `read` in `handle_client`, which prints each message by `format`.
unfoldable pub echo_loop : ℕ → String → Fd → Chars → Io (Unit {0})
unfolding read_into
echo_loop zero format sock buffer = cut_off
echo_loop (suc rounds) format sock buffer = do
  (buffer', n) ← read_into sock buffer buffer_size
  elim (some_came n) [
    | false ↦ pure tt
    | true ↦ (do
      show format buffer'
      bytes ← from_option (bytes_of buffer' (count_of n))
      perform (Call.write sock bytes)
      echo_loop rounds format sock buffer')
  ]

-- sockets/hw2/pserver/server.c, a thread's whole life.
unfoldable pub handle_client : ℕ → Fd → Io (Unit {0})
unfolding echo_loop
handle_client rounds sock = do
  echo_loop rounds "Received: %s\n" sock (unset buffer_size)
  perform (Call.close sock)

-- What a worker of sockets/hw2/server queue/server.c does with a socket that it took, and the
-- thread of sockets/hw2/pserver pool/server.c, which then writes its number into the pipe.
unfoldable pub serve_taken : ℕ → Fd → Io (Unit {0})
unfolding echo_loop
serve_taken rounds client_socket = do
  perform (Call.say "Handling client\n" [])
  echo_loop rounds "Received: %s\n" client_socket (unset buffer_size)
  perform (Call.close client_socket)
  perform (Call.say "Client disconnected\n" [])

unfoldable pub serve_numbered : ℕ → ℕ → Fd → Fd → Io (Unit {0})
unfolding echo_loop
serve_numbered rounds id sock to = do
  perform (Call.say "Thread %d is handling client\n" (id ∷ []))
  echo_loop rounds "Thread %d received: %s\n" sock (unset buffer_size)
  perform (Call.close sock)
  perform (Call.write to (int_bytes id))
  pure tt

-- The listening socket, in all three.
unfoldable pub listening_socket : Io Fd
listening_socket = do
  server_fd ← perform (Call.socket Family.inet Kind.stream)
  require (not (is_zero_fd server_fd)) "socket failed"
  bound ← perform (Call.bind server_fd (Address.any_port port))
  require_or_close bound "bind failed" server_fd
  listening ← perform (Call.listen server_fd 3)
  require_or_close listening "listen failed" server_fd
  pure server_fd

-- sockets/hw2/pserver/server.c: a thread for each client. Where the thread cannot be created the
-- memory for the socket's number is freed, and the socket stays open.
unfoldable pub serve_each : ℕ → Fd → Io ℕ
serve_each zero server_fd = cut_off
serve_each (suc rounds) server_fd = do
  came ← perform (Call.accept server_fd)
  elim came [
    | none ↦ (do perform (Call.perror "accept failed"); serve_each rounds server_fd)
    | some (client_socket, from) ↦ (do
      perform (Call.say "New connection accepted\n" [])
      started ← perform (Call.thread (some client_socket))
      elim started [
        | true ↦ serve_each rounds server_fd
        | false ↦ (do perform (Call.perror "Failed to create thread"); serve_each rounds server_fd)
      ])
  ]

unfoldable pub thread_main : ℕ → Io ℕ
unfolding listening_socket serve_each
thread_main rounds = do
  server_fd ← listening_socket
  perform (Call.say "Listening on port %d...\n" [])
  serve_each rounds server_fd

-- `main` of sockets/hw2/server queue/server.c before its accept loop: the socket, and the
-- workers, each with no socket yet.
unfoldable pub start_workers : ℕ → Io (Unit {0})
start_workers zero = pure tt
start_workers (suc left) = do
  started ← perform (Call.thread none)
  require started "Failed to create thread"
  start_workers left

unfoldable pub queue_set_up : ℕ → Io Fd
unfolding listening_socket start_workers
queue_set_up max_threads = do
  server_fd ← listening_socket
  perform (Call.say "Server listening on port %d...\n" [])
  start_workers max_threads
  pure server_fd

-- `main` of sockets/hw2/pserver pool/server.c before its accept loop: the pipe and the socket.
unfoldable pub pool_set_up : Io (Fd × Fd × Fd)
unfolding listening_socket
pool_set_up = do
  made ← perform Call.pipe
  elim made [
    | none ↦ fail "pipe failed"
    | some (from, to) ↦ (do
      server_fd ← listening_socket
      perform (Call.say "Server listening on port %d...\n" [])
      pure (server_fd, some from, some to))
  ]

-- `if (!ok) { printf(message); return -1; }`
abbrev pub unless : Bool → String → Io (Unit {0})
unless true message = pure tt
unless false message = do perform (Call.say message []); exit 255

-- The TCP clients, by their message. `return -1` from `main` is status 255.
unfoldable pub tcp_client : List ℕ → Io ℕ
unfolding read_into
tcp_client message = do
  sock ← perform (Call.socket Family.inet Kind.stream)
  unless (is_open sock) "\n Socket creation error \n"
  known ← perform (Call.inet_pton "127.0.0.1")
  unless known "\nInvalid address/ Address not supported \n"
  connected ← perform (Call.connect sock (Address.ip_port "127.0.0.1" port))
  unless connected "\nConnection Failed \n"
  perform (Call.write sock message)
  perform (Call.say "Message sent: %s\n" message)
  (buffer, valread) ← read_into sock (zeroed buffer_size) buffer_size
  unless (is_open valread) "Error while reading."
  show "Message received: %s\n" buffer
  perform (Call.close sock)
  pure 0

unfoldable pub queue_client : Io ℕ
unfolding tcp_client
queue_client = tcp_client (codes "Hello, Server!")

unfoldable pub pserver_client : Io ℕ
unfolding tcp_client
pserver_client = tcp_client (codes "Hello, Server!")

unfoldable pub pool_client : Io ℕ
unfolding tcp_client
pool_client = tcp_client (codes "Hello, Server!")

unfoldable pub multi_tcp_client : Io ℕ
unfolding tcp_client
multi_tcp_client = tcp_client (codes "Hello from TCP client")

-- sockets/hw2/multiproto/client_udp.c
unfoldable pub multi_udp_client : Io ℕ
unfolding recv_into
multi_udp_client = do
  sock ← perform (Call.socket Family.inet Kind.dgram)
  unless (is_open sock) "Socket creation error\n"
  perform (Call.sendto sock (codes "Hello from UDP client") (Address.any_port port))
  perform (Call.say "Message sent\n" [])
  (buffer, n, from) ← recv_into sock (zeroed buffer_size) buffer_size
  show "Message received: %s\n" buffer
  perform (Call.close sock)
  pure 0
