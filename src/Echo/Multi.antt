-- ===== src/Echo/Multi.antt =====
-- sockets/hw2/multiproto/server.c: one process for streams and datagrams, by `select`. The
-- sockets that it accepts are read once.
pub mod Sockets
use hw.Prelude.{
  ℕ, zero, suc, Bool, true, false, not, List, [], ◌∷◌, Option, none, some, if◌then◌else◌,
}
use hw.Unix.{show, read_into, recv_into}
use hw.Unix.Calls.{
  Fd, Family, Kind, Address, Call, Io, pure, exit, cut_off, ◌>>=◌, ◌>>◌, perform, from_option, fail,
  require, require_or_close,
}
use hw.Unix.Buffers.{Chars, unset, bytes_of}
use hw.Echo.{port, buffer_size, is_zero_fd, some_came, count_of}

unfoldable pub handle_tcp_client : Fd → Io (Unit {0})
unfolding read_into
handle_tcp_client client_socket = do
  (buffer, bytes_read) ← read_into client_socket (unset buffer_size) buffer_size
  elim bytes_read [
    | none ↦ (do perform (Call.perror "TCP read error"); perform (Call.close client_socket))
    | some n ↦ elim (some_came (some n)) [
      | true ↦ (do
        show "TCP Client says: %s\n" buffer
        bytes ← from_option (bytes_of buffer n)
        perform (Call.write client_socket bytes)
        pure tt)
      | false ↦ (do
        perform (Call.say "TCP client disconnected.\n" [])
        perform (Call.close client_socket))
    ]
  ]

-- The address of the sender goes with the bytes: a datagram of no bytes is an error here.
unfoldable pub handle_udp_client : Fd → Io (Unit {0})
unfolding recv_into
handle_udp_client udp_socket = do
  (buffer, bytes_read, from) ← recv_into udp_socket (unset buffer_size) buffer_size
  elim (some_came bytes_read) [
    | true ↦ (do
      show "UDP Client says: %s\n" buffer
      bytes ← from_option (bytes_of buffer (count_of bytes_read))
      to ← from_option from
      perform (Call.sendto udp_socket bytes (Address.peer to))
      pure tt)
    | false ↦ perform (Call.perror "UDP read error")
  ]

-- The two branches of the loop behind `select`.
unfoldable pub serve_tcp : Bool → Fd → Io (Unit {0})
unfolding handle_tcp_client
serve_tcp false tcp_socket = pure tt
serve_tcp true tcp_socket = do
  came ← perform (Call.accept tcp_socket)
  elim came [
    | none ↦ fail "accept error"
    | some (new_tcp_socket, from) ↦ (do
      perform (Call.say "New TCP connection\n" [])
      handle_tcp_client (some new_tcp_socket))
  ]

unfoldable pub serve_udp : Bool → Fd → Io (Unit {0})
unfolding handle_udp_client
serve_udp false udp_socket = pure tt
serve_udp true udp_socket = handle_udp_client udp_socket

unfoldable pub serve_both : ℕ → Fd → Fd → Io ℕ
unfolding serve_tcp serve_udp
serve_both zero tcp_socket udp_socket = cut_off
serve_both (suc rounds) tcp_socket udp_socket = do
  activity ← perform (Call.select tcp_socket udp_socket)
  elim activity [
    | none ↦ (do perform (Call.perror "select error"); serve_both rounds tcp_socket udp_socket)
    | some (tcp_ready, udp_ready) ↦ (do
      serve_tcp tcp_ready tcp_socket
      serve_udp udp_ready udp_socket
      serve_both rounds tcp_socket udp_socket)
  ]

unfoldable pub multi_main : ℕ → Io ℕ
unfolding serve_both
multi_main rounds = do
  tcp_socket ← perform (Call.socket Family.inet Kind.stream)
  require (not (is_zero_fd tcp_socket)) "TCP socket failed"
  udp_socket ← perform (Call.socket Family.inet Kind.dgram)
  require (not (is_zero_fd udp_socket)) "UDP socket failed"
  tcp_bound ← perform (Call.bind tcp_socket (Address.any_port port))
  require_or_close tcp_bound "TCP bind failed" tcp_socket
  udp_bound ← perform (Call.bind udp_socket (Address.any_port port))
  require_or_close udp_bound "UDP bind failed" udp_socket
  listening ← perform (Call.listen tcp_socket 3)
  require_or_close listening "TCP listen failed" tcp_socket
  perform (Call.say "Server listening on port %d for both TCP and UDP...\n" [])
  serve_both rounds tcp_socket udp_socket
