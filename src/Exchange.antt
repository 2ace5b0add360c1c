-- ===== src/Exchange.antt =====
-- sockets/hw1: a client sends a message, the server returns it with a remark behind it, over
-- internet or local sockets, as a stream or as datagrams.
pub mod Replies
mod Tests
use Prim.Native.String.{String}
use hw.Prelude.{ℕ, List, [], ◌∷◌, ◌++◌, Option, none, some}
use hw.Stdio.{codes}
use hw.Unix.{show, read_into, recv_into}
use hw.Unix.Calls.{
  Fd, Family, Kind, Address, Call, Io, pure, exit, ◌>>=◌, ◌>>◌, perform, from_option, fail, require,
  is_open,
}
use hw.Unix.Buffers.{Chars, unset, zeroed, fill, c_text, strcat}

abbrev pub port : ℕ
port = 8080

-- `char buffer[1024] = "Hello from client";`
abbrev pub hello : List ℕ
hello = codes "Hello from client"

abbrev pub greeting : Chars
greeting = fill (zeroed 1024) (hello ++ (0 ∷ []))

abbrev pub remark : List ℕ
remark = codes ". Edited by server."

-- The string in an array with its NUL, as `strlen(buffer) + 1` bytes of it.
abbrev pub with_nul : Chars → Io (List ℕ)
with_nul b = do t ← from_option (c_text b); pure (t ++ (0 ∷ []))

-- `strcat(buffer, ". Edited by server.")`, and what is sent then.
abbrev pub edited : Chars → Io (List ℕ)
edited b = do b' ← from_option (strcat b remark); with_nul b'

-- The address that `recvfrom` stored; one that was never stored cannot be printed.
abbrev pub sender : Option ℕ → Io Address
sender from = do a ← from_option from; pure (Address.peer a)

unfoldable pub inet_tcp_server : Io ℕ
unfolding read_into
inet_tcp_server = do
  server_fd ← perform (Call.socket Family.inet Kind.stream)
  require (is_open server_fd) "socket failed"
  bound ← perform (Call.bind server_fd (Address.any_port port))
  require bound "bind failed"
  listening ← perform (Call.listen server_fd 1)
  require listening "listen failed"
  came ← perform (Call.accept server_fd)
  elim came [
    | none ↦ fail "accept failed"
    | some (client_fd, from) ↦ (do
      (buffer, n) ← read_into (some client_fd) (unset 1024) 1024
      show "Received message: %s\n" buffer
      perform (Call.say_address "Client address: %s, port: %d\n" (Address.peer from))
      reply ← edited buffer
      perform (Call.write (some client_fd) reply)
      perform (Call.close (some client_fd))
      perform (Call.close server_fd)
      pure 0)
  ]

unfoldable pub inet_tcp_client : Io ℕ
unfolding read_into
inet_tcp_client = do
  client_fd ← perform (Call.socket Family.inet Kind.stream)
  require (is_open client_fd) "socket failed"
  known ← perform (Call.inet_pton "127.0.0.1")
  require known "inet_pton failed"
  connected ← perform (Call.connect client_fd (Address.ip_port "127.0.0.1" port))
  require connected "connect failed"
  request ← with_nul greeting
  perform (Call.write client_fd request)
  (buffer, n) ← read_into client_fd greeting 1024
  show "Received from server: %s\n" buffer
  perform (Call.say_address "Server address: %s, port: %d\n" (Address.ip_port "127.0.0.1" port))
  perform (Call.close client_fd)
  pure 0

unfoldable pub inet_udp_server : Io ℕ
unfolding recv_into
inet_udp_server = do
  server_fd ← perform (Call.socket Family.inet Kind.dgram)
  require (is_open server_fd) "socket failed"
  bound ← perform (Call.bind server_fd (Address.any_port port))
  require bound "bind failed"
  (buffer, n, from) ← recv_into server_fd (unset 1024) 1024
  show "Received message: %s\n" buffer
  client_addr ← sender from
  perform (Call.say_address "Client address: %s, port: %d\n" client_addr)
  reply ← edited buffer
  perform (Call.sendto server_fd reply client_addr)
  perform (Call.close server_fd)
  pure 0

-- The address printed at the end is the one that `recvfrom` stored, or the server's where that
-- failed. `inet_pton` is not checked.
unfoldable pub inet_udp_client : Io ℕ
unfolding recv_into
inet_udp_client = do
  client_fd ← perform (Call.socket Family.inet Kind.dgram)
  require (is_open client_fd) "socket failed"
  perform (Call.inet_pton "127.0.0.1")
  request ← with_nul greeting
  perform (Call.sendto client_fd request (Address.ip_port "127.0.0.1" port))
  (buffer, n, from) ← recv_into client_fd greeting 1024
  show "Received from server: %s\n" buffer
  perform (
      Call.say_address "Server address: %s, port: %d\n"
        (elim from [ none ↦ Address.ip_port "127.0.0.1" port | some a ↦ Address.peer a ]))
  perform (Call.close client_fd)
  pure 0

unfoldable pub local_tcp_server : Io ℕ
unfolding read_into
local_tcp_server = do
  server_fd ← perform (Call.socket Family.local Kind.stream)
  require (is_open server_fd) "socket failed"
  perform (Call.unlink "/tmp/local_socket")
  bound ← perform (Call.bind server_fd (Address.path "/tmp/local_socket"))
  require bound "bind failed"
  listening ← perform (Call.listen server_fd 1)
  require listening "listen failed"
  came ← perform (Call.accept server_fd)
  elim came [
    | none ↦ fail "accept failed"
    | some (client_fd, from) ↦ (do
      (buffer, n) ← read_into (some client_fd) (unset 1024) 1024
      show "Received message: %s\n" buffer
      reply ← edited buffer
      perform (Call.write (some client_fd) reply)
      perform (Call.close (some client_fd))
      perform (Call.close server_fd)
      perform (Call.unlink "/tmp/local_socket")
      pure 0)
  ]

unfoldable pub local_tcp_client : Io ℕ
unfolding read_into
local_tcp_client = do
  client_fd ← perform (Call.socket Family.local Kind.stream)
  require (is_open client_fd) "socket failed"
  connected ← perform (Call.connect client_fd (Address.path "/tmp/local_socket"))
  require connected "connect failed"
  request ← with_nul greeting
  perform (Call.write client_fd request)
  (buffer, n) ← read_into client_fd greeting 1024
  show "Received from server: %s\n" buffer
  perform (Call.say_address "Server address: %s\n" (Address.path "/tmp/local_socket"))
  perform (Call.close client_fd)
  pure 0

unfoldable pub local_udp_server : Io ℕ
unfolding recv_into
local_udp_server = do
  server_fd ← perform (Call.socket Family.local Kind.dgram)
  require (is_open server_fd) "socket failed"
  perform (Call.unlink "/tmp/local_socket_udp_server")
  bound ← perform (Call.bind server_fd (Address.path "/tmp/local_socket_udp_server"))
  require bound "bind failed"
  (buffer, n, from) ← recv_into server_fd (unset 1024) 1024
  show "Received message: %s\n" buffer
  client_addr ← sender from
  perform (Call.say_address "Client address: %s\n" client_addr)
  reply ← edited buffer
  perform (Call.sendto server_fd reply client_addr)
  perform (Call.close server_fd)
  perform (Call.unlink "/tmp/local_socket_udp_server")
  pure 0

unfoldable pub local_udp_client : Io ℕ
unfolding recv_into
local_udp_client = do
  client_fd ← perform (Call.socket Family.local Kind.dgram)
  require (is_open client_fd) "socket failed"
  perform (Call.unlink "/tmp/local_socket_udp_client")
  bound ← perform (Call.bind client_fd (Address.path "/tmp/local_socket_udp_client"))
  require bound "bind failed"
  request ← with_nul greeting
  perform (Call.sendto client_fd request (Address.path "/tmp/local_socket_udp_server"))
  (buffer, n, from) ← recv_into client_fd greeting 1024
  show "Received from server: %s\n" buffer
  perform (
      Call.say_address "Server address: %s\n" (elim from [
        | none ↦ Address.path "/tmp/local_socket_udp_server"
        | some a ↦ Address.peer a
      ]))
  perform (Call.close client_fd)
  perform (Call.unlink "/tmp/local_socket_udp_client")
  pure 0
