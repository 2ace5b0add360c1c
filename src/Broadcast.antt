-- ===== src/Broadcast.antt =====
-- sockets/hw3: a server sends the same datagram every two seconds, to the broadcast address or to
-- a multicast group, and clients print what they receive. The four programs differ in their
-- texts, their socket options and the group that a client joins. `while (1)` loops take a bound
-- on their rounds.
pub mod Datagrams
mod Tests
use Prim.Native.String.{String}
use hw.Prelude.{
  ℕ, zero, suc, true, false, List, [], ◌∷◌, ◌++◌, Option, none, some, ltb, if◌then◌else◌, length,
  set,
}
use hw.Stdio.{codes}
use hw.Unix.{show, recv_into}
use hw.Unix.Calls.{
  Fd, Family, Kind, Address, Call, Io, cut_off, ◌>>=◌, ◌>>◌, perform, from_option, require,
  require_or_close, is_open,
}
use hw.Unix.Buffers.{Chars, unset}

abbrev pub port : ℕ
port = 8080

abbrev pub buffer_size : ℕ
buffer_size = 1024

-- `buffer[i] = '\0'`: `none` outside the array.
unfoldable pub terminate : Chars → ℕ → Option Chars
terminate b i = if ltb i (length b) then some (set b i (some 0)) else none

-- What follows `recvfrom` in a round: the array is NUL-terminated behind the datagram.
unfoldable pub after_datagram : String → Chars → Option ℕ → Io Chars
unfolding terminate
after_datagram format buffer none = do perform (Call.perror "recvfrom failed"); Io.pure buffer
after_datagram format buffer (some recv_len) = do
  text ← from_option (terminate buffer recv_len)
  show format text
  Io.pure text

unfoldable pub receive_loop : ℕ → String → Fd → Chars → Io ℕ
unfolding recv_into after_datagram
receive_loop zero format sock buffer = cut_off
receive_loop (suc rounds) format sock buffer = do
  (arrived, recv_len, from) ← recv_into sock buffer buffer_size
  buffer' ← after_datagram format arrived recv_len
  receive_loop rounds format sock buffer'

unfoldable pub broadcast_client : ℕ → Io ℕ
unfolding receive_loop
broadcast_client rounds = do
  sock ← perform (Call.socket Family.inet Kind.dgram)
  require (is_open sock) "Socket creation failed"
  bound ← perform (Call.bind sock (Address.any_port port))
  require_or_close bound "Bind failed" sock
  receive_loop rounds "Received broadcast message: %s\n" sock (unset buffer_size)

unfoldable pub multicast_client : ℕ → Io ℕ
unfolding receive_loop
multicast_client rounds = do
  sock ← perform (Call.socket Family.inet Kind.dgram)
  require (is_open sock) "Socket creation failed"
  bound ← perform (Call.bind sock (Address.any_port port))
  require_or_close bound "Bind failed" sock
  joined ← perform (Call.set_option sock "IP_ADD_MEMBERSHIP")
  require_or_close joined "setsockopt failed" sock
  receive_loop rounds "Received multicast message: %s\n" sock (unset buffer_size)

-- A server's loop: the message is sent without a NUL.
unfoldable pub send_loop : ℕ → Fd → List ℕ → Address → String → String → Io ℕ
send_loop zero sock message to failure success = cut_off
send_loop (suc rounds) sock message to failure success = do
  sent ← perform (Call.sendto sock message to)
  elim sent [ false ↦ perform (Call.perror failure) | true ↦ perform (Call.say success message) ]
  perform (Call.sleep 2)
  send_loop rounds sock message to failure success

unfoldable pub broadcast_server : ℕ → Io ℕ
unfolding send_loop
broadcast_server rounds = do
  sock ← perform (Call.socket Family.inet Kind.dgram)
  require (is_open sock) "Socket creation failed"
  allowed ← perform (Call.set_option sock "SO_BROADCAST")
  require_or_close allowed "setsockopt failed" sock
  send_loop rounds sock (codes "Hello, Broadcast!") (Address.ip_port "255.255.255.255" port)
      "Broadcast message failed" "Broadcast message sent: %s\n"

unfoldable pub multicast_server : ℕ → Io ℕ
unfolding send_loop
multicast_server rounds = do
  sock ← perform (Call.socket Family.inet Kind.dgram)
  require (is_open sock) "Socket creation failed"
  limited ← perform (Call.set_option sock "IP_MULTICAST_TTL")
  require_or_close limited "setsockopt failed" sock
  send_loop rounds sock (codes "Hello, Multicast!") (Address.ip_port "239.255.255.250" port)
      "Multicast message failed" "Multicast message sent: %s\n"
