-- ===== src/RawSocket.antt =====
-- sockets/hw4 to hw7: programs on raw sockets, which lay out IP and UDP headers byte by byte or
-- read them. Bytes of a frame are in network order; a `short` read through a pointer has its low
-- byte first.
pub mod Checksum
pub mod Frames
pub mod Sniffing
mod Tests
use Prim.Native.String.{String}
use hw.Prelude.{
  ℕ, zero, suc, ◌+◌, ◌-◌, ◌*◌, ◌/◌, ◌%◌, ◌^◌, Bool, true, false, ◌&&◌, List, [], ◌∷◌, ◌++◌, Option,
  none, some, map, ltb, leb, ◌==◌, if◌then◌else◌, length, take, drop, replicate,
}
use hw.Stdio.{codes}
use hw.Unix.{show, recv_into}
use hw.Unix.Calls.{
  Fd, Family, Kind, Address, Call, Io, pure, exit, cut_off, ◌>>=◌, ◌>>◌, perform, from_option, fail,
  require, is_open,
}
use hw.Unix.Buffers.{Chars, unset, bytes_of}

-- `htons`, as the two bytes that it makes.
abbrev pub be16 : ℕ → List ℕ
be16 n = (n / 256) % 256 ∷ n % 256 ∷ []

-- The `unsigned short`s that a run of bytes holds.
unfoldable pub shorts : List ℕ → List ℕ
shorts [] = []
shorts (c ∷ []) = []
shorts (c ∷ d ∷ bytes) = (c + 256 * d) ∷ shorts bytes

-- The checksum of sockets/hw7: the sum of ten of them,
unfoldable pub sum : List ℕ → ℕ
sum [] = 0
sum (w ∷ ws) = w + sum ws

-- the carries above 16 bits added below them while there are any, in at most so many rounds,
unfoldable pub fold : ℕ → ℕ → Option ℕ
fold zero csum = none
fold (suc rounds) csum =
    let rest = fold rounds (csum % 2 ^ 16 + csum / 2 ^ 16) in
    if csum / 2 ^ 16 == 0 then some csum else rest

-- and the complement, in 16 bits.
unfoldable pub checksum : List ℕ → Option ℕ
unfolding sum fold
checksum iph = elim (fold 3 (sum (take 10 iph))) [
  | none ↦ none
  | some csum ↦ some (2 ^ 16 - 1 - csum % 2 ^ 16)
]

abbrev pub udp_header : ℕ → List ℕ
udp_header len = be16 12345 ++ be16 8080 ++ be16 len ++ be16 0

-- An IP header from 192.168.1.37 to 192.168.1.41, by its total length and the bytes of its fields
-- `id` and `check`.
abbrev pub ip_header : ℕ → List ℕ → List ℕ → List ℕ
ip_header tot_len id check =
    69 ∷ 0 ∷ be16 tot_len
    ++ id
    ++ 0 ∷ 0 ∷ 255 ∷ 17 ∷ check
    ++ 192 ∷ 168 ∷ 1 ∷ 37 ∷ 192 ∷ 168 ∷ 1 ∷ 41 ∷ []

abbrev pub hello : List ℕ
hello = codes "Hello from raw socket!"

-- Bytes stored at an offset of an array.
unfoldable pub store : ℕ → List ℕ → Chars → Chars
store i bytes b = take i b ++ map (λ c. some c) bytes ++ drop (i + length bytes) b

-- What the clients do behind `sendto`: they print what stands behind the first bytes of their
-- array, however many came.
unfoldable pub await_reply : Fd → ℕ → ℕ → Io ℕ
unfolding recv_into
await_reply sockfd size offset = do
  (buffer, came, from) ← recv_into sockfd (unset size) size
  elim came [
    | none ↦ perform (Call.perror "Receive failed")
    | some n ↦ show "Received: %s\n" (drop offset buffer)
  ]
  perform (Call.close sockfd)
  pure 0

abbrev pub report : Bool → String → Io (Unit {0})
report true success = perform (Call.say success [])
report false success = perform (Call.perror "Send failed")

-- sockets/hw5/client.c: a UDP header and the text.
unfoldable pub udp_packet : Chars
unfolding store
udp_packet = store 0 (udp_header (8 + length hello)) (store 8 (hello ++ 0 ∷ []) (unset 1024))

unfoldable pub udp_client : Io ℕ
unfolding udp_packet await_reply
udp_client = do
  sockfd ← perform (Call.socket Family.inet Kind.raw)
  require (is_open sockfd) "Socket creation failed"
  bytes ← from_option (bytes_of udp_packet (8 + length hello))
  sent ← perform (Call.sendto sockfd bytes (Address.ip_port "192.168.1.41" 8080))
  report sent "Packet sent\n"
  await_reply sockfd 1024 28

-- sockets/hw6/client.c: an IP header in front of these. It sends 1052 bytes of an array of 1024.
unfoldable pub ip_packet : Chars
unfolding store
ip_packet =
    store 20 (udp_header (8 + length hello))
      (store 0 (ip_header 1052 (0 ∷ 0 ∷ []) (0 ∷ 0 ∷ [])) (store 28 (hello ++ 0 ∷ []) (unset 1024)))

unfoldable pub ip_client : Io ℕ
unfolding ip_packet await_reply
ip_client = do
  sockfd ← perform (Call.socket Family.inet Kind.raw)
  require (is_open sockfd) "Socket creation failed"
  perform (Call.set_option sockfd "IP_HDRINCL")
  bytes ← from_option (bytes_of ip_packet (20 + 8 + 1024))
  sent ← perform (Call.sendto sockfd bytes (Address.ip_port "192.168.1.41" 8080))
  report sent "Packet sent\n"
  await_reply sockfd 1024 28

-- sockets/hw7/client.c: an Ethernet header in front of these. The fields `id` and `check` of the
-- IP header are not set before the checksum is taken: they hold what the memory held, an argument.
abbrev pub ethernet_header : List ℕ
ethernet_header = 8 ∷ 0 ∷ 39 ∷ 104 ∷ 164 ∷ 56 ∷ 8 ∷ 0 ∷ 39 ∷ 22 ∷ 163 ∷ 60 ∷ 8 ∷ 0 ∷ []

unfoldable pub frame : List ℕ → List ℕ → Option (List ℕ)
frame id stale = elim (checksum (shorts (ip_header 128 id stale))) [
  | none ↦ none
  | some check ↦ some (
      ethernet_header
      ++ ip_header 128 id (check % 256 ∷ check / 256 ∷ [])
      ++ udp_header 108
      ++ hello
      ++ replicate (100 - length hello) 0)
]

-- `ioctl`, which finds the interface, stands as an option that is set.
unfoldable pub ethernet_client : List ℕ → List ℕ → Io ℕ
unfolding frame await_reply
ethernet_client id stale = do
  sockfd ← perform (Call.socket Family.packet Kind.raw)
  require (is_open sockfd) "Socket creation failed"
  found ← perform (Call.set_option sockfd "SIOCGIFINDEX")
  elim found [ true ↦ pure tt | false ↦ perform (Call.perror "Failed to get interface index") ]
  bytes ← from_option (frame id stale)
  sent ← perform (Call.sendto sockfd bytes (Address.path "08:00:27:68:A4:38"))
  report sent "Packet sent successfully\n"
  await_reply sockfd 142 42

-- sockets/hw4/sniffer.c
unfoldable pub byte_at : Chars → ℕ → Option ℕ
byte_at b i = elim (bytes_of (drop i b) 1) [
  | none ↦ none
  | some bytes ↦ elim bytes [ [] ↦ none | c ∷ cs ↦ some c ]
]

-- `ntohs(udp_header->len) - UDP_HEADER_SIZE` as a `size_t`.
abbrev pub packet_size : ℕ → ℕ
packet_size len = (2 ^ 64 + len - 8) % 2 ^ 64

abbrev pub visible : ℕ → ℕ
visible c = if leb 32 c && leb c 126 then c else b'.'

-- A round behind `recvfrom`. An address is printed by its four bytes. What is printed of the data
-- before something undefined is not kept.
unfoldable pub sniff : Chars → Io (Unit {0})
sniff buffer = do
  first ← from_option (byte_at buffer 0)
  let udp = (first % 16) * 4
  perform (Call.say "Received UDP packet:\n" [])
  source ← from_option (bytes_of (drop 12 buffer) 4)
  perform (Call.say "Source IP: %s\n" source)
  destination ← from_option (bytes_of (drop 16 buffer) 4)
  perform (Call.say "Destination IP: %s\n" destination)
  high ← from_option (byte_at buffer (udp + 4))
  low ← from_option (byte_at buffer (udp + 5))
  let size = packet_size (256 * high + low)
  perform (Call.say "Packet data: %zu\n" (size ∷ []))
  bytes ← from_option (bytes_of (drop 28 buffer) size)
  perform (Call.say "%c" (map visible bytes))
  perform (Call.say "\n--------------------------------------------\n" [])

unfoldable pub sniff_loop : ℕ → Fd → Chars → Io ℕ
unfolding recv_into sniff
sniff_loop zero sockfd buffer = cut_off
sniff_loop (suc rounds) sockfd buffer = do
  (buffer', data_len, from) ← recv_into sockfd buffer 100
  elim data_len [
    | none ↦ (do
      perform (Call.perror "Failed to receive packets")
      perform (Call.close sockfd)
      exit 1)
    | some n ↦ (do sniff buffer'; sniff_loop rounds sockfd buffer')
  ]

unfoldable pub sniffer : ℕ → Io ℕ
unfolding sniff_loop
sniffer rounds = do
  sockfd ← perform (Call.socket Family.inet Kind.raw)
  require (is_open sockfd) "Socket creation failed"
  perform (Call.say "Raw socket created and listening for UDP packets...\n" [])
  sniff_loop rounds sockfd (unset 100)
