-- ===== src/RawSocket/Frames.antt =====
-- What the clients of sockets/hw5 to hw7 send.
use hw.Prelude.{
  ℕ, ◌+◌, ◌-◌, ◌*◌, ◌/◌, ◌%◌, ◌≤◌, ◌<◌, ◌≡◌, refl, ap, ◌⊎◌, List, [], ◌∷◌, ◌++◌, none, some, arith,
  length, take, drop, replicate,
}
use hw.Unix.Calls.{Family, Kind, Call}
use hw.Unix.Buffers.{unset, bytes_of}
use hw.Unix.Runs.{Kernel, undefined, run, outcome}
use hw.RawSocket.{
  shorts, sum, checksum, udp_header, ip_header, hello, store, udp_packet, ip_packet, ip_client,
  ethernet_header, frame,
}
use hw.RawSocket.Checksum.{AreShorts, checksum_total, checksum_accepts, checksum_refuses}

udp_bytes : bytes_of udp_packet 30 ≡ some (udp_header 30 ++ hello)
unfolding udp_packet store unset bytes_of
udp_bytes = refl

too_short : bytes_of ip_packet 1052 ≡ none
unfolding ip_packet store unset bytes_of
too_short = refl

-- Where it gets its socket, the client of hw6 sends nothing: it reads behind its packet.
pub ip_client-undefined :
    (k : Kernel) {fd : ℕ}
    → k 0 (Call.socket Family.inet Kind.raw) ≡ some fd
    → outcome (run k 0 ip_client) ≡ (undefined, [], [])
unfolding run ip_client
ip_client-undefined k opened = rw (run, opened, too_short)

-- The header in a frame, by its fields.
abbrev pub header : List ℕ → List ℕ
header bytes = take 20 (drop 14 bytes)

-- The shorts of the header before and behind the field for the checksum.
abbrev before : ℕ → ℕ → List ℕ
before a b = shorts (69 ∷ 0 ∷ 0 ∷ 128 ∷ a ∷ b ∷ 0 ∷ 0 ∷ 255 ∷ 17 ∷ [])

abbrev after : List ℕ
after = shorts (192 ∷ 168 ∷ 1 ∷ 37 ∷ 192 ∷ 168 ∷ 1 ∷ 41 ∷ [])

header_shorts :
    (a b c d : ℕ)
    → shorts (ip_header 128 (a ∷ b ∷ []) (c ∷ d ∷ [])) ≡ before a b ++ (c + 256 * d) ∷ after
unfolding shorts
header_shorts a b c d = refl

header-AreShorts : (a b x : ℕ) → a < 256 → b < 256 → x < 65536 → AreShorts (before a b ++ x ∷ after)
unfolding shorts
header-AreShorts a b x ha hb hx = omega (arith, ha, hb, hx)

header_short : (a b x : ℕ) → length (before a b ++ x ∷ after) ≤ 10
unfolding shorts
header_short a b x = omega arith

header_set : (a b : ℕ) → 0 < sum (before a b ++ after)
unfolding shorts sum
header_set a b = omega arith

-- A frame with these bytes for the checksum.
abbrev made : ℕ → ℕ → ℕ → List ℕ
made a b k =
    ethernet_header
    ++ ip_header 128 (a ∷ b ∷ []) (k % 256 ∷ k / 256 ∷ [])
    ++ udp_header 108
    ++ hello
    ++ replicate (100 - length hello) 0

shorts-made : (a b k : ℕ) → shorts (header (made a b k)) ≡ before a b ++ k ∷ after
unfolding shorts
shorts-made a b k =
    let e : k % 256 + 256 * (k / 256) ≡ k = omega arith in ap (λ w. before a b ++ w ∷ after) e

frame-made :
    (a b c d k : ℕ)
    → checksum (before a b ++ (c + 256 * d) ∷ after) ≡ some k
    → frame (a ∷ b ∷ []) (c ∷ d ∷ []) ≡ some (made a b k)
unfolding frame
frame-made a b c d k e = rw (frame, header_shorts a b c d, e) refl

-- A frame is of 142 bytes, and a receiver accepts the IP header in it exactly where the memory of
-- the field for the checksum held zero or all ones before.
pub frame_accepted :
    (a b c d : ℕ)
    → a < 256
    → b < 256
    → c < 256
    → d < 256
    → (bytes : List ℕ) × (frame (a ∷ b ∷ []) (c ∷ d ∷ []) ≡ some bytes)
      × (length bytes ≡ 142)
      × ((checksum (shorts (header bytes)) ≡ some 0) → (c + 256 * d ≡ 0) ⊎ (c + 256 * d ≡ 65535))
      × ((c + 256 * d ≡ 0) ⊎ (c + 256 * d ≡ 65535) → checksum (shorts (header bytes)) ≡ some 0)
frame_accepted a b c d ha hb hc hd =
    let x = c + 256 * d in
    let bound = header-AreShorts a b x ha hb (omega (arith, hc, hd)) in
    let (k, e, _, _, _, _, _) =
      checksum_total (before a b ++ x ∷ after) bound (header_short a b x) in
    (
      made a b k,
      frame-made a b c d k e,
      refl,
      rw (shorts-made a b k) (checksum_refuses (before a b) after x k bound (header_short a b x) e),
      rw (shorts-made a b k)
          (checksum_accepts (before a b) after x k bound (header_short a b x) e (header_set a b)),
    )
