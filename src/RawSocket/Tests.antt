-- ===== src/RawSocket/Tests.antt =====
-- The raw-socket programs at concrete bytes.
use hw.Prelude.{ℕ, ◌+◌, ◌*◌, ◌≡◌, refl, ◌⊎◌, List, [], ◌∷◌, ◌++◌, some, arith, length}
use hw.RawSocket.{be16, shorts, checksum, ip_header, frame}
use hw.RawSocket.Frames.{header, frame_accepted}
use hw.RawSocket.Sniffing.{Packet}

frame_accepted_example :
    (bytes : List ℕ) × (frame (7 ∷ 7 ∷ []) (1 ∷ 0 ∷ []) ≡ some bytes)
    × (length bytes ≡ 142)
    × ((checksum (shorts (header bytes)) ≡ some 0) → (1 + 256 * 0 ≡ 0) ⊎ (1 + 256 * 0 ≡ 65535))
    × ((1 + 256 * 0 ≡ 0) ⊎ (1 + 256 * 0 ≡ 65535) → checksum (shorts (header bytes)) ≡ some 0)
frame_accepted_example =
    frame_accepted 7 7 1 0 (omega arith) (omega arith) (omega arith) (omega arith)

-- A header of RFC 1071's kind, and its checksum.
sample :
    checksum (17664 ∷ 60 ∷ 7238 ∷ 16384 ∷ 16390 ∷ 0 ∷ 44048 ∷ 2659 ∷ 44048 ∷ 2572 ∷ []) ≡ some 45542
unfolding checksum
sample = refl

-- A packet with this length in its UDP header.
abbrev packet : ℕ → List ℕ
packet len =
    ip_header 30 (0 ∷ 0 ∷ []) (0 ∷ 0 ∷ [])
    ++ be16 12345
    ++ be16 8080
    ++ be16 len
    ++ be16 0
    ++ 72 ∷ 7 ∷ []

ten-Packet : Packet (packet 10) 10
ten-Packet = record {
  first = 69;
  high = 0;
  low = 10;
  begins = refl;
  ihl = refl;
  upper = refl;
  lower = refl;
  field = refl;
  whole = omega arith;
}

-- A length of 3 is less than that of the header itself.
short-Packet : Packet (packet 3) 3
short-Packet = record {
  first = 69;
  high = 0;
  low = 3;
  begins = refl;
  ihl = refl;
  upper = refl;
  lower = refl;
  field = refl;
  whole = omega arith;
}
