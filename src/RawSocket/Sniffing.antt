-- ===== src/RawSocket/Sniffing.antt =====
-- What the sniffer prints of a packet, and when it reads outside its array.
use hw.Prelude.{
  ℕ, zero, suc, ◌+◌, ◌*◌, ◌%◌, ◌^◌, ◌≤◌, ◌<◌, ◌≡◌, refl, ap, ◌∙◌, List, [], ◌∷◌, ◌++◌, none, some,
  map, arith, length, length-drop, take, drop,
}
use hw.Unix.Buffers.{Chars, fill, bytes_of, length-fill}
use hw.Unix.Runs.{Kernel, returned, undefined, run, outcome}
use hw.RawSocket.{byte_at, packet_size, visible, sniff}

bytes_before :
    (n : ℕ) (d : List ℕ) (b : Chars)
    → n ≤ length d
    → bytes_of (map (λ c. some c) d ++ b) n ≡ some (take n d)
unfolding bytes_of
bytes_before zero d b h = refl
bytes_before (suc n) [] b h = ground (arith, h)
bytes_before (suc n) (c ∷ d) b h = rw (bytes_of, bytes_before n d b (omega (arith, h))) refl

bytes_inside :
    (i n : ℕ) (d : List ℕ) (b : Chars)
    → i + n ≤ length d
    → bytes_of (drop i (map (λ c. some c) d ++ b)) n ≡ some (take n (drop i d))
bytes_inside zero n d b h = bytes_before n d b (omega (arith, h))
bytes_inside (suc i) n [] b h = ground (arith, h)
bytes_inside (suc i) n (c ∷ d) b h = bytes_inside i n d b (omega (arith, h))

-- Bytes of a datagram stored in an array are read from it.
pub bytes_of-drop :
    (i n : ℕ) (b : Chars) (d : List ℕ)
    → i + n ≤ length d
    → bytes_of (drop i (fill b d)) n ≡ some (take n (drop i d))
unfolding fill
bytes_of-drop i n b d h = bytes_inside i n d (drop (length d) b) h

bytes_outside : (b : Chars) (n : ℕ) → length b < n → bytes_of b n ≡ none
unfolding bytes_of
bytes_outside b zero h = ground (arith, h)
bytes_outside [] (suc n) h = refl
bytes_outside (none ∷ b) (suc n) h = refl
bytes_outside (some c ∷ b) (suc n) h = rw (bytes_of, bytes_outside b n (omega (arith, h))) refl

byte_at_one : (i c : ℕ) (b : Chars) → bytes_of (drop i b) 1 ≡ some (c ∷ []) → byte_at b i ≡ some c
unfolding byte_at
byte_at_one i c b e = rw (byte_at, e) refl

-- A packet of at least 28 bytes with an IP header of 20, by the length field of its UDP header.
pub record Packet (d : List ℕ) (len : ℕ) : Type 0 where
  pub first : ℕ
  pub high : ℕ
  pub low : ℕ
  pub begins : take 1 d ≡ first ∷ []
  pub ihl : first % 16 ≡ 5
  pub upper : take 1 (drop 24 d) ≡ high ∷ []
  pub lower : take 1 (drop 25 d) ≡ low ∷ []
  pub field : 256 * high + low ≡ len
  pub whole : 28 ≤ length d

module _ (k : Kernel) (n : ℕ) (b : Chars) (d : List ℕ) (len : ℕ) (p : Packet d len) where
  first_byte : byte_at (fill b d) 0 ≡ some p.first
  first_byte =
      byte_at_one 0 _ (fill b d)
        (bytes_of-drop 0 1 b d (omega (arith, p.whole)) ∙ ap (λ l. some l) p.begins)

  high_byte : byte_at (fill b d) 24 ≡ some p.high
  high_byte =
      byte_at_one 24 _ (fill b d)
        (bytes_of-drop 24 1 b d (omega (arith, p.whole)) ∙ ap (λ l. some l) p.upper)

  low_byte : byte_at (fill b d) 25 ≡ some p.low
  low_byte =
      byte_at_one 25 _ (fill b d)
        (bytes_of-drop 25 1 b d (omega (arith, p.whole)) ∙ ap (λ l. some l) p.lower)

  -- A packet whose length field is true is shown: its two addresses, the size of its data, and the
  -- data with a dot for each byte that is not a visible character.
  pub sniff_shows :
      (size : ℕ)
      → len ≡ 8 + size
      → 28 + size ≤ length d
      → size < 2 ^ 64
      → outcome (run k n (sniff (fill b d))) ≡ (
        returned tt,
        [],
        []
            ∷ take 4 (drop 12 d)
            ∷ take 4 (drop 16 d)
            ∷ (size ∷ [])
            ∷ map visible (take size (drop 28 d))
            ∷ []
            ∷ [],
      )
  unfolding run sniff
  sniff_shows size e inside small =
      let exact : packet_size (256 * p.high + p.low) ≡ size = omega (arith, e, small, p.field) in
      rw (
        run,
        first_byte,
        p.ihl,
        bytes_of-drop 12 4 b d (omega (arith, p.whole)),
        bytes_of-drop 16 4 b d (omega (arith, p.whole)),
        high_byte,
        low_byte,
        exact,
        bytes_of-drop 28 size b d inside,
      )

  -- A packet whose length field gives more data than the array has room for behind the headers, or
  -- less than the UDP header, ends in something undefined.
  pub sniff_over_reads :
      length b ≡ 100
      → length d ≤ 100
      → 72 < packet_size len
      → outcome (run k n (sniff (fill b d))) ≡ (
        undefined,
        [],
        [] ∷ take 4 (drop 12 d) ∷ take 4 (drop 16 d) ∷ (packet_size len ∷ []) ∷ [],
      )
  unfolding run sniff
  sniff_over_reads room short long =
      let behind : bytes_of (drop 28 (fill b d)) (packet_size len) ≡ none =
        bytes_outside (drop 28 (fill b d)) (packet_size len) (
          omega (
            arith,
            long,
            length-drop 28 (fill b d),
            length-fill b d (omega (arith, room, short)),
            room,
          )) in
      rw (
        run,
        first_byte,
        p.ihl,
        bytes_of-drop 12 4 b d (omega (arith, p.whole)),
        bytes_of-drop 16 4 b d (omega (arith, p.whole)),
        high_byte,
        low_byte,
        p.field,
        behind,
      )
