-- ===== src/Message/RoundTrip.antt =====
-- The decoder on what the encoder writes.
use learntorrent.Base.{
  ℕ, ◌+◌, ◌%◌, ◌^◌, ◌≤◌, ◌<◌, ◌≡◌, refl, ◌∙◌, true, false, ◌&&◌, some, List, [], ◌∷◌, ◌++◌, ltb,
  leb, ◌==◌, length, arith, length-append, take-append, drop-append,
}
use learntorrent.Base.Words.{u32_bytes, be32-u32_bytes, IsU32, sub64}
use learntorrent.Base.Outcome.{ok}
use learntorrent.Message.{
  Message, keep_alive, choke, unchoke, interested, not_interested, have, bitfield, request, piece,
  cancel,
}
use learntorrent.Message.Codec.{
  maximum_packet_size, get_u32, split_to, decode_body, decode_piece, piece_rest, decode, encode,
}

-- Messages whose fields fit their types. A bit field is not empty.
abbrev pub IsEncodable : Message → Type 0
IsEncodable (have index) = IsU32 index
IsEncodable (bitfield bits) = 0 < length bits
IsEncodable (request index begin len) = IsU32 index × IsU32 begin × IsU32 len
IsEncodable (piece index begin block) = IsU32 index × IsU32 begin
IsEncodable (cancel index begin len) = IsU32 index × IsU32 begin × IsU32 len
IsEncodable _ = Unit

pub get_u32-u32_bytes :
    (v : ℕ) (rest : List ℕ) → IsU32 v → get_u32 (u32_bytes v ++ rest) ≡ ok (v, rest)
unfolding get_u32
get_u32-u32_bytes v rest h = rw (be32-u32_bytes v h)

split_to-append : (xs rest : List ℕ) → split_to (length xs) (xs ++ rest) ≡ ok (xs, rest)
unfolding split_to
split_to-append xs rest = rw (fits, take-append xs rest, drop-append xs rest)
  where
    fits : leb (length xs) (length (xs ++ rest)) ≡ true
    fits = ground (arith, length-append xs rest)

pub small : (n : ℕ) → n < 2 ^ 32 → n % 2 ^ 32 ≡ n
small n h = omega arith

-- A complete frame, past its length and its ID.
pub decode_framed :
    (len id : ℕ) (body : List ℕ)
    → 0 < len
    → len ≤ 1 + length body
    → 5 + length body < maximum_packet_size
    → (len == 1 && leb id 3) ≡ false
    → decode (u32_bytes len ++ id ∷ body) ≡ decode_body len id body
unfolding decode
decode_framed len id body pos complete fits other =
    rw (be32-u32_bytes len (omega arith)) (ground (arith, other))

body_bitfield :
    (bits rest : List ℕ)
    → 0 < length bits
    → length bits < 2 ^ 32
    → decode_body (1 + length bits) 5 (bits ++ rest) ≡ ok (some (bitfield bits), rest)
unfolding decode_body
body_bitfield bits rest h b =
    rw (more, less (length bits) b, split_to-append bits rest) (ground (arith, h))
  where
    more : ltb 1 (1 + length bits) ≡ true
    more = ground (arith, h)

    less : (n : ℕ) → n < 2 ^ 32 → sub64 (1 + n) 1 ≡ n
    less n h = omega arith

body_request :
    (index begin len : ℕ) (rest : List ℕ)
    → IsU32 index × IsU32 begin × IsU32 len
    → decode_body 13 6 (u32_bytes index ++ (u32_bytes begin ++ (u32_bytes len ++ rest)))
      ≡ ok (some (request index begin len), rest)
unfolding decode_body
body_request index begin len rest (a, b, c) =
    rw (be32-u32_bytes index a, be32-u32_bytes begin b, be32-u32_bytes len c)

body_cancel :
    (index begin len : ℕ) (rest : List ℕ)
    → IsU32 index × IsU32 begin × IsU32 len
    → decode_body 13 8 (u32_bytes index ++ (u32_bytes begin ++ (u32_bytes len ++ rest)))
      ≡ ok (some (cancel index begin len), rest)
unfolding decode_body
body_cancel index begin len rest (a, b, c) =
    rw (be32-u32_bytes index a, be32-u32_bytes begin b, be32-u32_bytes len c)

body_piece :
    (index begin : ℕ) (block rest : List ℕ)
    → IsU32 index × IsU32 begin
    → length block < 2 ^ 32
    → decode_body (9 + length block) 7 (u32_bytes index ++ (u32_bytes begin ++ (block ++ rest)))
      ≡ ok (some (piece index begin block), rest)
unfolding decode_body
body_piece index begin block rest (a, b) h =
    unfold decode_piece piece_rest in
    rw (not_have (length block), not_request (length block))
      (rw (be32-u32_bytes index a, be32-u32_bytes begin b, less (length block) h)
        (rw (split_to-append block rest)))
  where
    not_have : (n : ℕ) → (9 + n == 5 && 7 == 4) ≡ false
    not_have n = ground arith

    not_request : (n : ℕ) → (9 + n == 13 && 7 == 6) ≡ false
    not_request n = ground arith

    less : (n : ℕ) → n < 2 ^ 32 → sub64 (9 + n) 9 ≡ n
    less n h = omega arith

-- A message whose fields fit their types, and whose bit field is not empty, is read back off the
-- front of a buffer below the maximum packet size, and what follows it is left.
pub decode-encode :
    (msg : Message) (rest : List ℕ)
    → IsEncodable msg
    → length (encode msg [] ++ rest) < maximum_packet_size
    → decode (encode msg [] ++ rest) ≡ ok (some msg, rest)
unfolding decode encode
decode-encode keep_alive rest e h = ground (arith, e)
decode-encode choke rest e h = ground (arith, e)
decode-encode unchoke rest e h = ground (arith, e)
decode-encode interested rest e h = ground (arith, e)
decode-encode not_interested rest e h = ground (arith, e)
decode-encode (have index) rest e h = ground (arith, e)
decode-encode (bitfield bits) rest e h =
    let len = length-append bits rest in
    rw (small (1 + length bits) (omega (arith, len))) (
      decode_framed (1 + length bits) 5 (bits ++ rest) (omega arith) (omega (arith, len))
        (omega (arith, len)) (ground (arith, e))
      ∙ body_bitfield bits rest e (omega (arith, len)))
decode-encode (request index begin len) rest e h =
    decode_framed 13 6 (u32_bytes index ++ (u32_bytes begin ++ (u32_bytes len ++ rest)))
      (omega arith) (omega arith) (omega arith) refl
    ∙ body_request index begin len rest e
decode-encode (piece index begin block) rest e h =
    let len = length-append block rest in
    rw (small (9 + length block) (omega (arith, len))) (
      decode_framed (9 + length block) 7 (u32_bytes index ++ (u32_bytes begin ++ (block ++ rest)))
        (omega arith) (omega (arith, len)) (omega (arith, len)) (ground arith)
      ∙ body_piece index begin block rest e (omega (arith, len)))
decode-encode (cancel index begin len) rest e h =
    decode_framed 13 8 (u32_bytes index ++ (u32_bytes begin ++ (u32_bytes len ++ rest)))
      (omega arith) (omega arith) (omega arith) refl
    ∙ body_cancel index begin len rest e
