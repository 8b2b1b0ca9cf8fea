-- ===== src/Message/Codec.antt =====
-- `encode` and `decode` of `MessageCodec`.
use learntorrent.Base.{
  ℕ, ◌+◌, ◌%◌, ◌^◌, ◌&&◌, Option, none, some, List, [], ◌∷◌, ◌++◌, ltb, leb, ◌==◌, if◌then◌else◌,
  length, take, drop,
}
use learntorrent.Base.Words.{u32_bytes, be32, sub64}
use learntorrent.Base.Outcome.{Outcome, ok, err, panicked, ◌>>=◌}
use learntorrent.PeerErr.{
  MessageDecodeErr, invalid_message, port_unimplemented, maximum_size_exceeded,
}
use learntorrent.Message.{
  Message, keep_alive, choke, unchoke, interested, not_interested, have, bitfield, request, piece,
  cancel,
}

abbrev pub maximum_packet_size : ℕ
maximum_packet_size = 1048576

-- The decoder's result, with the bytes that are left in the buffer. After an error the session ends.
abbrev pub Decoded : Type 0
Decoded = Outcome MessageDecodeErr (Option Message × List ℕ)

abbrev pub Reader : Type 0 → Type 0
Reader A = List ℕ → Outcome MessageDecodeErr (A × List ℕ)

-- `get_u32` and `split_to` panic when the buffer is too short.
unfoldable pub get_u32 : Reader ℕ
get_u32 (a ∷ b ∷ c ∷ d ∷ rest) = ok (be32 a b c d, rest)
get_u32 _ = panicked

unfoldable pub split_to : ℕ → Reader (List ℕ)
split_to n src = if leb n (length src) then ok (take n src, drop n src) else panicked

decode_have : List ℕ → Decoded
unfolding get_u32
decode_have src = do (index, rest) ← get_u32 src; ok (some (have index), rest)

decode_bitfield : ℕ → List ℕ → Decoded
unfolding split_to
decode_bitfield len src = do
  (bits, rest) ← split_to (sub64 len 1) src
  ok (some (bitfield bits), rest)

decode_range : (ℕ → ℕ → ℕ → Message) → List ℕ → Decoded
unfolding get_u32
decode_range message src = do
  (index, src₁) ← get_u32 src
  (begin, src₂) ← get_u32 src₁
  (len, src₃) ← get_u32 src₂
  ok (some (message index begin len), src₃)

-- After the index: `begin` and the block.
unfoldable pub piece_rest : ℕ → ℕ → List ℕ → Decoded
unfolding get_u32 split_to
piece_rest index len src = do
  (begin, src₁) ← get_u32 src
  (block, src₂) ← split_to (sub64 len 9) src₁
  ok (some (piece index begin block), src₂)

unfoldable pub decode_piece : ℕ → List ℕ → Decoded
unfolding get_u32
decode_piece len src = do (index, src₁) ← get_u32 src; piece_rest index len src₁

-- The inner `match (len, id)`, on the bytes after the ID.
unfoldable pub decode_body : ℕ → ℕ → List ℕ → Decoded
unfolding decode_have decode_bitfield decode_range
decode_body len id src =
    if len == 5 && id == 4
    then decode_have src
    else if id == 5 && ltb 1 len
    then decode_bitfield len src
    else if len == 13 && id == 6
    then decode_range request src
    else if id == 7
    then decode_piece len src
    else if len == 13 && id == 8
    then decode_range cancel src
    else if len == 3 && id == 9
    then err port_unimplemented
    else err (invalid_message len id)

-- The messages of one byte, by ID at most 3.
abbrev pub plain : ℕ → Message
plain id =
    if id == 0
    then choke
    else if id == 1
    then unchoke
    else if id == 2
    then interested
    else not_interested

-- `src` is the whole buffer, and the last argument what follows the length.
unfoldable pub decode_id : List ℕ → ℕ → List ℕ → Decoded
unfolding decode_body
decode_id src len [] = ok (none, src)
decode_id src len (id ∷ body) =
    if len == 1 && leb id 3
    then ok (some (plain id), body)
    else if ltb (length src) (len + 4)
    then ok (none, src)
    else decode_body len id body

unfoldable pub decode_len : List ℕ → Decoded
unfolding decode_id
decode_len (a ∷ b ∷ c ∷ d ∷ rest) =
    let len = be32 a b c d in
    if len == 0 then ok (some keep_alive, rest) else decode_id (a ∷ b ∷ c ∷ d ∷ rest) len rest
decode_len src = ok (none, src)

unfoldable pub decode : List ℕ → Decoded
unfolding decode_len
decode src =
    if leb maximum_packet_size (length src) then err maximum_size_exceeded else decode_len src

-- `len as u32` before `put_u32`.
abbrev put_len : ℕ → List ℕ
put_len len = u32_bytes (len % 2 ^ 32)

abbrev pub encoding : Message → List ℕ
encoding keep_alive = u32_bytes 0
encoding choke = u32_bytes 1 ++ 0 ∷ []
encoding unchoke = u32_bytes 1 ++ 1 ∷ []
encoding interested = u32_bytes 1 ++ 2 ∷ []
encoding not_interested = u32_bytes 1 ++ 3 ∷ []
encoding (have index) = u32_bytes 5 ++ 4 ∷ u32_bytes index
encoding (bitfield bits) = put_len (1 + length bits) ++ 5 ∷ bits
encoding (request index begin len) =
    u32_bytes 13 ++ 6 ∷ (u32_bytes index ++ (u32_bytes begin ++ u32_bytes len))
encoding (piece index begin block) =
    put_len (9 + length block) ++ 7 ∷ (u32_bytes index ++ (u32_bytes begin ++ block))
encoding (cancel index begin len) =
    u32_bytes 13 ++ 8 ∷ (u32_bytes index ++ (u32_bytes begin ++ u32_bytes len))

-- The encoder appends to `dst`, and does not fail.
unfoldable pub encode : Message → List ℕ → List ℕ
encode msg dst = dst ++ encoding msg
