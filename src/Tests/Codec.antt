-- ===== src/Tests/Codec.antt =====
-- The codec of the peer protocol.
use learntorrent.Base.{refl, arith, some, ◌≡◌, ◌++◌, [], ◌∷◌}
use learntorrent.Base.Outcome.{ok, panicked}
use learntorrent.Message.{piece}
use learntorrent.Message.Codec.{encode, decode}
use learntorrent.Message.RoundTrip.{decode-encode}
use learntorrent.Message.Stream.{decode-short_piece}

decode-encode_example :
    decode (encode (piece 1 2 (7 ∷ 8 ∷ [])) [] ++ 0 ∷ 0 ∷ [])
    ≡ ok (some (piece 1 2 (7 ∷ 8 ∷ [])), 0 ∷ 0 ∷ [])
unfolding encode
decode-encode_example =
    decode-encode (piece 1 2 (7 ∷ 8 ∷ [])) (0 ∷ 0 ∷ []) (omega arith, omega arith) (omega arith)

decode-short_piece_example : decode (0 ∷ 0 ∷ 0 ∷ 1 ∷ 7 ∷ []) ≡ panicked
decode-short_piece_example = decode-short_piece (0 ∷ 0 ∷ 0 ∷ 1 ∷ 7 ∷ []) refl
