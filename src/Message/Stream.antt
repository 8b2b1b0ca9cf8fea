-- ===== src/Message/Stream.antt =====
-- The decoder on a buffer that is filled piecemeal, and on frames that a peer makes up.
use learntorrent.Base.{
  ℕ, ◌+◌, ◌≤◌, ◌<◌, ◌≡◌, refl, ◌∙◌, Bool, true, false, ◌&&◌, List, [], ◌∷◌, ltb, leb, ◌==◌, length,
  arith,
}
use learntorrent.Base.Words.{be32, sub64}
use learntorrent.Base.Outcome.{panicked}
use learntorrent.Message.{Message}
use learntorrent.Message.Codec.{
  maximum_packet_size, get_u32, decode_piece, piece_rest, split_to, decode_body, decode_id,
  decode_len, decode,
}

-- The decoder past the length, and past the ID.
decode_past_len :
    (a b c d len : ℕ) (rest : List ℕ)
    → be32 a b c d ≡ len
    → 0 < len
    → 4 + length rest < maximum_packet_size
    → decode (a ∷ b ∷ c ∷ d ∷ rest) ≡ decode_id (a ∷ b ∷ c ∷ d ∷ rest) len rest
unfolding decode
decode_past_len a b c d len rest e pos fits =
    rw (e, decode_len) (unfold decode_id in ground (arith))

decode_id_past :
    (src : List ℕ) (len id : ℕ) (body : List ℕ)
    → 3 < id
    → len + 4 ≤ length src
    → decode_id src len (id ∷ body) ≡ decode_body len id body
unfolding decode_id
decode_id_past src len id body pos full =
    rw (not_plain len id pos, ltb-≥ (length src) (len + 4) full)
  where
    not_plain : (len id : ℕ) → 3 < id → (len == 1 && leb id 3) ≡ false
    not_plain len id pos = ground arith

    ltb-≥ : (m n : ℕ) → n ≤ m → ltb m n ≡ false
    ltb-≥ m n h = ground arith

-- A complete frame for a piece message that is too short for its two numbers.
abbrev pub short_piece : List ℕ → Bool
short_piece (a ∷ b ∷ c ∷ d ∷ id ∷ body) =
    let len = be32 a b c d in
    (id == 7 && (ltb 0 len && ltb len 9))
    && (leb len (1 + length body) && ltb (5 + length body) maximum_packet_size)
short_piece _ = false

split_to_short :
    (len : ℕ) (src : List ℕ)
    → len < 9
    → length src < maximum_packet_size
    → split_to (sub64 len 9) src ≡ panicked
unfolding split_to
split_to_short len src h fits = rw (too_long len (length src) h fits)
  where
    too_long : (len n : ℕ) → len < 9 → n < maximum_packet_size → leb (sub64 len 9) n ≡ false
    too_long len n h fits = ground arith

piece_begin_short :
    (index len : ℕ) (src : List ℕ)
    → len < 9
    → length src < maximum_packet_size
    → piece_rest index len src ≡ panicked
unfolding piece_rest get_u32
piece_begin_short index len [] h fits = refl
piece_begin_short index len (a ∷ []) h fits = refl
piece_begin_short index len (a ∷ b ∷ []) h fits = refl
piece_begin_short index len (a ∷ b ∷ c ∷ []) h fits = refl
piece_begin_short index len (a ∷ b ∷ c ∷ d ∷ rest) h fits =
    rw (split_to_short len rest h (omega arith))

decode_piece_short :
    (len : ℕ) (src : List ℕ)
    → len < 9
    → length src < maximum_packet_size
    → decode_piece len src ≡ panicked
unfolding decode_piece get_u32
decode_piece_short len [] h fits = refl
decode_piece_short len (a ∷ []) h fits = refl
decode_piece_short len (a ∷ b ∷ []) h fits = refl
decode_piece_short len (a ∷ b ∷ c ∷ []) h fits = refl
decode_piece_short len (a ∷ b ∷ c ∷ d ∷ rest) h fits =
    piece_begin_short (be32 a b c d) len rest h (omega arith)

body_short :
    (len id : ℕ) (src : List ℕ)
    → id ≡ 7
    → len < 9
    → length src < maximum_packet_size
    → decode_body len id src ≡ panicked
body_short len id src e h fits = rw e (body_seven len ∙ decode_piece_short len src h fits)
  where
    not_have : (len : ℕ) → (len == 5 && 7 == 4) ≡ false
    not_have len = ground arith

    not_request : (len : ℕ) → (len == 13 && 7 == 6) ≡ false
    not_request len = ground arith

    body_seven : (len : ℕ) → decode_body len 7 src ≡ decode_piece len src
    body_seven len = unfold decode_body in rw (not_have len, not_request len) refl

-- On a buffer below the maximum packet size that starts with a complete frame of a piece message
-- of length below 9, too short for its two numbers, the decoder panics, whatever follows.
pub decode-short_piece : (src : List ℕ) → short_piece src ≡ true → decode src ≡ panicked
decode-short_piece (a ∷ b ∷ c ∷ d ∷ id ∷ body) h =
    decode_past_len a b c d (be32 a b c d) (id ∷ body) refl (ground (arith, h)) (ground (arith, h))
    ∙ (decode_id_past (a ∷ b ∷ c ∷ d ∷ id ∷ body) (be32 a b c d) id body (ground (arith, h))
          (ground (arith, h))
        ∙ body_short (be32 a b c d) id body (ground (arith, h)) (ground (arith, h))
            (ground (arith, h)))
decode-short_piece _ h = cc
