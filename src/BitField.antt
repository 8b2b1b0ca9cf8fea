-- ===== src/BitField.antt =====
-- src/piece_keeper/bitfield.rs: which pieces a peer has, one bit to a piece, highest bit first.
pub mod Laws
use learntorrent.Base.{
  ℕ, ◌/◌, ◌%◌, ◌^◌, bit_and, bit_or, Bool, not, List, ◌==◌, get_elem?, set, replicate,
}
use learntorrent.Base.Outcome.{Outcome, ok, expect, ◌>>=◌}
use learntorrent.Base.Float.{bytes_for}

-- The struct's one field, `inner`.
abbrev pub BitField : Type 0
BitField = List ℕ

-- Code that returns no error and may panic.
abbrev pub Panics {ℓ} : Type ℓ → Type ℓ
Panics A = Outcome ⊥ A

unfoldable pub new_empty : ℕ → BitField
unfolding bytes_for
new_empty num_pieces = replicate (bytes_for num_pieces) 0

-- `128u8 >> (id % 8)`
unfoldable pub byte_mask : ℕ → ℕ
byte_mask id = 128 / 2 ^ (id % 8)

-- "Piece index out of bounds" is a panic.
unfoldable pub has_piece : BitField → ℕ → Panics Bool
unfolding byte_mask
has_piece inner id = do
  byte ← expect (get_elem? inner (id / 8))
  ok (not (bit_and byte (byte_mask id) == 0))

unfoldable pub set_piece : BitField → ℕ → Panics BitField
unfolding byte_mask
set_piece inner id = do
  byte ← expect (get_elem? inner (id / 8))
  ok (set inner (id / 8) (bit_or byte (byte_mask id)))
