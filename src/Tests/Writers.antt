-- ===== src/Tests/Writers.antt =====
-- Writers of two files on a disk in memory.
use learntorrent.Base.{ℕ, ◌+◌, ◌≡◌, refl, none, [], ◌∷◌, ◌==◌, if◌then◌else◌, length, arith}
use learntorrent.Base.Outcome.{ok}
use learntorrent.Io.{IoPiece, write_sub}
use learntorrent.Io.Disk.{Disk, over, store}
use learntorrent.Io.Fallback.{Writers, Work, on_piece_msg, on_piece_msg-store}

-- The files, and a cursor for each.
abbrev Memory : Type 0
Memory = Disk × (ℕ → ℕ)

abbrev moved : ℕ → ℕ → (ℕ → ℕ) → ℕ → ℕ
moved file place cursor f = if f == file then place else cursor f

abbrev in_memory : Writers Memory
in_memory = record {
  seek = λ file offset s. ok (s.0, moved file offset s.1);
  write_all_buf = λ file bs s. ok (
    (λ f x. if f == file then over (s.1 file) bs x (s.0 f x) else s.0 f x),
    moved file (s.1 file + length bs) s.1,
  );
  flush = λ file s. ok s;
}

moved_at : (file place : ℕ) (cursor : ℕ → ℕ) → moved file place cursor file ≡ place
moved_at file place cursor = ground arith

abbrev memory_work : Work in_memory
memory_work = record {
  disk = λ s. s.0;
  cursor = λ s. s.1;
  seeks = λ file offset s. (_, refl, (λ f x. refl), moved_at file offset s.1);
  writes = λ file bs s. (_, refl, (λ f x. refl), moved_at file (s.1 file + length bs) s.1);
  flushes = λ file s. (_, refl, λ f x. refl);
}

abbrev two_blocks : IoPiece
two_blocks = record {
  offset = 4;
  blocks =
      record { offset = 0; size = 2; bytes = 7 ∷ 8 ∷ [] }
      ∷ record { offset = 2; size = 1; bytes = 9 ∷ [] }
      ∷ [];
  file_index = 1;
}

abbrev blank : Memory
blank = ((λ f x. none), λ f. 0)

on_piece_msg-store_example :
    (s : Memory) × (on_piece_msg in_memory 2 two_blocks blank ≡ ok s)
    × ((f x : ℕ) → s.0 f x ≡ store (write_sub two_blocks) (λ f x. none) f x)
on_piece_msg-store_example =
    on_piece_msg-store in_memory memory_work 2 two_blocks blank (omega arith) (refl, (refl, tt))
