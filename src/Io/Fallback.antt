-- ===== src/Io/Fallback.antt =====
-- src/io/fallback.rs: the writes of a piece on systems other than Linux.
use learntorrent.Base.{
  ℕ, ◌+◌, ◌≡◌, ◌<◌, refl, sym, ap, ◌∙◌, List, [], ◌∷◌, ltb, lt→ltb, ◌==◌, if◌then◌else◌, length,
  All, Bool-cases, inl, inr,
}
use learntorrent.Base.Outcome.{Outcome, ok, panicked, ◌>>=◌}
use learntorrent.PieceTracker.{CompletedBlockRequest, contents}
use learntorrent.Io.{IoErr, IoPiece, write_sub}
use learntorrent.Io.Cut.{Sized}
use learntorrent.Io.Disk.{Disk, over, store, over-append, over_nothing, gathered-iovec}

-- The calls on the writer of a file, which is named by its index.
pub record Writers (S : Type 0) : Type 0 where
  pub seek : ℕ → ℕ → S → Outcome IoErr S
  pub write_all_buf : ℕ → List ℕ → S → Outcome IoErr S
  pub flush : ℕ → S → Outcome IoErr S

module _ {S : Type 0} (writers : Writers S) (files : ℕ) where
  unfoldable pub write_blocks : ℕ → List CompletedBlockRequest → S → Outcome IoErr S
  write_blocks file [] s = ok s
  write_blocks file (b ∷ blocks) s = do
    s' ← writers.write_all_buf file b.bytes s
    write_blocks file blocks s'

  unfoldable pub on_piece_msg : IoPiece → S → Outcome IoErr S
  unfolding write_blocks
  on_piece_msg p s =
      if ltb p.file_index files
      then (do
        s₁ ← writers.seek p.file_index p.offset s
        s₂ ← write_blocks p.file_index p.blocks s₁
        writers.flush p.file_index s₂)
      else panicked

-- Writers that never fail: what the files hold, and where the next byte of each goes to.
pub record Work {S : Type 0} (writers : Writers S) : Type 0 where
  pub disk : S → Disk
  pub cursor : S → ℕ → ℕ
  pub seeks :
      (file offset : ℕ) (s : S)
      → (s' : S) × (writers.seek file offset s ≡ ok s')
        × ((f x : ℕ) → disk s' f x ≡ disk s f x)
        × (cursor s' file ≡ offset)
  pub writes :
      (file : ℕ) (bs : List ℕ) (s : S)
      → (s' : S) × (writers.write_all_buf file bs s ≡ ok s')
        × ((f x : ℕ)
            → disk s' f x
              ≡ (if f == file then over (cursor s file) bs x (disk s f x) else disk s f x))
        × (cursor s' file ≡ cursor s file + length bs)
  pub flushes :
      (file : ℕ) (s : S)
      → (s' : S) × (writers.flush file s ≡ ok s') × ((f x : ℕ) → disk s' f x ≡ disk s f x)

module _ {S : Type 0} (writers : Writers S) (work : Work writers) (files : ℕ) where
  write_blocks_lem :
      (file : ℕ) (blocks : List CompletedBlockRequest) (s : S)
      → (s' : S) × (write_blocks writers files file blocks s ≡ ok s')
        × ((f x : ℕ)
            → work.disk s' f x ≡ (
                if f == file
                then over (work.cursor s file) (contents blocks) x (work.disk s f x)
                else work.disk s f x))
  unfolding write_blocks contents
  write_blocks_lem file [] s = (
    s,
    refl,
    λ f x. elim (Bool-cases (f == file)) [
      | inl e ↦ rw e (sym (over_nothing (work.cursor s file) x _))
      | inr e ↦ rw e refl
    ],
  )
  write_blocks_lem file (b ∷ blocks) s =
      let (s₁, e₁, d₁, c₁) = work.writes file b.bytes s in
      let (s₂, e₂, d₂) = write_blocks_lem file blocks s₁ in
      (
        s₂,
        rw e₁ e₂,
        λ f x. d₂ f x ∙ elim (Bool-cases (f == file)) [
          | inl e ↦ rw e (
              ap (λ k. over k (contents blocks) x (work.disk s₁ f x)) c₁
              ∙ ap (over (work.cursor s file + length b.bytes) (contents blocks) x)
                  (d₁ f x ∙ rw e refl)
              ∙ sym (over-append (work.cursor s file) b.bytes (contents blocks) x _))
          | inr e ↦ rw e (d₁ f x ∙ rw e refl)
        ],
      )

  -- With writers that never fail, a part of a piece, whose blocks are as long as they say, and
  -- whose file there is, is written without an error, and leaves in the files just what the write
  -- that is submitted on Linux stores in them.
  pub on_piece_msg-store :
      (p : IoPiece) (s : S)
      → p.file_index < files
      → All Sized p.blocks
      → (s' : S) × (on_piece_msg writers files p s ≡ ok s')
        × ((f x : ℕ) → work.disk s' f x ≡ store (write_sub p) (work.disk s) f x)
  unfolding on_piece_msg
  on_piece_msg-store p s h sized =
      let (s₁, e₁, d₁, c₁) = work.seeks p.file_index p.offset s in
      let (s₂, e₂, d₂) = write_blocks_lem p.file_index p.blocks s₁ in
      let (s₃, e₃, d₃) = work.flushes p.file_index s₂ in
      (
        s₃,
        rw (lt→ltb p.file_index files h) (rw e₁ (rw e₂ e₃)),
        λ f x. d₃ f x ∙ d₂ f x ∙ rw (c₁, d₁ f x, gathered-iovec p.blocks sized) refl,
      )
