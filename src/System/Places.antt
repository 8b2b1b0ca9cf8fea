-- ===== src/System/Places.antt =====
-- The list of the tasks, by their IDs.
use learntorrent.Base.{
  ℕ, zero, suc, ◌<◌, ◌≡◌, refl, false, some, List, [], ◌∷◌, ◌++◌, ◌==◌, arith, length, get_or,
  get_elem?, set, All,
}
use learntorrent.PieceKeeper.{Sent, to_io, io_exit, complete}
use learntorrent.System.{Task, modify, deliver}
use learntorrent.System.Keeper.{IsSilent}

module _ (d : Task) where
  pub get_elem?-get_or :
      (ts : List Task) (i : ℕ) (t : Task) → get_elem? ts i ≡ some t → get_or ts i d ≡ t
  get_elem?-get_or [] i t h = absurd (cc h)
  get_elem?-get_or (x ∷ ts) zero t h = cc h
  get_elem?-get_or (x ∷ ts) (suc i) t h = get_elem?-get_or ts i t h

  pub get_or-set_same :
      (ts : List Task) (i : ℕ) (t v : Task) → get_elem? ts i ≡ some t → get_or (set ts i v) i d ≡ v
  get_or-set_same [] i t v h = absurd (cc h)
  get_or-set_same (x ∷ ts) zero t v h = refl
  get_or-set_same (x ∷ ts) (suc i) t v h = get_or-set_same ts i t v h

  pub get_or-set_other :
      (ts : List Task) (i j : ℕ) (v : Task)
      → (i == j) ≡ false
      → get_or (set ts i v) j d ≡ get_or ts j d
  get_or-set_other [] i j v h = refl
  get_or-set_other (x ∷ ts) zero zero v h = absurd (ground (arith, h))
  get_or-set_other (x ∷ ts) zero (suc j) v h = refl
  get_or-set_other (x ∷ ts) (suc i) zero v h = refl
  get_or-set_other (x ∷ ts) (suc i) (suc j) v h = get_or-set_other ts i j v (ground (arith, h))

  pub get_or-modify_same :
      (ts : List Task) (i : ℕ) (f : Task → Task)
      → i < length ts
      → get_or (modify i f ts) i d ≡ f (get_or ts i d)
  unfolding modify
  get_or-modify_same [] i f h = absurd (omega arith)
  get_or-modify_same (x ∷ ts) zero f h = refl
  get_or-modify_same (x ∷ ts) (suc i) f h = get_or-modify_same ts i f (omega arith)

  pub get_or-modify_other :
      (ts : List Task) (i j : ℕ) (f : Task → Task)
      → (i == j) ≡ false
      → get_or (modify i f ts) j d ≡ get_or ts j d
  unfolding modify
  get_or-modify_other [] i j f h = refl
  get_or-modify_other (x ∷ ts) zero zero f h = absurd (ground (arith, h))
  get_or-modify_other (x ∷ ts) zero (suc j) f h = refl
  get_or-modify_other (x ∷ ts) (suc i) zero f h = refl
  get_or-modify_other (x ∷ ts) (suc i) (suc j) f h =
      get_or-modify_other ts i j f (ground (arith, h))

  pub get_or-snoc_last : (ts : List Task) (v : Task) → get_or (ts ++ v ∷ []) (length ts) d ≡ v
  get_or-snoc_last [] v = refl
  get_or-snoc_last (x ∷ ts) v = get_or-snoc_last ts v

  pub get_or-snoc_other :
      (ts : List Task) (j : ℕ) (v : Task)
      → (length ts == j) ≡ false
      → get_or (ts ++ v ∷ []) j d ≡ get_or ts j d
  get_or-snoc_other [] zero v h = absurd (ground (arith, h))
  get_or-snoc_other [] (suc j) v h = refl
  get_or-snoc_other (x ∷ ts) zero v h = refl
  get_or-snoc_other (x ∷ ts) (suc j) v h = get_or-snoc_other ts j v (ground (arith, h))

  pub get_or_past : (ts : List Task) → get_or ts (length ts) d ≡ d
  get_or_past [] = refl
  get_or_past (x ∷ ts) = get_or_past ts

  -- A place that does not look like the default is in the list.
  pub place_lem :
      (w : Task → ℕ) (ts : List Task) (i : ℕ) → w d ≡ 0 → 0 < w (get_or ts i d) → i < length ts
  place_lem w [] i z h = absurd (omega (arith, z, h))
  place_lem w (x ∷ ts) zero z h = omega arith
  place_lem w (x ∷ ts) (suc i) z h = omega (arith, place_lem w ts i z h)

pub deliver_silent : (sent : List Sent) (ts : List Task) → All IsSilent sent → deliver sent ts ≡ ts
unfolding deliver
deliver_silent [] ts a = refl
deliver_silent (to_io vp ∷ sent) ts (o, a) = deliver_silent sent ts a
deliver_silent (io_exit ∷ sent) ts (o, a) = deliver_silent sent ts a
deliver_silent (complete ∷ sent) ts (o, a) = deliver_silent sent ts a
deliver_silent (_ ∷ sent) ts (o, a) = absurd o
