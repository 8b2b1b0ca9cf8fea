-- ===== src/Bencoding/Total.antt =====
-- The parser's loops, and the levels of a value.
use learntorrent.Base.{
  ◌-◌, ◌⊎◌, ℕ, zero, suc, ◌+◌, ◌≤◌, ◌<◌, ◌≡◌, refl, Option, none, some, List, [], ◌∷◌, ltb, ◌==◌,
  length, arith, Bool-cases, Option-cases, inl, inr,
}
use learntorrent.Base.Text.{is_digit, is_utf8}
use learntorrent.Base.Outcome.{ok, err, panicked, ◌>>=◌}
use learntorrent.BeValue.{BeValue, Entries, str, int, nil, cons, end, entry, get}
use learntorrent.Bencoding.{
  max_nesting_depth, key_of, insert, BeDecodeErr, Parser, Read, peek, parse_items, add,
  parse_entries, parse_list, parse_dict, parse_tagged, parse_value, parse_with,
}
use learntorrent.Bencoding.Reads.{
  depth, items_depth, entries_depth, Reads, failed, crashed, done, bind, weaken, widen, step, after,
  skip-Moves, parse_int-Reads, parse_str-Reads,
}

-- `parse` reads a value of depth `bound` at most, wherever it is called.
abbrev ReadsValue : ℕ → (Parser → Read BeValue) → Type 0
ReadsValue bound parse = (p : Parser) → Reads 1 p (λ v. depth v ≤ bound) (parse p)

module _ (bound : ℕ) (parse : Parser → Read BeValue) (reads : ReadsValue bound parse) where
  parse_items-Reads :
      (rounds : ℕ) (xs : List ℕ) (n : ℕ)
      → length xs < rounds
      → Reads 1
          (record { rest = xs; pos = n })
          (λ vs. items_depth vs ≤ bound)
          (parse_items parse rounds (record { rest = xs; pos = n }))
  unfolding parse_items depth
  parse_items-Reads zero xs n h = absurd (omega arith)
  parse_items-Reads (suc rounds) [] n h = failed _
  parse_items-Reads (suc rounds) (b ∷ xs) n h = elim (Bool-cases (b == b'e')) [
    | inl e ↦
        rw (e, parse_items)
          (done nil (record { rest = xs; pos = n + 1 }) (omega arith) (omega arith) (omega arith))
    | inr e ↦
        rw (e, parse_items)
          (weaken 2 1 _ (omega arith) (
            bind _ 1 1 (record { rest = b ∷ xs; pos = n })
              (reads (record { rest = b ∷ xs; pos = n }))
              (λ v p₁ d m.
                step (λ vs. cons v vs) (λ vs. items_depth vs ≤ bound) 1 p₁
                  (parse_items-Reads rounds p₁.rest p₁.pos (omega arith)) (λ vs ds. omega arith))))
  ]

  entries_depth-add :
      (k : List ℕ) (v : BeValue) (vals : Entries)
      → depth v ≤ bound
      → entries_depth vals ≤ bound
      → entries_depth (add k v vals) ≤ bound
  unfolding depth
  entries_depth-add k v end d ds = omega arith
  entries_depth-add k v (entry k' v' vals) d ds = omega (arith, entries_depth-add k v vals)

  -- A round of the loop, given the rounds after it.
  module _ (rounds : ℕ) (vals : Entries) (d : entries_depth vals ≤ bound)
      (more : (vals' : Entries) (p : Parser)
        → entries_depth vals' ≤ bound
        → length p.rest < rounds
        → Reads 1 p (λ vs. entries_depth vs ≤ bound) (parse_entries parse rounds vals' p)) where
    inserted :
        (key : List ℕ) (v : BeValue) (p : Parser)
        → depth v ≤ bound
        → length p.rest < rounds
        → Reads 1 p
            (λ vs. entries_depth vs ≤ bound)
            (insert key v vals >>= λ vals'. parse_entries parse rounds vals' p)
    inserted key v p dv m = elim (Option-cases (get vals key)) [
      | inl e ↦ rw (e, insert) (more (add key v vals) p (entries_depth-add key v vals dv d) m)
      | inr (old, e) ↦ rw (e, insert) (failed _)
    ]

    keyed :
        (s : List ℕ) (p : Parser)
        → length p.rest < rounds
        → Reads 1 p
            (λ vs. entries_depth vs ≤ bound)
            (key_of s >>= λ key. parse p >>= λ r.
              insert key r.0 vals >>= λ vals'. parse_entries parse rounds vals' r.1)
    keyed s p m = elim (Bool-cases (is_utf8 s)) [
      | inl e ↦ rw e (
          weaken 2 1 p (omega arith)
            (bind _ 1 1 p (reads p) (λ v p₂ dv m'. inserted s v p₂ dv (omega arith))))
      | inr e ↦ rw e (failed _)
    ]

  parse_entries-Reads :
      (rounds : ℕ) (vals : Entries) (xs : List ℕ) (n : ℕ)
      → length xs < rounds
      → entries_depth vals ≤ bound
      → Reads 1
          (record { rest = xs; pos = n })
          (λ vs. entries_depth vs ≤ bound)
          (parse_entries parse rounds vals (record { rest = xs; pos = n }))
  unfolding parse_entries
  parse_entries-Reads zero vals xs n h d = absurd (omega arith)
  parse_entries-Reads (suc rounds) vals [] n h d = failed _
  parse_entries-Reads (suc rounds) vals (b ∷ xs) n h d = elim (Bool-cases (b == b'e')) [
    | inl e ↦
        rw (e, parse_entries)
          (done vals (record { rest = xs; pos = n + 1 }) d (omega arith) (omega arith))
    | inr e ↦
        rw (e, parse_entries)
          (weaken 2 1 _ (omega arith) (
            bind _ 1 1 (record { rest = b ∷ xs; pos = n })
              (parse_str-Reads (record { rest = b ∷ xs; pos = n }))
              (λ s p₁ _ m.
                keyed rounds vals d
                  (λ vals' p dv m'. parse_entries-Reads rounds vals' p.rest p.pos m' dv) s p₁
                  (omega arith))))
  ]

  parse_list-Reads : (p : Parser) → Reads 1 p (λ v. depth v ≤ suc bound) (parse_list parse p)
  unfolding parse_list depth
  parse_list-Reads p = weaken 2 1 p (omega arith) (
      after _ 1 p (skip-Moves p.rest p.pos) (λ p₁ _.
        step BeValue.list (λ v. depth v ≤ suc bound) 1 p₁
          (parse_items-Reads (length p₁.rest + 1) p₁.rest p₁.pos (omega arith))
          (λ vs d. omega arith)))

  parse_dict-Reads : (p : Parser) → Reads 1 p (λ v. depth v ≤ suc bound) (parse_dict parse p)
  unfolding parse_dict depth
  parse_dict-Reads p = weaken 2 1 p (omega arith) (
      after _ 1 p (skip-Moves p.rest p.pos) (λ p₁ _.
        bind _ 1 0 p₁
          (parse_entries-Reads (length p₁.rest + 1) end p₁.rest p₁.pos (omega arith) (omega arith))
          (λ vals p₂ d m. done _ p₂ (omega arith) (omega arith) refl)))

  parse_tagged-Reads :
      (p : Parser) (o : Option ℕ) → Reads 1 p (λ v. depth v ≤ suc bound) (parse_tagged parse p o)
  unfolding parse_tagged depth
  parse_tagged-Reads p none = failed _
  parse_tagged-Reads p (some c) = elim (Bool-cases (c == b'i')) [
    | inl e ↦
        rw e (step int (λ v. depth v ≤ suc bound) 1 p (parse_int-Reads p) (λ i _. omega arith))
    | inr e ↦ rw e (elim (Bool-cases (c == b'l')) [
      | inl e ↦ rw e (parse_list-Reads p)
      | inr e ↦ rw e (elim (Bool-cases (c == b'd')) [
        | inl e ↦ rw e (parse_dict-Reads p)
        | inr e ↦ rw e (elim (Bool-cases (is_digit c)) [
          | inl e ↦
              rw e
                (step str (λ v. depth v ≤ suc bound) 1 p (parse_str-Reads p) (λ s _. omega arith))
          | inr e ↦ rw e (failed _)
        ])
      ])
    ])
  ]

pub parse_value-Reads :
    (levels recursion_depth : ℕ) (p : Parser)
    → recursion_depth ≤ max_nesting_depth + 1
    → max_nesting_depth + 1 < levels + recursion_depth
    → Reads 1 p
        (λ v. depth v + recursion_depth ≤ max_nesting_depth + 1)
        (parse_value levels recursion_depth p)
unfolding parse_value
parse_value-Reads zero d p le h = absurd (omega arith)
parse_value-Reads (suc levels) d p le h = elim (Bool-cases (ltb max_nesting_depth d)) [
  | inl e ↦ rw (e, parse_value) (failed _)
  | inr e ↦
      let shallow : d ≤ 16 = ground (arith, e) in
      rw (e, parse_value)
        (widen p (λ v h. omega arith)
          (parse_tagged-Reads (16 - d) (parse_value levels (d + 1))
            (λ p'.
              widen p' (λ v h. omega arith)
                (parse_value-Reads levels (d + 1) p' (omega arith) (omega arith)))
            p (peek p)))
]

-- On any bytes the parser ends: it answers a value that is at most 17 deep, or an error, or it
-- panics.
pub parse_with_lem :
    (src : List ℕ)
    → ((v : BeValue) × (parse_with src ≡ ok v) × (depth v ≤ max_nesting_depth + 1))
      ⊎ (((e : BeDecodeErr) × (parse_with src ≡ err e)) ⊎ (parse_with src ≡ panicked))
unfolding parse_with
parse_with_lem src = ends _ (
    parse_value-Reads (max_nesting_depth + 2) 0 (record { rest = src; pos = 0 }) (omega arith)
      (omega arith))
  where
    ends :
        (r : Read BeValue)
        → Reads 1 (record { rest = src; pos = 0 }) (λ v. depth v + 0 ≤ max_nesting_depth + 1) r
        → ((v : BeValue) × ((r >>= λ (val, p). ok val) ≡ ok v) × (depth v ≤ max_nesting_depth + 1))
          ⊎ (((e : BeDecodeErr) × ((r >>= λ (val, p). ok val) ≡ err e))
              ⊎ ((r >>= λ (val, p). ok val) ≡ panicked))
    ends r (failed e) = inr (inl (e, refl))
    ends r crashed = inr (inr refl)
    ends r (done v p' h m at) = inl (v, refl, omega (arith, h))
