-- ===== src/Bencoding/RoundTrip.antt =====
-- The parser on what the format's description writes.
use learntorrent.Base.{
  ℕ, zero, suc, ◌+◌, ◌-◌, ◌≤◌, ◌<◌, ◌≡◌, refl, ap, ◌∙◌, true, false, none, List, ◌∷◌, ◌==◌, length,
  arith,
}
use learntorrent.Base.Text.{is_digit, is_utf8}
use learntorrent.Base.Outcome.{ok}
use learntorrent.BeValue.{BeValue, BeList, Entries, str, int, dict, nil, cons, end, entry, get}
use learntorrent.Bencoding.{
  insert, Parser, Read, peek, parse_str, parse_items, add, parse_entries, parse_list, parse_dict,
  parse_tagged, parse_value, parse_with, max_nesting_depth,
}
use learntorrent.Bencoding.Reads.{depth, items_depth, entries_depth}
use learntorrent.Bencoding.Print.{
  str_onto, onto, items_onto, entries_onto, Fresh, Placed, PlacedItems, PlacedEntries,
}
use learntorrent.Bencoding.Scalars.{
  dispatch, parse_value-parse_tagged, parse_str-onto, parse_int-onto, onto_head, str_head,
  onto-longer, str_onto-longer,
}

join : Entries → Entries → Entries
join earlier end = earlier
join earlier (entry k v vals) = join (add k v earlier) vals

join-entry :
    (k : List ℕ) (v : BeValue) (earlier vals : Entries)
    → join (entry k v earlier) vals ≡ entry k v (join earlier vals)
unfolding join
join-entry k v earlier end = refl
join-entry k v earlier (entry k' v' vals) = join-entry k v (add k' v' earlier) vals

join_end : (vals : Entries) → join end vals ≡ vals
unfolding join
join_end end = refl
join_end (entry k v vals) = join-entry k v end vals ∙ ap (entry k v) (join_end vals)

-- `parse` reads back the values of depth `bound` at most.
abbrev ReadsBack : ℕ → (Parser → Read BeValue) → Type 0
ReadsBack bound parse =
    (v : BeValue) (rest : List ℕ) (n m : ℕ)
    → depth v ≤ bound
    → Placed v n rest
    → m + length rest ≡ n + length (onto v rest)
    → parse (record { rest = onto v rest; pos = n }) ≡ ok (v, record { rest = rest; pos = m })

module _ (bound : ℕ) (parse : Parser → Read BeValue) (back : ReadsBack bound parse) where
  item :
      (rounds : ℕ) (src : List ℕ) (n b : ℕ) (xs : List ℕ) (v : BeValue) (p₁ : Parser) (vs : BeList)
      (p₂ : Parser)
      → src ≡ b ∷ xs
      → (b == b'e') ≡ false
      → parse (record { rest = src; pos = n }) ≡ ok (v, p₁)
      → parse_items parse rounds p₁ ≡ ok (vs, p₂)
      → parse_items parse (suc rounds) (record { rest = src; pos = n }) ≡ ok (cons v vs, p₂)
  unfolding parse_items
  item rounds src n b xs v p₁ vs p₂ e h one more =
      rw e (rw (h, parse_items) (rw (rw e at one) (rw more)))

  parse_items-onto :
      (vs : BeList) (rest : List ℕ) (n m rounds : ℕ)
      → items_depth vs ≤ bound
      → PlacedItems vs n (b'e' ∷ rest)
      → m + length rest ≡ n + length (items_onto vs (b'e' ∷ rest))
      → length (items_onto vs (b'e' ∷ rest)) < rounds
      → parse_items parse rounds (record { rest = items_onto vs (b'e' ∷ rest); pos = n })
        ≡ ok (vs, record { rest = rest; pos = m })
  unfolding parse_items depth Placed onto
  parse_items-onto vs rest n m zero d pl e h = absurd (omega arith)
  parse_items-onto nil rest n m (suc rounds) d pl e h =
      ap (λ k. ok (nil, record { rest = rest; pos = k })) (omega (arith, e))
  parse_items-onto (cons v vs) rest n m (suc rounds) d (one, more) e h =
      let tail = items_onto vs (b'e' ∷ rest) in
      let at = n + length (onto v tail) - length tail in
      let (b, xs, eq, ne) = onto_head v tail in
      let long = onto-longer v tail in
      item rounds (onto v tail) n b xs v (record { rest = tail; pos = at }) vs
        (record { rest = rest; pos = m }) eq ne
        (back v tail n at (omega (arith, d)) one (omega (arith, long)))
        (parse_items-onto vs rest at m rounds (omega (arith, d)) more (omega (arith, e, long))
          (omega (arith, h, long)))

  one_entry :
      (rounds : ℕ) (earlier : Entries) (src : List ℕ) (n b : ℕ) (xs k : List ℕ) (p₁ : Parser)
      (v : BeValue) (p₂ : Parser) (all : Entries) (p₃ : Parser)
      → src ≡ b ∷ xs
      → (b == b'e') ≡ false
      → parse_str (record { rest = src; pos = n }) ≡ ok (k, p₁)
      → is_utf8 k ≡ true
      → parse p₁ ≡ ok (v, p₂)
      → get earlier k ≡ none
      → parse_entries parse rounds (add k v earlier) p₂ ≡ ok (all, p₃)
      → parse_entries parse (suc rounds) earlier (record { rest = src; pos = n }) ≡ ok (all, p₃)
  unfolding parse_entries
  one_entry rounds earlier src n b xs k p₁ v p₂ all p₃ e h key text one fresh more =
      rw e (rw (h, parse_entries) (rw (rw e at key) (rw text (rw one (rw (fresh, insert) more)))))

  parse_entries-onto :
      (vals earlier : Entries) (rest : List ℕ) (n m rounds : ℕ)
      → entries_depth vals ≤ bound
      → Fresh earlier vals
      → PlacedEntries vals n (b'e' ∷ rest)
      → m + length rest ≡ n + length (entries_onto vals (b'e' ∷ rest))
      → length (entries_onto vals (b'e' ∷ rest)) < rounds
      → parse_entries parse rounds earlier
          (record { rest = entries_onto vals (b'e' ∷ rest); pos = n })
        ≡ ok (join earlier vals, record { rest = rest; pos = m })
  unfolding parse_entries depth Placed onto join
  parse_entries-onto vals earlier rest n m zero d fr pl e h = absurd (omega arith)
  parse_entries-onto end earlier rest n m (suc rounds) d fr pl e h =
      ap (λ k. ok (earlier, record { rest = rest; pos = k })) (omega (arith, e))
  parse_entries-onto (entry k v vals) earlier rest n m (suc rounds) d fr (text, short, one, more) e
        h =
      let tail = entries_onto vals (b'e' ∷ rest) in
      let here = onto v tail in
      let at = n + length (str_onto k here) - length here in
      let (b, xs, eq, isd) = str_head k here in
      let long = onto-longer v tail in
      let long_k = str_onto-longer k here in
      one_entry rounds earlier (str_onto k here) n b xs k (record { rest = here; pos = at }) v
        (record { rest = tail; pos = at + length here - length tail }) (join (add k v earlier) vals)
        (record { rest = rest; pos = m }) eq (ground (arith, isd))
        (parse_str-onto k here n at short (omega (arith, long_k))) text
        (back v tail at (at + length here - length tail) (omega (arith, d)) one
          (omega (arith, long)))
        fr.0
        (parse_entries-onto vals (add k v earlier) rest (at + length here - length tail) m rounds
          (omega (arith, d)) fr.1 more (omega (arith, e, long, long_k))
          (omega (arith, h, long, long_k)))

  tagged_str :
      (src : List ℕ) (n b : ℕ) (xs s : List ℕ) (p : Parser)
      → src ≡ b ∷ xs
      → is_digit b ≡ true
      → parse_str (record { rest = src; pos = n }) ≡ ok (s, p)
      → parse_tagged parse (record { rest = src; pos = n }) (peek (record { rest = src; pos = n }))
        ≡ ok (str s, p)
  tagged_str src n b xs s p e isd one =
      rw e (dispatch parse b (record { rest = b ∷ xs; pos = n }) (ok (s, p)) isd (rw e at one))

  parse_tagged-onto :
      (v : BeValue) (rest : List ℕ) (n m : ℕ)
      → depth v ≤ suc bound
      → Placed v n rest
      → m + length rest ≡ n + length (onto v rest)
      → parse_tagged parse
          (record { rest = onto v rest; pos = n })
          (peek (record { rest = onto v rest; pos = n }))
        ≡ ok (v, record { rest = rest; pos = m })
  unfolding parse_tagged depth Placed onto parse_list parse_dict
  parse_tagged-onto (str s) rest n m d pl e =
      let (b, xs, eq, isd) = str_head s rest in
      tagged_str (str_onto s rest) n b xs s (record { rest = rest; pos = m }) eq isd
        (parse_str-onto s rest n m pl e)
  parse_tagged-onto (int i) rest n m d pl e = rw (parse_int-onto i rest n m pl (omega (arith, e)))
  parse_tagged-onto (dict vals start stop) rest n m d (eq, st, fr, pl) e =
      let stop_m : stop ≡ m = omega (arith, e, st) in
      rw
        (parse_entries-onto vals end rest (n + 1) m (length (entries_onto vals (b'e' ∷ rest)) + 1)
          (omega (arith, d)) fr pl (omega (arith, e)) (omega arith))
        (rw (join_end vals) (rw eq (rw stop_m)))
  parse_tagged-onto (BeValue.list vs) rest n m d pl e = rw (
      parse_items-onto vs rest (n + 1) m (length (items_onto vs (b'e' ∷ rest)) + 1)
        (omega (arith, d)) pl (omega (arith, e)) (omega arith))

depth_pos : (v : BeValue) → 1 ≤ depth v
unfolding depth
depth_pos (str s) = omega arith
depth_pos (int i) = omega arith
depth_pos (dict vals start stop) = omega arith
depth_pos (BeValue.list vs) = omega arith

parse_value-onto :
    (bound recursion_depth : ℕ)
    → bound + recursion_depth ≡ suc max_nesting_depth
    → ReadsBack bound (parse_value (suc bound) recursion_depth)
parse_value-onto zero r s v rest n m d pl e = absurd (omega (arith, depth_pos v))
parse_value-onto (suc bound) r s v rest n m d pl e =
    parse_value-parse_tagged (suc bound) r (record { rest = onto v rest; pos = n }) (omega arith)
    ∙ parse_tagged-onto bound (parse_value (suc bound) (r + 1))
        (parse_value-onto bound (r + 1) (omega (arith, s))) v rest n m d pl e

-- A value at most 17 deep, whose numbers are between -2 ^ 63 and 2 ^ 63, both excluded, whose
-- strings and keys are shorter than 2 ^ 63 bytes, whose dictionaries have different keys that are
-- text and know their place in the source, is read back from its bencoded text, whatever follows
-- the text.
pub parse_with-onto :
    (v : BeValue) (rest : List ℕ)
    → depth v ≤ suc max_nesting_depth
    → Placed v 0 rest
    → parse_with (onto v rest) ≡ ok v
unfolding parse_with
parse_with-onto v rest d pl = rw (
    parse_value-onto (suc max_nesting_depth) 0 refl v rest 0 (length (onto v rest) - length rest) d
      pl (omega (arith, onto-longer v rest)))
