-- ===== src/Bencoding/Places.antt =====
-- Where a value stands in a bencoded text.
use learntorrent.Base.{
  ℕ, suc, ◌+◌, ◌-◌, ◌≡◌, refl, sym, ap, ◌∙◌, subst, some, List, [], ◌∷◌, ◌++◌, append_assoc, length,
  length-append, take, drop, take-append, drop-append, arith, Bool-cases, inl, inr,
}
use learntorrent.Base.Int.{ℤ, pos, negsuc}
use learntorrent.Base.Text.{same_text}
use learntorrent.BeValue.{BeValue, BeList, Entries, str, int, dict, nil, cons, end, entry, get}
use learntorrent.Bencoding.Print.{
  digits, str_onto, int_onto, onto, items_onto, entries_onto, Placed, PlacedEntries,
}

pub str_onto-append : (s xs ys : List ℕ) → str_onto s (xs ++ ys) ≡ str_onto s xs ++ ys
str_onto-append s xs ys =
    ap (λ t. digits (length s) ++ b':' ∷ t) (sym (append_assoc s xs ys))
    ∙ sym (append_assoc (digits (length s)) (b':' ∷ (s ++ xs)) ys)

int_onto-append : (i : ℤ) (xs ys : List ℕ) → int_onto i (xs ++ ys) ≡ int_onto i xs ++ ys
int_onto-append (pos n) xs ys = sym (append_assoc (digits n) xs ys)
int_onto-append (negsuc n) xs ys = ap (λ t. b'-' ∷ t) (sym (append_assoc (digits (suc n)) xs ys))

mutual
  unfolding onto items_onto entries_onto

  pub onto-append : (v : BeValue) (xs ys : List ℕ) → onto v (xs ++ ys) ≡ onto v xs ++ ys
  onto-append (str s) xs ys = str_onto-append s xs ys
  onto-append (int i) xs ys = ap (λ t. b'i' ∷ t) (int_onto-append i (b'e' ∷ xs) ys)
  onto-append (dict vals start stop) xs ys =
      ap (λ t. b'd' ∷ t) (entries_onto-append vals (b'e' ∷ xs) ys)
  onto-append (BeValue.list vs) xs ys = ap (λ t. b'l' ∷ t) (items_onto-append vs (b'e' ∷ xs) ys)

  items_onto-append :
      (vs : BeList) (xs ys : List ℕ) → items_onto vs (xs ++ ys) ≡ items_onto vs xs ++ ys
  items_onto-append nil xs ys = refl
  items_onto-append (cons v vs) xs ys =
      ap (onto v) (items_onto-append vs xs ys) ∙ onto-append v (items_onto vs xs) ys

  entries_onto-append :
      (vals : Entries) (xs ys : List ℕ) → entries_onto vals (xs ++ ys) ≡ entries_onto vals xs ++ ys
  entries_onto-append end xs ys = refl
  entries_onto-append (entry k v vals) xs ys =
      ap (λ t. str_onto k (onto v t)) (entries_onto-append vals xs ys)
      ∙ ap (str_onto k) (onto-append v (entries_onto vals xs) ys)
      ∙ str_onto-append k (onto v (entries_onto vals xs)) ys

-- A value of a dictionary: what stands before and behind it.
pub entry_place :
    (vals : Entries) (k : List ℕ) (v : BeValue) (n : ℕ) (rest : List ℕ)
    → get vals k ≡ some v
    → PlacedEntries vals n rest
    → (front : List ℕ) × (tail : List ℕ) × (entries_onto vals rest ≡ front ++ onto v tail)
      × Placed v (n + length front) tail
unfolding get entries_onto PlacedEntries
entry_place end k v n rest e p = absurd (cc e)
entry_place (entry k' v' vals) k v n rest e (text, short, one, more) =
    let tail' = entries_onto vals rest in
    let here = onto v' tail' in
    let key = str_onto-append k' [] here in
    let val = onto-append v' [] tail' in
    elim (Bool-cases (same_text k' k)) [
      | inl h ↦
          let same : v' ≡ v = cc (rw h at e) in
          (
            str_onto k' [],
            tail',
            subst (λ x. str_onto k' here ≡ str_onto k' [] ++ onto x tail') same key,
            subst (λ x. Placed x (n + length (str_onto k' [])) tail') same
                (subst (λ x. Placed v' x tail')
                  (omega (arith, ap length key, length-append (str_onto k' []) here)) one),
          )
      | inr h ↦
          let (front, tail, eq, pl) = entry_place vals k v _ rest (rw h at e) more in
          (
            str_onto k' [] ++ (onto v' [] ++ front),
            tail,
            key
                ∙ ap (λ t. str_onto k' [] ++ t)
                    (val
                      ∙ ap (λ t. onto v' [] ++ t) eq
                      ∙ sym (append_assoc (onto v' []) front (onto v tail)))
                ∙ sym (append_assoc (str_onto k' []) (onto v' [] ++ front) (onto v tail)),
            subst (λ x. Placed v x tail)
                (omega (
                  arith,
                  ap length key,
                  length-append (str_onto k' []) here,
                  ap length val,
                  length-append (onto v' []) tail',
                  length-append (str_onto k' []) (onto v' [] ++ front),
                  length-append (onto v' []) front,
                ))
                pl,
          )
    ]

-- The slice of the source that a dictionary knows is the dictionary's text.
pub slice_lem :
    (vals : Entries) (start stop : ℕ) (front tail : List ℕ)
    → Placed (dict vals start stop) (length front) tail
    → take (stop - start) (drop start (front ++ onto (dict vals start stop) tail))
      ≡ onto (dict vals start stop) []
unfolding Placed onto
slice_lem vals start stop front tail (s, t, fr, pl) =
    let d = dict vals start stop in
    let whole = onto-append d [] tail in
    let size : stop - start ≡ length (onto d []) =
      omega (arith, s, t, ap length whole, length-append (onto d []) tail) in
    rw (size, s)
      (ap (take (length (onto d []))) (drop-append front (onto d tail) ∙ whole)
        ∙ take-append (onto d []) tail)
