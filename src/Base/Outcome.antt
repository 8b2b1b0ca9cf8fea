-- ===== src/Base/Outcome.antt =====
-- What a call of fallible code comes to: a value, an error value, or a panic of the task.
use mathlib.Core.Option.{Option, none, some}
use mathlib.Core.Path.{◌≡◌, refl, subst}

-- `out_of_fuel` has no counterpart in the program: a loop of the model had too little fuel.
pub data Outcome {ℓ κ} (E : Type κ) (A : Type ℓ) : Type (ℓ ⊔ κ) where
  ok : A → Outcome E A
  err : E → Outcome E A
  panicked out_of_fuel : Outcome E A

infixl 5 ◌>>=◌ ◌>>◌
abbrev pub ◌>>=◌ {ℓ κ ν} :
    {E : Type ν} {A : Type ℓ} {B : Type κ} → Outcome E A → (A → Outcome E B) → Outcome E B
ok a >>= f = f a
err e >>= f = err e
panicked >>= f = panicked
out_of_fuel >>= f = out_of_fuel

-- A check before what follows it.
abbrev pub ◌>>◌ {ℓ ν} : {E : Type ν} {B : Type ℓ} → Outcome E (Unit {0}) → Outcome E B → Outcome E B
ok done >> next = next
err e >> next = err e
panicked >> next = panicked
out_of_fuel >> next = out_of_fuel

-- `unwrap`, `expect` and an index into a slice: a missing value is a panic.
abbrev pub expect {ℓ ν} : {E : Type ν} {A : Type ℓ} → Option A → Outcome E A
expect none = panicked
expect (some a) = ok a

-- `Option::ok_or`.
abbrev pub ok_or {ℓ ν} : {E : Type ν} {A : Type ℓ} → Option A → E → Outcome E A
ok_or none e = err e
ok_or (some a) e = ok a

-- Whatever a call returns has `P`.
abbrev pub Returns {ℓ κ ν} :
    {E : Type ν} {A : Type ℓ} → (A → Type κ) → Outcome E A → Type (ℓ ⊔ κ ⊔ ν)
Returns {A = A} P m = (a : A) → m ≡ ok a → P a

module _ {ℓ κ ν υ} {E : Type ν} {A : Type ℓ} {B : Type κ} {P : B → Type υ} where
  pub after_step :
      (m : Outcome E A) (f : A → Outcome E B)
      → ((a : A) → m ≡ ok a → Returns P (f a))
      → Returns P (m >>= f)
  after_step (ok a) f k b e = k a refl b e
  after_step (err e') f k b e = absurd (cc e)
  after_step panicked f k b e = absurd (cc e)
  after_step out_of_fuel f k b e = absurd (cc e)

module _ {κ ν υ} {E : Type ν} {B : Type κ} {P : B → Type υ} where
  pub after_check :
      (m : Outcome E (Unit {0})) (next : Outcome E B)
      → (m ≡ ok tt → Returns P next)
      → Returns P (m >> next)
  after_check (ok tt) next k b e = k refl b e
  after_check (err e') next k b e = absurd (cc e)
  after_check panicked next k b e = absurd (cc e)
  after_check out_of_fuel next k b e = absurd (cc e)

pub returned {κ ν υ} :
    {E : Type ν} {B : Type κ} (P : B → Type υ) (b : B) → P b → Returns {E = E} P (ok b)
returned P b p a e = subst P (cc e) p
