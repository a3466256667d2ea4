-- ===== src/Prelude/Exec.antt =====
-- Methods that mutate their receiver and may return an error: what was written before the error
-- stays written, so the state comes back beside the error too. `Hoare` states what such a method
-- ensures, with one rule for each way to build one.
use mathlib.Core.Path.{◌≡◌, refl}
use mathlib.Core.Logic.{◌⊎◌, inl, inr}
use mathlib.Core.Bool.{Bool, true, false}
use heuristic.Prelude.Tests.{if◌then◌else◌}

pub data Result {ℓ} (E A : Type ℓ) : Type ℓ where
  ok : A → Result E A
  err : E → Result E A

pub Result-cases :
    {E A : Type 0} (r : Result E A) → ((e : E) × (r ≡ err e)) ⊎ ((a : A) × (r ≡ ok a))
Result-cases (ok a) = inr (a, refl)
Result-cases (err e) = inl (e, refl)

abbrev pub Exec : Type 0 → Type 0 → Type 0 → Type 0
Exec S E A = S → Result E A × S

module _ {S E A : Type 0} where
  pub pure : A → Exec S E A
  pure a s = (ok a, s)

  pub raise : E → Exec S E A
  raise e s = (err e, s)

module _ {S E : Type 0} where
  pub get : Exec S E S
  get s = (ok s, s)

  pub modify : (S → S) → Exec S E (Unit {0})
  modify f s = (ok tt, f s)

module _ {S E A B : Type 0} where
  abbrev pub continue : Result E A → (A → Exec S E B) → Exec S E B
  continue (ok a) f s = f a s
  continue (err e) f s = (err e, s)

  infixl 5 ◌>>=◌ ◌>>◌
  -- Opening this opens `pure`, `raise`, `get` and `modify` too.
  unfoldable pub ◌>>=◌ : Exec S E A → (A → Exec S E B) → Exec S E B
  unfolding pure raise get modify
  ◌>>=◌ m f s = let r = m s in continue r.0 f r.1

  abbrev pub ◌>>◌ : Exec S E A → Exec S E B → Exec S E B
  first >> second = first >>= λ _. second

-- What holds after a method: `Q` of its result, or `R` after an error.
abbrev pub Outcome {ℓ} :
    {S E A : Type 0} → (A → S → Type ℓ) → (S → Type ℓ) → Result E A × S → Type ℓ
Outcome Q R (ok a, s) = Q a s
Outcome Q R (err e, s) = R s

pub Outcome_lem {ℓ} :
    {S E A : Type 0} (P : S → Type ℓ) (r : Result E A × S) → P r.1 → Outcome (λ _ s. P s) P r
Outcome_lem P (ok a, s) p = p
Outcome_lem P (err e, s) p = p

pub Outcome-state {ℓ} :
    {S E A : Type 0} (P : S → Type ℓ) (r : Result E A × S) → Outcome (λ _ s. P s) P r → P r.1
Outcome-state P (ok a, s) p = p
Outcome-state P (err e, s) p = p

-- From a state with `P` the method returns with `Q`, or fails with `R`.
pub record Hoare {ℓ} {S E A : Type 0} (P : S → Type ℓ) (m : Exec S E A) (Q : A → S → Type ℓ)
    (R : S → Type ℓ) : Type ℓ where
  pub run : (s : S) → P s → Outcome Q R (m s)

-- The method keeps `P`, whether it returns or fails.
abbrev pub Keeps {ℓ} : {S E A : Type 0} → (S → Type ℓ) → Exec S E A → Type ℓ
Keeps P m = Hoare P m (λ _ s. P s) P

module _ {ℓ} {S E A : Type 0} {R : S → Type ℓ} where
  pub Hoare-pure : (Q : A → S → Type ℓ) (a : A) → Hoare {E = E} (Q a) (pure a) Q R
  unfolding pure
  Hoare-pure Q a = record { run = λ s h. h }

  pub Hoare-raise : {Q : A → S → Type ℓ} (e : E) → Hoare R (raise e) Q R
  unfolding raise
  Hoare-raise e = record { run = λ s h. h }

  pub Hoare-if :
      {P : S → Type ℓ} {Q : A → S → Type ℓ} (b : Bool) {m n : Exec S E A}
      → (b ≡ true → Hoare P m Q R)
      → (b ≡ false → Hoare P n Q R)
      → Hoare P (if b then m else n) Q R
  Hoare-if true p q = p refl
  Hoare-if false p q = q refl

  pub Hoare-weaken :
      {P P' : S → Type ℓ} {m : Exec S E A} {Q : A → S → Type ℓ}
      → ((s : S) → P s → P' s)
      → Hoare P' m Q R
      → Hoare P m Q R
  Hoare-weaken f h = record { run = λ s p. h.run s (f s p) }

Outcome-relax {ℓ} :
    {S E A : Type 0} (Q Q' : A → S → Type ℓ) (R R' : S → Type ℓ)
    → ((a : A) (s : S) → Q a s → Q' a s)
    → ((s : S) → R s → R' s)
    → (r : Result E A × S) → Outcome Q R r
    → Outcome Q' R' r
Outcome-relax Q Q' R R' f g (ok a, s) h = f a s h
Outcome-relax Q Q' R R' f g (err e, s) h = g s h

-- Weaker conclusions.
pub Hoare-relax {ℓ} :
    {S E A : Type 0} {P : S → Type ℓ} {m : Exec S E A} (Q Q' : A → S → Type ℓ) (R R' : S → Type ℓ)
    → ((a : A) (s : S) → Q a s → Q' a s)
    → ((s : S) → R s → R' s)
    → Hoare P m Q R
    → Hoare P m Q' R'
Hoare-relax Q Q' R R' f g h = record { run = λ s p. Outcome-relax Q Q' R R' f g _ (h.run s p) }

module _ {ℓ} {S E : Type 0} {R : S → Type ℓ} where
  pub Hoare-modify :
      {P : S → Type ℓ} {Q : Unit {0} → S → Type ℓ} (f : S → S)
      → ((s : S) → P s → Q tt (f s))
      → Hoare {E = E} P (modify f) Q R
  unfolding modify
  Hoare-modify f h = record { run = h }

  pub Hoare-read : (P : S → Type ℓ) → Hoare {E = E} P get (λ _. P) R
  unfolding get
  Hoare-read P = record { run = λ s h. h }

  -- What is read is the state itself.
  pub Hoare-get : {P : S → Type ℓ} → Hoare {E = E} P get (λ a s. (a ≡ s) × P s) R
  unfolding get
  Hoare-get = record { run = λ s h. (refl, h) }

module _ {ℓ} {S E A B : Type 0} {Q' : B → S → Type ℓ} {R : S → Type ℓ} where
  Hoare-continue :
      (Q : A → S → Type ℓ) (f : A → Exec S E B) (r : Result E A) (s : S)
      → ((a : A) → Hoare (Q a) (f a) Q' R)
      → Outcome Q R (r, s)
      → Outcome Q' R (continue r f s)
  Hoare-continue Q f (ok a) s h p = (h a).run s p
  Hoare-continue Q f (err e) s h p = p

  pub Hoare-bind :
      {P : S → Type ℓ} (Q : A → S → Type ℓ) {m : Exec S E A} {f : A → Exec S E B}
      → Hoare P m Q R
      → ((a : A) → Hoare (Q a) (f a) Q' R)
      → Hoare P (m >>= f) Q' R
  unfolding ◌>>=◌
  Hoare-bind Q {m = m} {f = f} h k = record {
    run = λ s p. Hoare-continue Q f (m s).0 (m s).1 k (h.run s p);
  }
