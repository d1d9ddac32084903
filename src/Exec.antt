-- ===== src/Exec.antt =====
-- How a Go function runs against mutable state: it returns a value, returns an error or panics,
-- and what was changed before stays changed.
use cribe.Prelude.{String, Bool, true, false, ◌≡◌, refl, ◌⊎◌, inl, inr}
use cribe.Errors.{Error, wrap}

pub data Result {ℓ} (A : Type ℓ) : Type ℓ where
  ok : A → Result A
  err : Error → Result A
  panic : String → Result A

abbrev pub Exec : Type 0 → Type 0 → Type 0
Exec S A = S → Result A × S

module _ {A : Type 0} where
  abbrev wrap_error : String → Result A → Result A
  wrap_error text (ok a) = ok a
  wrap_error text (err e) = err (wrap text e)
  wrap_error text (panic p) = panic p

  abbrev pub is_ok : Result A → Bool
  is_ok (ok a) = true
  is_ok (err e) = false
  is_ok (panic p) = false

module _ {S A : Type 0} where
  abbrev pub pure : A → Exec S A
  pure a s = (ok a, s)

  abbrev pub fail : Error → Exec S A
  fail e s = (err e, s)

  abbrev pub raise : String → Exec S A
  raise text s = (panic text, s)

  abbrev pub lift : Result A → Exec S A
  lift r s = (r, s)

  -- if err != nil { return fmt.Errorf("text: %w", err) }
  abbrev pub annotate : String → Exec S A → Exec S A
  annotate text m s = let (r, t) = m s in (wrap_error text r, t)

module _ {S A B : Type 0} where
  abbrev continue : Result A → (A → Exec S B) → Exec S B
  continue (ok a) f s = f a s
  continue (err e) f s = (err e, s)
  continue (panic p) f s = (panic p, s)

  infixl 10 ◌>>=◌ ◌>>◌
  abbrev pub ◌>>=◌ : Exec S A → (A → Exec S B) → Exec S B
  ◌>>=◌ m f s = let (r, t) = m s in continue r f t

  abbrev pub ◌>>◌ : Exec S A → Exec S B → Exec S B
  m >> n = m >>= λ _. n

  abbrev branch : (Error → Exec S B) → (A → Exec S B) → Result A → Exec S B
  branch handler rest (ok a) s = rest a s
  branch handler rest (err e) s = handler e s
  branch handler rest (panic p) s = (panic p, s)

  -- if v, err := m; err != nil { handler err } else { rest v }
  abbrev pub attempt : Exec S A → (Error → Exec S B) → (A → Exec S B) → Exec S B
  attempt m handler rest s = let (r, t) = m s in branch handler rest r t

module _ {S A : Type 0} where
  abbrev finish : Result A → Result (Unit {0}) × S → Result A × S
  finish r (ok u, t) = (r, t)
  finish r (err e, t) = (r, t)
  finish r (panic p, t) = (panic p, t)

  -- defer d(): runs after an error and after a panic too; its own error is dropped
  abbrev pub deferring : Exec S (Unit {0}) → Exec S A → Exec S A
  deferring d m s = let (r, t) = m s in finish r (d t)

module _ {A : Type 0} where
  -- To split on the result of a call and keep the equation.
  pub Result-cases :
      (r : Result A)
      → ((a : A) × (r ≡ ok a)) ⊎ (((e : Error) × (r ≡ err e)) ⊎ ((p : String) × (r ≡ panic p)))
  Result-cases (ok a) = inl (a, refl)
  Result-cases (err e) = inr (inl (e, refl))
  Result-cases (panic p) = inr (inr (p, refl))

module _ {S A B : Type 0} where
  -- What a chain of calls that returns no error is.
  pub >>=-ok :
      (m : Exec S A) (f : A → Exec S B) (s : S) {b : B}
      → ((m >>= f) s).0 ≡ ok b
      → (a : A) × ((m s).0 ≡ ok a) × ((m >>= f) s ≡ f a (m s).1)
  >>=-ok m f s h = elim (Result-cases (m s).0) [
    | inl (a, g) ↦ (a, g, rw g refl)
    | inr (inl (e, g)) ↦ cc (rw g at h)
    | inr (inr (p, g)) ↦ cc (rw g at h)
  ]
