-- ===== src/Exec.antt =====
-- Methods that change an object and may raise. What was written before a raise stays written, so
-- the object comes back beside the error too.
use fitz_py.Prelude.{Bool, true, false, ◌≡◌, refl, subst, if◌then◌else◌}
use fitz_py.Errors.{Error, Result, ok, err}

abbrev pub Exec {ℓ} : Type ℓ → Type ℓ → Type ℓ
Exec S A = S → Result A × S

module _ {ℓ} {S A : Type ℓ} where
  abbrev pub pure : A → Exec S A
  pure a s = (ok a, s)

  abbrev pub raise : Error → Exec S A
  raise e s = (err e, s)

  abbrev pub gets : (S → A) → Exec S A
  gets f s = (ok (f s), s)

  abbrev pub lift : Result A → Exec S A
  lift r s = (r, s)

module _ {ℓ} {S A B : Type ℓ} where
  abbrev pub continue : (A → Exec S B) → Result A × S → Result B × S
  continue f (ok a, s) = f a s
  continue f (err e, s) = (err e, s)

  infixl 5 ◌>>=◌ ◌>>◌
  abbrev pub ◌>>=◌ : Exec S A → (A → Exec S B) → Exec S B
  ◌>>=◌ m f s = continue f (m s)

  abbrev pub ◌>>◌ : Exec S A → Exec S B → Exec S B
  m >> k = m >>= λ _. k

-- `if not test: raise e`
abbrev pub guard {ℓ} : {S : Type ℓ} → Bool → Error → Exec S Unit
guard true e = pure tt
guard false e = raise e

-- Whatever `m` returns satisfies `P`.
pub record Ensures {ℓ} {S A : Type ℓ} (P : A → Type ℓ) (m : Exec S A) : Type ℓ where
  pub at : (s : S) (a : A) → (m s).0 ≡ ok a → P a

module _ {ℓ} {S A : Type ℓ} {P : A → Type ℓ} where
  pub Ensures-pure : (a : A) → P a → Ensures {S = S} P (pure a)
  Ensures-pure a h = record { at = λ s b e. subst P (cc) h }

  pub Ensures-raise : (e : Error) → Ensures {S = S} P (raise e)
  Ensures-raise e = record { at = λ s b h. cc }

  pub Ensures-if :
      (b : Bool) (m n : Exec S A)
      → (b ≡ true → Ensures P m)
      → (b ≡ false → Ensures P n)
      → Ensures P (if b then m else n)
  Ensures-if true m n hm hn = hm refl
  Ensures-if false m n hm hn = hn refl

module _ {ℓ} {S A B : Type ℓ} {P : B → Type ℓ} where
  Ensures-continue :
      (f : A → Exec S B) (p : Result A × S) (b : B)
      → ((a : A) → Ensures P (f a))
      → (continue f p).0 ≡ ok b
      → P b
  Ensures-continue f (ok a, s) b h e = (h a).at s b e
  Ensures-continue f (err x, s) b h e = cc

  pub Ensures-bind :
      (m : Exec S A) (f : A → Exec S B) → ((a : A) → Ensures P (f a)) → Ensures P (m >>= f)
  Ensures-bind m f h = record { at = λ s b e. Ensures-continue f (m s) b h e }

pub ruleset ensures_rules = (Ensures-pure, Ensures-raise, Ensures-if, Ensures-bind)
