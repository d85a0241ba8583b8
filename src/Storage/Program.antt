-- ===== src/Storage/Program.antt =====
-- Handlers as programs over the state of a collection: an error stops the rest, and what was
-- written before it stays written.
use miti99bot.Base.{◌≡◌, refl, ◌⊎◌, inl, inr, arith}
use miti99bot.Storage.Contract.{Failure, Result, ok, err}

abbrev pub Program : Type 0 → Type 0 → Type 0
Program S A = S → Result A × S

module _ {S : Type 0} where
  abbrev pub pure : {A : Type 0} → A → Program S A
  pure a s = (ok a, s)

  abbrev pub fail : {A : Type 0} → Failure → Program S A
  fail e s = (err e, s)

  abbrev pub read : {A : Type 0} → (S → Result A) → Program S A
  read f s = (f s, s)

infixl 5 ◌>>=◌ ◌>>◌
abbrev pub ◌>>=◌ : {S A B : Type 0} → Program S A → (A → Program S B) → Program S B
◌>>=◌ m f s = let (r, s') = m s in elim r [ ok a ↦ f a s' | err e ↦ (err e, s') ]

abbrev pub ◌>>◌ : {S A B : Type 0} → Program S A → Program S B → Program S B
m >> k = m >>= λ _. k

pub Result-cases :
    {A : Type 0} (r : Result A) → ((a : A) × (r ≡ ok a)) ⊎ ((e : Failure) × (r ≡ err e))
Result-cases (ok a) = inl (a, refl)
Result-cases (err e) = inr (e, refl)

-- Inversion of a run that ends well.
pub >>=-eq-ok :
    {S A B : Type 0} (m : Program S A) (f : A → Program S B) (s : S) (b : B)
    → ((m >>= f) s).0 ≡ ok b
    → (a : A) × ((m s).0 ≡ ok a) × ((m >>= f) s ≡ f a (m s).1)
>>=-eq-ok m f s b h = elim (Result-cases (m s).0) [
  | inl (a, e) ↦ (a, e, ground arith)
  | inr (x, e) ↦ absurd (ground arith)
]
