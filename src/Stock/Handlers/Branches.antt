-- ===== src/Stock/Handlers/Branches.antt =====
-- A predicate on results that holds in each branch of a command holds of the command.
use miti99bot.Base.{Bool, true, false, Option, none, some, List, [], ◌∷◌, if◌then◌else◌, Text, ℤ}
use miti99bot.Stock.{Portfolio}
use miti99bot.Stock.Account.{Sale, refused, failed, sold}
use miti99bot.Stock.Handlers.{Price, no_price, fetch_failed, price_of, Reply, one_of, two_of}

module _ {F S : Type 0} (Good : Reply F × S → Type 0) where
  module _ {A : Type 0} where
    pub Good-option :
        (o : Option A) (a : Reply F × S) (f : A → Reply F × S)
        → Good a
        → ((x : A) → Good (f x))
        → Good (elim o [ none ↦ a | some x ↦ f x ])
    Good-option none a f h k = h
    Good-option (some x) a f h k = k x

  pub Good-if : (b : Bool) (x y : Reply F × S) → Good x → Good y → Good (if b then x else y)
  Good-if true x y h k = h
  Good-if false x y h k = k

  pub Good-price :
      (price : Price F) (a b : Reply F × S) (f : F → Reply F × S)
      → Good a
      → Good b
      → ((x : F) → Good (f x))
      → Good (elim price [ no_price ↦ a | fetch_failed ↦ b | price_of x ↦ f x ])
  Good-price no_price a b f h k l = h
  Good-price fetch_failed a b f h k l = k
  Good-price (price_of x) a b f h k l = l x

  pub Good-sale :
      (sale : Sale F) (f : ℤ → Reply F × S) (b : Reply F × S)
      (g : ℤ → F → Portfolio F → Reply F × S)
      → ((x : ℤ) → Good (f x))
      → Good b
      → ((x : ℤ) (y : F) (z : Portfolio F) → Good (g x y z))
      → Good (elim sale [ refused x ↦ f x | failed ↦ b | sold x y z ↦ g x y z ])
  Good-sale (refused x) f b g h k l = h x
  Good-sale failed f b g h k l = k
  Good-sale (sold x y z) f b g h k l = l x y z

  pub Good-one_of :
      (args : List Text) (a : Reply F × S) (f : Text → Reply F × S)
      → Good a
      → ((x : Text) → Good (f x))
      → Good (one_of args a f)
  Good-one_of [] a f h k = h
  Good-one_of (x ∷ []) a f h k = k x
  Good-one_of (x ∷ y ∷ zs) a f h k = h

  pub Good-two_of :
      (args : List Text) (a : Reply F × S) (f : Text → Text → Reply F × S)
      → Good a
      → ((x y : Text) → Good (f x y))
      → Good (two_of args a f)
  Good-two_of [] a f h k = h
  Good-two_of (x ∷ []) a f h k = h
  Good-two_of (x ∷ y ∷ []) a f h k = k x y
  Good-two_of (x ∷ y ∷ z ∷ zs) a f h k = h
