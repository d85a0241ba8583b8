-- ===== src/Coin/Handlers/Purchase.antt =====
-- What a purchase leaves behind.
use miti99bot.Base.{
  ℕ, ◌≡◌, refl, ◌⊎◌, inl, inr, Bool, true, false, not, ◌||◌, Option, none, some, List, [], ◌∷◌,
  if◌then◌else◌, Text, ℤ, pos,
}
use miti99bot.Chat.{Message}
use miti99bot.Storage.Contract.{DocStore, IsDocStore}
use miti99bot.Stock.{Floats}
use miti99bot.Stock.Handlers.{sender_info, args_after_command, two_of}
use miti99bot.Coin.{Portfolio}
use miti99bot.Coin.Account.{
  Update, updated, rejected, cannot_load, invalid, cannot_save, conflicted, is_positive_finite,
  portfolio_key,
}
use miti99bot.Coin.Account.Updates.{Interfered, untouched, IsOutcome, update_portfolio_lem}
use miti99bot.Coin.Handlers.{
  PriceError, Reply, bought, CoinValueArgs, invalid_value, unsupported, coin_value, TradeError,
  insufficient, cannot_buy, not_saved, insufficient_usd, parse_coin_value_args, buy, handle_buy,
}

module _ {F S : Type 0} (Good : Reply F × S → Type 0) where
  Good-option :
      {A : Type 0} (o : Option A) (a : Reply F × S) (f : A → Reply F × S)
      → Good a
      → ((x : A) → o ≡ some x → Good (f x))
      → Good (elim o [ none ↦ a | some x ↦ f x ])
  Good-option none a f h k = h
  Good-option (some x) a f h k = k x refl

  Good-sum :
      {A B : Type 0} (o : A ⊎ B) (f : A → Reply F × S) (g : B → Reply F × S)
      → ((x : A) → Good (f x))
      → ((y : B) → o ≡ inr y → Good (g y))
      → Good (elim o [ inl x ↦ f x | inr y ↦ g y ])
  Good-sum (inl x) f g h k = h x
  Good-sum (inr y) f g h k = k y refl

  Good-if : (b : Bool) (x y : Reply F × S) → Good x → Good y → Good (if b then x else y)
  Good-if true x y h k = h
  Good-if false x y h k = k

  Good-two_of :
      (args : List Text) (a : Reply F × S) (f : Text → Text → Reply F × S)
      → Good a
      → ((x y : Text) → args ≡ x ∷ y ∷ [] → Good (f x y))
      → Good (two_of args a f)
  Good-two_of [] a f h k = h
  Good-two_of (x ∷ []) a f h k = h
  Good-two_of (x ∷ y ∷ []) a f h k = k x y refl
  Good-two_of (x ∷ y ∷ z ∷ zs) a f h k = h

  Good-args :
      (args : CoinValueArgs F) (a b : Reply F × S) (f : Text → F → Reply F × S)
      → Good a
      → Good b
      → ((coin : Text) (amount : F) → args ≡ coin_value coin amount → Good (f coin amount))
      → Good (elim args [
        | invalid_value ↦ a
        | unsupported ↦ b
        | coin_value coin amount ↦ f coin amount
      ])
  Good-args invalid_value a b f h i k = h
  Good-args unsupported a b f h i k = i
  Good-args (coin_value coin amount) a b f h i k = k coin amount refl

module _ {F S : Type 0} (fl : Floats F) (abs : F → F) (dust : F) (to_upper : Text → Text)
    (store : DocStore S (Portfolio F)) (view : S → Text → Option (Portfolio F))
    (version : S → Text → ℕ) (laws : IsDocStore store view version)
    (fetch_usd : Text → PriceError ⊎ F) (now : ℕ) (others : ℕ → S → S) where
  abbrev Outcome : ℤ → Text → F → F → S → Update F (TradeError F) × S → Type 0
  Outcome user coin quantity amount s result =
      IsOutcome fl abs dust to_upper store view version laws
        (buy fl abs dust to_upper store fetch_usd now others coin quantity amount) others
        (portfolio_key user) (pos now) s result

  -- The arguments of the message name the coin and the amount.
  abbrev pub Ordered : Message → Text → F → Type 0
  Ordered msg coin amount =
      (first second : Text) × (args_after_command msg.text ≡ first ∷ second ∷ [])
      × (parse_coin_value_args fl abs dust to_upper store fetch_usd now others first second
          ≡ coin_value coin amount)

  -- If the reply is "Bought", the account of the sender was written with the change of this
  -- purchase, made at the price fetched, and the reply shows its balance. With another reply
  -- nothing was written.
  abbrev pub IsPurchase : Message → S → Reply F × S → Type 0
  IsPurchase msg s (bought quantity coin price amount balance, s') =
      (user : ℤ) × (p : Portfolio F) × Ordered msg coin amount
      × (quantity ≡ fl.div amount price)
      × (sender_info msg ≡ some user)
      × (fetch_usd coin ≡ inr price)
      × (p.usd ≡ balance)
      × Outcome user coin quantity amount s (updated p, s')
  IsPurchase msg s (reply, s') = Interfered others s s'

  abbrev answer : F → Text → F → F → Update F (TradeError F) × S → Reply F × S
  answer quantity coin price amount (u, s') = elim u [
    | updated p ↦ (bought quantity coin price amount p.usd, s')
    | rejected (insufficient balance) ↦ (insufficient_usd amount balance, s')
    | e ↦ (not_saved, s')
  ]

  answer-IsPurchase :
      (msg : Message) (user : ℤ) (coin : Text) (quantity amount price : F) (s : S)
      (result : Update F (TradeError F) × S)
      → sender_info msg ≡ some user
      → Ordered msg coin amount
      → quantity ≡ fl.div amount price
      → fetch_usd coin ≡ inr price
      → Outcome user coin quantity amount s result
      → IsPurchase msg s (answer quantity coin price amount result)
  answer-IsPurchase msg user coin quantity amount price s (updated p, s') h o d k out =
      (user, p, o, d, h, k, refl, out)
  answer-IsPurchase msg user coin quantity amount price s (rejected (insufficient b), s') h o d k
        out =
      out
  answer-IsPurchase msg user coin quantity amount price s (rejected cannot_buy, s') h o d k out =
      out
  answer-IsPurchase msg user coin quantity amount price s (cannot_load, s') h o d k out = out
  answer-IsPurchase msg user coin quantity amount price s (invalid, s') h o d k out = out
  answer-IsPurchase msg user coin quantity amount price s (cannot_save, s') h o d k out = out
  answer-IsPurchase msg user coin quantity amount price s (conflicted, s') h o d k out = out

  -- For a store that keeps the contract of `DocStore`, whatever other writers do to it before
  -- each write of an attempt as long as they use no version of an account's key for two values:
  -- if `handleBuy` replies "Bought", the message names the coin and the amount, the quantity is
  -- the amount over the price that was fetched, the sender's account holds the normalized and
  -- valid result of paying and adding this quantity to what it held at the moment of the write,
  -- the reply shows its balance, and no other key has changed with that write; with every other
  -- reply nothing was written but by the others.
  pub handle_buy_lem :
      (msg : Message) (s : S)
      → ((key : Text) (n : ℕ) (u : S)
          → version (others n u) key ≡ version u key
          → view (others n u) key ≡ view u key)
      → IsPurchase msg s (handle_buy fl abs dust to_upper store fetch_usd now others msg s)
  unfolding handle_buy
  handle_buy_lem msg s honest = Good-option Good (sender_info msg) _ _ untouched (λ user sender.
      Good-two_of Good (args_after_command msg.text) _ _ untouched (λ first second given.
        Good-args Good
          (parse_coin_value_args fl abs dust to_upper store fetch_usd now others first second) _ _ _
          untouched untouched
          (λ coin amount parsed.
            Good-sum Good (fetch_usd coin) _ _ (λ e. untouched)
              (λ price fetched.
                let quantity = fl.div amount price in
                Good-if Good (not (is_positive_finite fl abs dust to_upper price)) _ _ untouched (
                  Good-if Good
                    (not (is_positive_finite fl abs dust to_upper quantity)
                      || fl.less quantity dust)
                    _ _ untouched
                    (answer-IsPurchase msg user coin quantity amount price s _ sender
                      (first, second, given, parsed) refl fetched
                      (update_portfolio_lem fl abs dust to_upper store view version laws
                        (buy fl abs dust to_upper store fetch_usd now others coin quantity amount)
                        others user (pos now) s (honest (portfolio_key user)))))))))
    where
      Good : Reply F × S → Type 0
      Good = IsPurchase msg s
