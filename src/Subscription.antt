-- ===== src/Subscription.antt =====
-- The opt-in list behind a daily push (internal/modules/util/subscription). Callers hold the
-- module's mutex around each call, so a call is one run over the store's states.
pub mod Members
pub mod Push
pub mod Claim
mod Tests
use miti99bot.Base.{
  ℕ, ◌-◌, Bool, true, false, not, ◌&&◌, ◌||◌, Option, none, some, List, [], ◌∷◌, ◌++◌, ltb, ◌==◌,
  if◌then◌else◌, length, keep, here, Text, codes, ℤ, int_eq,
}
use miti99bot.Storage.Contract.{Failure, Result, ok, err, DocStore, found_or_none}
use miti99bot.Storage.Program.{Program, pure, read, ◌>>=◌, ◌>>◌}

abbrev pub key : Text
key = codes "subscribers"

pub record Subscriber : Type 0 where
  pub chat_id : ℤ
  pub thread_id : ℤ

-- `Doc` wraps the list; it is the list here.
abbrev pub Subscribers : Type 0
Subscribers = List Subscriber

unfoldable pub is_at : ℤ → ℤ → Subscriber → Bool
is_at chat_id thread_id s = int_eq s.chat_id chat_id && int_eq s.thread_id thread_id

unfoldable pub has_pair : ℤ → ℤ → Subscribers → Bool
unfolding is_at
has_pair chat_id thread_id [] = false
has_pair chat_id thread_id (s ∷ ss) = is_at chat_id thread_id s || has_pair chat_id thread_id ss

abbrev pub or_nobody : Result (Option Subscribers) → Result Subscribers
or_nobody (ok none) = ok []
or_nobody (ok (some subs)) = ok subs
or_nobody (err e) = err e

module _ {S : Type 0} (store : DocStore S Subscribers) where
  -- `List`
  unfoldable pub subscribers : Program S Subscribers
  subscribers = read (λ s. or_nobody (found_or_none (store.get key s)))

  -- `Add`
  unfoldable pub add : ℤ → ℤ → Program S Bool
  unfolding subscribers has_pair
  add chat_id thread_id = do
    subs ← subscribers
    if has_pair chat_id thread_id subs then pure false else (do
      store.put key (subs ++ record { chat_id = chat_id; thread_id = thread_id } ∷ [])
      pure true)

  unfoldable pub remove_where : (Subscriber → Bool) → Program S ℕ
  unfolding subscribers
  remove_where drop_it = do
    subs ← subscribers
    let out = keep (λ s. not (drop_it s)) subs
    let removed = length subs - length out
    if removed == 0 then pure 0 else (do store.put key out; pure removed)

  unfoldable pub remove : ℤ → ℤ → Program S Bool
  unfolding remove_where is_at
  remove chat_id thread_id = do n ← remove_where (is_at chat_id thread_id); pure (ltb 0 n)

  unfoldable pub remove_all_for_chat : ℤ → Program S ℕ
  unfolding remove_where
  remove_all_for_chat chat_id = remove_where (λ s. int_eq s.chat_id chat_id)
