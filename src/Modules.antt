-- ===== src/Modules.antt =====
-- The registry of the bot's modules (internal/modules): what a module declares.
pub mod Validate
pub mod Registry
pub mod Dispatcher
mod Tests
use miti99bot.Base.{Option, none, List, Text, ℤ}

-- `Visibility`; `other_visibility` is any other number of the Go type.
pub data Visibility : Type 0 where
  visibility_public visibility_protected visibility_private visibility_unlisted : Visibility
  other_visibility : ℤ → Visibility

-- `Command`, over the type `H` of handlers; none is a nil handler.
pub record Command (H : Type 0) : Type 0 where
  pub name : Text
  pub visibility : Visibility
  pub description : Text
  pub parameters : Text
  pub handler : Option H

-- `Cron`
pub record Cron (H : Type 0) : Type 0 where
  pub schedule : Text
  pub name : Text
  pub handler : Option H

-- `Callback`
pub record Callback (H : Type 0) : Type 0 where
  pub prefix : Text
  pub visibility : Visibility
  pub handler : Option H

-- `CommandFallback` and `InlineQuery`
pub record Singleton (H : Type 0) : Type 0 where
  pub visibility : Visibility
  pub handler : Option H

-- `Module`
pub record Module (H : Type 0) : Type 0 where
  pub name : Text
  pub commands : List (Command H)
  pub callbacks : List (Callback H)
  pub crons : List (Cron H)
  pub command_hook : Option H
  pub fallback : Option (Singleton H)
  pub inline : Option (Singleton H)

-- `Deps`: the module's own collection, of the type `C` that the provider returns. The pointers to
-- the registry and to the bot are left out; what a factory does with them is part of the factory.
pub record Deps (C : Type 0) : Type 0 where
  pub store : C
