-- ===== src/Alias.antt =====
-- Saved messages under shared names (internal/modules/alias). A kind is stored as a text; the ones
-- this build knows are constructors, any other is `other_kind`. Telegram's message entities are a
-- parameter `E`, which is only stored and sent again.
pub mod Names
pub mod Media
pub mod Listing
pub mod Inline
pub mod Handlers
mod Tests
use miti99bot.Base.{List, [], Text, codes, ℤ}

pub data Kind : Type 0 where
  kind_sticker kind_photo kind_animation kind_video kind_video_note kind_audio kind_voice
        kind_document kind_text :
      Kind
  other_kind : Text → Kind

-- `Alias`
pub record Alias (E : Type 0) : Type 0 where
  pub name : Text
  pub kind : Kind
  pub file_id : Text
  pub text : Text
  pub owner_id : ℤ
  pub created_at : ℤ
  pub entities : List E

-- `describe`
unfoldable pub describe : Kind → Text
describe kind_sticker = codes "sticker"
describe kind_photo = codes "photo"
describe kind_animation = codes "GIF"
describe kind_video = codes "video"
describe kind_video_note = codes "video note"
describe kind_audio = codes "audio track"
describe kind_voice = codes "voice message"
describe kind_document = codes "file"
describe kind_text = codes "message"
describe (other_kind k) = codes "message"

-- `kindLabel`
unfoldable pub kind_label : Kind → Text
unfolding describe
kind_label kind_text = codes "text"
kind_label (other_kind []) = codes "unreadable"
kind_label k = describe k
