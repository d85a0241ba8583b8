-- ===== src/Alias/Media.antt =====
-- What of a message is saved, and how it is sent again (internal/modules/alias/alias_media.go).
-- Telegram's calls are values, one constructor per call of `send`, with the parameters that are
-- set.
use miti99bot.Base.{
  Bool, true, false, not, ◌||◌, Option, none, some, List, [], ◌∷◌, ◌==◌, if◌then◌else◌, length,
  Text, text_eq, ℤ, pos, int_lt,
}
use miti99bot.Alias.{
  Kind, kind_sticker, kind_photo, kind_animation, kind_video, kind_video_note, kind_audio,
  kind_voice, kind_document, kind_text, other_kind, Alias,
}

pub record PhotoSize : Type 0 where
  pub file_id : Text
  pub file_size : ℤ

-- The fields of `models.Message` that are read of the message replied to; a media field is its
-- file id.
pub record Replied (E : Type 0) : Type 0 where
  pub from_is_bot : Option Bool
  pub text : Text
  pub entities : List E
  pub caption : Text
  pub caption_entities : List E
  pub sticker : Option Text
  pub photo : List PhotoSize
  pub animation : Option Text
  pub video : Option Text
  pub video_note : Option Text
  pub audio : Option Text
  pub voice : Option Text
  pub document : Option Text
  pub location : Bool
  pub contact : Bool
  pub poll : Bool
  pub dice : Bool
  pub venue : Bool
  pub game : Bool

abbrev pub has : Option Text → Bool
has none = false
has (some f) = true

abbrev pub any_true : List Bool → Bool
any_true [] = false
any_true (b ∷ bs) = b || any_true bs

-- The loop of `largestPhoto`
larger_photo : PhotoSize → List PhotoSize → PhotoSize
larger_photo best [] = best
larger_photo best (size ∷ sizes) =
    larger_photo (if int_lt best.file_size size.file_size then size else best) sizes

-- `largestPhoto` of the first photo and the others
unfoldable pub largest_photo : PhotoSize → List PhotoSize → Text
unfolding larger_photo
largest_photo size sizes = (larger_photo size sizes).file_id

module _ {E : Type 0} where
  -- `fromAnotherBot`
  unfoldable pub from_another_bot : Option (Replied E) → Bool
  from_another_bot none = false
  from_another_bot (some m) = elim m.from_is_bot [ none ↦ false | some b ↦ b ]

  -- `contentFields`, each as its test
  unfoldable pub content_fields : Replied E → List Bool
  unfolding text_eq
  content_fields m =
      not (text_eq m.text [])
      ∷ not (text_eq m.caption [])
      ∷ has m.sticker
      ∷ not (length m.photo == 0)
      ∷ has m.animation
      ∷ has m.video
      ∷ has m.video_note
      ∷ has m.audio
      ∷ has m.voice
      ∷ has m.document
      ∷ m.location
      ∷ m.contact
      ∷ m.poll
      ∷ m.dice
      ∷ m.venue
      ∷ m.game
      ∷ []

  -- `hasContent`
  unfoldable pub has_content : Option (Replied E) → Bool
  unfolding content_fields
  has_content none = false
  has_content (some m) = any_true (content_fields m)

  -- An `Alias` literal with the other fields zero
  abbrev pub bare : Kind → Text → Text → List E → Alias E
  bare kind file_id text entities = record {
    name = [];
    kind = kind;
    file_id = file_id;
    text = text;
    owner_id = pos 0;
    created_at = pos 0;
    entities = entities;
  }

  abbrev captioned : Replied E → Kind → Text → Option (Alias E)
  captioned m kind file_id = some (bare kind file_id m.caption m.caption_entities)

  -- The cases of `capture` from the photo on
  unfoldable pub capture_plain : Replied E → Option (Alias E)
  capture_plain m =
      let words : Option (Alias E) =
        if text_eq m.text [] then none else some (bare kind_text [] m.text m.entities) in
      elim m.photo [
        | size ∷ sizes ↦ captioned m kind_photo (largest_photo size sizes)
        | [] ↦ elim m.document [ some f ↦ captioned m kind_document f | none ↦ words ]
      ]

  -- `capture` of a message
  unfoldable pub capture_message : Replied E → Option (Alias E)
  unfolding capture_plain largest_photo
  capture_message m = elim m.sticker [
    | some f ↦ some (bare kind_sticker f [] [])
    | none ↦ elim m.animation [
      | some f ↦ captioned m kind_animation f
      | none ↦ elim m.video_note [
        | some f ↦ some (bare kind_video_note f [] [])
        | none ↦ elim m.video [
          | some f ↦ captioned m kind_video f
          | none ↦ elim m.voice [
            | some f ↦ captioned m kind_voice f
            | none ↦ elim m.audio [ some f ↦ captioned m kind_audio f | none ↦ capture_plain m ]
          ]
        ]
      ]
    ]
  ]

  -- `capture`
  unfoldable pub capture : Option (Replied E) → Option (Alias E)
  unfolding capture_message
  capture none = none
  capture (some m) = capture_message m

-- The file, the caption and its entities of a call, in a chat and a thread
pub data Call (E : Type 0) : Type 0 where
  send_sticker send_video_note : ℤ → ℤ → Text → Call E
  send_photo send_animation send_video send_audio send_voice send_document :
      ℤ → ℤ → Text → Text → List E → Call E
  send_message : ℤ → ℤ → Text → List E → Call E

-- The call that `send` makes; none is `errUnknownKind`.
unfoldable pub call_for : {E : Type 0} → ℤ → ℤ → Alias E → Option (Call E)
call_for chat_id thread a = elim a.kind [
  | kind_sticker ↦ some (send_sticker chat_id thread a.file_id)
  | kind_photo ↦ some (send_photo chat_id thread a.file_id a.text a.entities)
  | kind_animation ↦ some (send_animation chat_id thread a.file_id a.text a.entities)
  | kind_video ↦ some (send_video chat_id thread a.file_id a.text a.entities)
  | kind_video_note ↦ some (send_video_note chat_id thread a.file_id)
  | kind_audio ↦ some (send_audio chat_id thread a.file_id a.text a.entities)
  | kind_voice ↦ some (send_voice chat_id thread a.file_id a.text a.entities)
  | kind_document ↦ some (send_document chat_id thread a.file_id a.text a.entities)
  | kind_text ↦ some (send_message chat_id thread a.text a.entities)
  | other_kind k ↦ none
]
