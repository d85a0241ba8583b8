-- ===== src/Alias/Inline.antt =====
-- The answer to an inline query (internal/modules/alias/alias_inline.go). Whether Telegram takes
-- the answer, its cache time and the time limit are left out.
pub mod Answers
use miti99bot.Base.{
  ℕ, not, ◌&&◌, Option, none, some, List, [], ◌∷◌, ◌++◌, ◌==◌, if◌then◌else◌, length, Text, text_eq,
  has_prefix,
}
use miti99bot.Chat.{trim_space}
use miti99bot.Storage.Contract.{ok, err, Doc, DocStore}
use miti99bot.Alias.{
  kind_sticker, kind_photo, kind_animation, kind_video, kind_video_note, kind_audio, kind_voice,
  kind_document, kind_text, other_kind, Alias,
}

abbrev pub max_inline_results : ℕ
max_inline_results = 50

-- The cached results of Telegram: an id with the file, and the title, caption and entities that
-- are set
pub data InlineResult (E : Type 0) : Type 0 where
  cached_sticker : Text → Text → InlineResult E
  cached_photo cached_gif cached_video cached_voice cached_document :
      Text → Text → Text → Text → List E → InlineResult E
  cached_audio : Text → Text → Text → List E → InlineResult E
  article : Text → Text → Text → Text → List E → InlineResult E

module _ {E : Type 0} where
  -- `inlineResult`; none is nil.
  unfoldable pub inline_result : Text → Alias E → Option (InlineResult E)
  inline_result name a = elim a.kind [
    | kind_sticker ↦ some (cached_sticker name a.file_id)
    | kind_photo ↦ some (cached_photo name a.file_id name a.text a.entities)
    | kind_animation ↦ some (cached_gif name a.file_id name a.text a.entities)
    | kind_video ↦ some (cached_video name a.file_id name a.text a.entities)
    | kind_video_note ↦ none
    | kind_audio ↦ some (cached_audio name a.file_id a.text a.entities)
    | kind_voice ↦ some (cached_voice name a.file_id name a.text a.entities)
    | kind_document ↦ some (cached_document name a.file_id name a.text a.entities)
    | kind_text ↦ some (article name name a.text a.text a.entities)
    | other_kind k ↦ none
  ]

  -- The loop of `handleInline`, with the results so far
  unfoldable pub collect_results :
      Text → List (InlineResult E) → List (Doc (Alias E)) → List (InlineResult E)
  unfolding inline_result has_prefix text_eq
  collect_results prefix results [] = results
  collect_results prefix results (doc ∷ docs) =
      let skip = not (text_eq prefix []) && not (has_prefix doc.id prefix) in
      let results' : List (InlineResult E) = elim (inline_result doc.id doc.val) [
        | none ↦ results
        | some r ↦ results ++ r ∷ []
      ] in
      let skipped = collect_results prefix results docs in
      let rest = collect_results prefix results' docs in
      if skip then skipped else if length results' == max_inline_results then results' else rest

  module _ {S : Type 0} (store : DocStore S (Alias E)) (to_lower : Text → Text) where
    -- `handleInline`: the results of the answer to the query; no answer without one
    unfoldable pub handle_inline : Option Text → S → Option (List (InlineResult E))
    unfolding collect_results
    handle_inline none s = none
    handle_inline (some query) s = elim (store.scan [] s) [
      | err e ↦ some []
      | ok docs ↦ some (collect_results (to_lower (trim_space query)) [] docs)
    ]
