-- ===== src/Wordle/Lookup.antt =====
-- Reading a guess (internal/modules/wordle/lookup.go). `strings.ToLower` goes by the Unicode tables
-- of Go's library and is a parameter.
use miti99bot.Base.{
  ◌≡◌, refl, ◌⊎◌, inl, inr, Bool, false, not, ◌&&◌, ◌||◌, List, [], ◌∷◌, leb, ◌==◌, if◌then◌else◌,
  length, Text, text_eq,
}
use miti99bot.Wordle.Compare.{word_length}

-- The loop of `normalizeWord`: only the letters a to z stay.
pub strip_letters : Text → Text
strip_letters [] = []
strip_letters (c ∷ cs) =
    let rest = strip_letters cs in if leb b'a' c && leb c b'z' then c ∷ rest else rest

-- `rejectReason`
pub data RejectReason : Type 0 where
  reason_empty reason_length reason_unknown : RejectReason

-- `guessResult`: the normalised word, with the reason if it is refused.
pub data GuessResult : Type 0 where
  accepted : Text → GuessResult
  rejected : Text → RejectReason → GuessResult

pub GuessResult-cases :
    (v : GuessResult)
    → ((w : Text) × (v ≡ accepted w))
      ⊎ ((w : Text) × (reason : RejectReason) × (v ≡ rejected w reason))
GuessResult-cases (accepted w) = inl (w, refl)
GuessResult-cases (rejected w reason) = inr (w, reason, refl)

-- `_, ok := dict[w]`
pub text_in : Text → List Text → Bool
text_in w [] = false
text_in w (d ∷ ds) = text_eq d w || text_in w ds

module _ (to_lower : Text → Text) where
  unfoldable pub normalize_word : Text → Text
  unfolding strip_letters
  normalize_word input = strip_letters (to_lower input)

  unfoldable pub validate_guess : List Text → Text → GuessResult
  unfolding normalize_word text_in
  validate_guess dict input =
      let w = normalize_word input in
      if text_eq w []
      then rejected w reason_empty
      else if not (length w == word_length)
      then rejected w reason_length
      else if not (text_in w dict)
      then rejected w reason_unknown
      else accepted w
