-- ===== src/Loldle/Lookup.antt =====
-- Finding a champion by what a player typed (internal/modules/loldle/lookup.go).
pub mod Reference
use miti99bot.Base.{
  Bool, true, false, ◌&&◌, ◌||◌, Option, none, some, List, [], ◌∷◌, leb, if◌then◌else◌, Text,
  text_eq, has_prefix,
}
use miti99bot.Loldle.{Champion}

-- The loop of `normalizeName`
pub strip_name : Text → Text
strip_name [] = []
strip_name (c ∷ s) =
    let rest = strip_name s in
    if (leb b'a' c && leb c b'z') || (leb b'0' c && leb c b'9') then c ∷ rest else rest

module _ (to_lower : Text → Text) where
  unfoldable pub normalize_name : Text → Text
  unfolding strip_name
  normalize_name s = strip_name (to_lower s)

  -- The loop of `findChampionMatch` over exact names
  pub find_exact : Text → List Champion → Option Champion
  find_exact q [] = none
  find_exact q (c ∷ pool) =
      let rest = find_exact q pool in
      if text_eq (normalize_name c.champion_name) q then some c else rest

  -- Its loop over prefixes, with the hit so far
  pub find_prefix : Text → List Champion → Option Champion → Option Champion × Bool
  find_prefix q [] hit = (hit, false)
  find_prefix q (c ∷ pool) none =
      let first = find_prefix q pool (some c) in
      let rest = find_prefix q pool none in
      if has_prefix (normalize_name c.champion_name) q then first else rest
  find_prefix q (c ∷ pool) (some h) =
      let rest = find_prefix q pool (some h) in
      if has_prefix (normalize_name c.champion_name) q then (none, true) else rest

  -- `findChampionMatch`: the champion, and whether a prefix was ambiguous
  unfoldable pub find_champion_match : List Champion → Text → Option Champion × Bool
  unfolding find_exact find_prefix
  find_champion_match pool input =
      let q = normalize_name input in
      if text_eq q []
      then (none, false)
      else elim (find_exact q pool) [ some c ↦ (some c, false) | none ↦ find_prefix q pool none ]

-- `findChampionByExactName`
unfoldable pub find_champion_by_exact_name : List Champion → Text → Option Champion
find_champion_by_exact_name [] name = none
find_champion_by_exact_name (c ∷ pool) name =
    let rest = find_champion_by_exact_name pool name in
    if text_eq c.champion_name name then some c else rest
