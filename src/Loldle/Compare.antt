-- ===== src/Loldle/Compare.antt =====
-- Comparing a guessed champion with the target (internal/modules/loldle/compare.go). Unicode's
-- lower case and case folding are parameters. A set is a list without repeats, in the order of
-- insertion.
pub mod Sets
use miti99bot.Base.{
  ℕ, ◌+◌, ◌-◌, ◌*◌, ◌/◌, ◌%◌, Bool, true, false, not, ◌&&◌, ◌||◌, List, [], ◌∷◌, ◌++◌, ltb, leb,
  ◌==◌, if◌then◌else◌, length, Text, codes, text_eq,
}
use miti99bot.Chat.{trim_space}
use miti99bot.Loldle.{Champion}

pub data AttrType : Type 0 where
  attr_exact attr_multi attr_year : AttrType

pub data Outcome : Type 0 where
  outcome_correct outcome_partial outcome_wrong : Outcome

pub data Direction : Type 0 where
  direction_none direction_up direction_down : Direction

-- `AttributeRow`; the key stands for the key with its label.
pub record AttributeRow : Type 0 where
  pub key : Text
  pub kind : AttrType
  pub guess_value : Text
  pub target_value : Text
  pub outcome : Outcome
  pub direction : Direction

-- `classicAttributes`
abbrev pub classic_attributes : List (Text × AttrType)
classic_attributes =
    (codes "gender", attr_exact)
    ∷ (codes "species", attr_multi)
    ∷ (codes "range_type", attr_multi)
    ∷ (codes "resource", attr_exact)
    ∷ (codes "regions", attr_multi)
    ∷ (codes "positions", attr_multi)
    ∷ (codes "release_date", attr_year)
    ∷ []

-- The values that `attrValue` returns
pub data Value : Type 0 where
  no_value : Value
  one_text : Text → Value
  many_texts : List Text → Value

unfoldable pub attr_value : Champion → Text → Value
attr_value c key =
    if text_eq key (codes "gender")
    then one_text c.gender
    else if text_eq key (codes "species")
    then many_texts c.species
    else if text_eq key (codes "range_type")
    then many_texts c.range_type
    else if text_eq key (codes "resource")
    then one_text c.resource
    else if text_eq key (codes "regions")
    then many_texts c.regions
    else if text_eq key (codes "positions")
    then many_texts c.positions
    else if text_eq key (codes "release_date")
    then one_text c.release_date
    else no_value

-- `strings.Join`
unfoldable pub join : Text → List Text → Text
join sep [] = []
join sep (x ∷ []) = x
join sep (x ∷ y ∷ xs) = x ++ (sep ++ join sep (y ∷ xs))

unfoldable pub as_string : Value → Text
unfolding join
as_string no_value = []
as_string (one_text x) = x
as_string (many_texts xs) = join (codes ",") xs

-- `strings.Split` at a comma, with the bytes read of the current part
split_from : Text → Text → List Text
split_from part [] = part ∷ []
split_from part (c ∷ s) =
    let next = part ∷ split_from [] s in
    let longer = split_from (part ++ c ∷ []) s in if c == b',' then next else longer

unfoldable pub as_string_slice : Value → List Text
unfolding split_from
as_string_slice no_value = []
as_string_slice (one_text x) = if text_eq x [] then [] else split_from [] x
as_string_slice (many_texts xs) = xs

pub has_element : Text → List Text → Bool
has_element x [] = false
has_element x (y ∷ ys) = text_eq y x || has_element x ys

-- `out[t] = struct{}{}`
abbrev pub add_element : Text → List Text → List Text
add_element t set = if has_element t set then set else set ++ t ∷ []

-- The loop of `toLowerSet` with the set so far
pub lower_set_from : (Text → Text) → List Text → List Text → List Text
lower_set_from to_lower set [] = set
lower_set_from to_lower set (s ∷ xs) =
    let t = trim_space (to_lower s) in
    let more = lower_set_from to_lower (add_element t set) xs in
    let same = lower_set_from to_lower set xs in if text_eq t [] then same else more

unfoldable pub to_lower_set : (Text → Text) → List Text → List Text
unfolding lower_set_from has_element
to_lower_set to_lower xs = lower_set_from to_lower [] xs

-- The loop of `setsEqual`
pub all_in : List Text → List Text → Bool
all_in [] b = true
all_in (x ∷ a) b = has_element x b && all_in a b

unfoldable pub sets_equal : List Text → List Text → Bool
unfolding all_in
sets_equal a b = if not (length a == length b) then false else all_in a b

-- The loop of `compareMultiValue` that looks for an overlap
pub any_in : List Text → List Text → Bool
any_in [] b = false
any_in (x ∷ a) b = has_element x b || any_in a b

-- `compareMultiValue` from its sets on
unfoldable pub outcome_of : List Text → List Text → Outcome
unfolding sets_equal any_in
outcome_of g t =
    if length g == 0 && length t == 0
    then outcome_correct
    else if length g == 0 || length t == 0
    then outcome_wrong
    else if sets_equal g t
    then outcome_correct
    else if any_in g t
    then outcome_partial
    else outcome_wrong

unfoldable pub compare_multi_value : (Text → Text) → List Text → List Text → Outcome
unfolding to_lower_set outcome_of
compare_multi_value to_lower guess target =
    outcome_of (to_lower_set to_lower guess) (to_lower_set to_lower target)

is_digit : ℕ → Bool
is_digit c = leb b'0' c && leb c b'9'

unfoldable pub parse_year : Text → ℕ
unfolding is_digit
parse_year (a ∷ b ∷ c ∷ d ∷ s) =
    if is_digit a && is_digit b && is_digit c && is_digit d
    then (((a - 48) * 10 + (b - 48)) * 10 + (c - 48)) * 10 + (d - 48)
    else 0
parse_year (a ∷ b ∷ c ∷ []) = 0
parse_year (a ∷ b ∷ []) = 0
parse_year (a ∷ []) = 0
parse_year [] = 0

unfoldable pub fmt_year : ℕ → Text
fmt_year y =
    (48 + (y / 1000) % 10) ∷ (48 + (y / 100) % 10) ∷ (48 + (y / 10) % 10) ∷ (48 + y % 10) ∷ []

unfoldable pub year_or_placeholder : ℕ → Text
unfolding fmt_year
year_or_placeholder y = if y == 0 then codes "?" else fmt_year y

unfoldable pub compare_year : ℕ → ℕ → Outcome × Direction
compare_year g t =
    if g == 0 || t == 0
    then (outcome_wrong, direction_none)
    else if g == t
    then (outcome_correct, direction_none)
    else if ltb g t
    then (outcome_wrong, direction_up)
    else (outcome_wrong, direction_down)

-- The em dash in UTF-8
abbrev no_value_text : Text
no_value_text = 0xE2 ∷ 0x80 ∷ 0x94 ∷ []

unfoldable pub format_value : Value → Text
unfolding join
format_value no_value = no_value_text
format_value (one_text x) = if text_eq x [] then no_value_text else x
format_value (many_texts xs) = if length xs == 0 then no_value_text else join (codes ", ") xs

module _ (to_lower : Text → Text) (equal_fold : Text → Text → Bool) where
  -- One round of `CompareChampions`
  unfoldable pub compare_attribute : Champion → Champion → Text → AttrType → AttributeRow
  unfolding attr_value as_string as_string_slice parse_year year_or_placeholder compare_year
      format_value compare_multi_value
  compare_attribute guess target key attr_year =
      let gy = parse_year (as_string (attr_value guess key)) in
      let ty = parse_year (as_string (attr_value target key)) in
      let (outcome, direction) = compare_year gy ty in
      record {
        key = key;
        kind = attr_year;
        guess_value = year_or_placeholder gy;
        target_value = year_or_placeholder ty;
        outcome = outcome;
        direction = direction;
      }
  compare_attribute guess target key attr_exact =
      let g = attr_value guess key in
      let t = attr_value target key in
      record {
        key = key;
        kind = attr_exact;
        guess_value = format_value g;
        target_value = format_value t;
        outcome = if equal_fold (as_string g) (as_string t) then outcome_correct else outcome_wrong;
        direction = direction_none;
      }
  compare_attribute guess target key attr_multi =
      let g = attr_value guess key in
      let t = attr_value target key in
      record {
        key = key;
        kind = attr_multi;
        guess_value = format_value g;
        target_value = format_value t;
        outcome = compare_multi_value to_lower (as_string_slice g) (as_string_slice t);
        direction = direction_none;
      }

  compare_attributes : Champion → Champion → List (Text × AttrType) → List AttributeRow
  unfolding compare_attribute
  compare_attributes guess target [] = []
  compare_attributes guess target ((key, kind) ∷ attrs) =
      compare_attribute guess target key kind ∷ compare_attributes guess target attrs

  unfoldable pub compare_champions : Champion → Champion → List AttributeRow
  unfolding compare_attributes
  compare_champions guess target = compare_attributes guess target classic_attributes
