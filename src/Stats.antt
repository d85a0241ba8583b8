-- ===== src/Stats.antt =====
-- Counting the use of commands (internal/modules/stats): the store over a `DocStore`, and the
-- views of `/stats`.
pub mod Usage
pub mod Views
mod Tests
-- `usageEntry`; a count stays far below 2^63.
use miti99bot.Base.{
  ℕ, Bool, ◌||◌, List, [], ◌∷◌, ◌++◌, ltb, leb, ◌==◌, if◌then◌else◌, length, take, Text, codes,
  text_eq, text_lt, ℤ, pos, format_int, int_eq,
}

pub record UsageEntry : Type 0 where
  pub cmd : Text
  pub user_id : ℤ
  pub username : Text
  pub n : ℕ
  pub deleted : Bool

-- `usageUser`
pub record UsageUser : Type 0 where
  pub id : ℤ
  pub username : Text

-- `row`
pub record Row : Type 0 where
  pub display : Text
  pub n : ℕ

abbrev pub deleted_stock_dividend_command : Text
deleted_stock_dividend_command = codes "stock_dividend"

-- `isRetiredCommand`
unfoldable pub is_retired_command : Text → Bool
unfolding text_eq
is_retired_command cmd = text_eq cmd deleted_stock_dividend_command

-- `usageKey`
unfoldable pub usage_key : Text → ℤ → Text
unfolding format_int
usage_key cmd user_id =
    if int_eq user_id (pos 0) then cmd else cmd ++ (codes ":" ++ format_int user_id)

-- The order of `sortRows`: the larger count first, then the text
comes_before : Row → Row → Bool
unfolding text_lt
comes_before a b = if a.n == b.n then text_lt a.display b.display else ltb b.n a.n

insert_row : Row → List Row → List Row
insert_row r [] = r ∷ []
insert_row r (x ∷ xs) =
    let rest = insert_row r xs in if comes_before x r then x ∷ rest else r ∷ x ∷ xs

-- `sortRows`; rows that are equal in the order are equal.
unfoldable pub sort_rows : List Row → List Row
unfolding insert_row comes_before
sort_rows [] = []
sort_rows (r ∷ rs) = insert_row r (sort_rows rs)

-- `limitRows`
unfoldable pub limit_rows : List Row → ℕ → List Row
limit_rows rows limit = if limit == 0 || leb (length rows) limit then rows else take limit rows
