-- ===== src/Alias/Listing.antt =====
-- The list of names (`renderNames` of internal/modules/alias/handlers.go).
pub mod Budget
use miti99bot.Base.{
  ℕ, suc, ◌+◌, List, [], ◌∷◌, ◌++◌, ltb, ◌==◌, if◌then◌else◌, length, Text, codes, format_nat,
}
use miti99bot.Storage.Contract.{Doc}
use miti99bot.Alias.{Alias, kind_label}

abbrev pub max_list_bytes : ℕ
max_list_bytes = 3800

-- `html.EscapeString`
escape_byte : ℕ → Text
escape_byte c =
    if c == b'&'
    then codes "&amp;"
    else if c == b'<'
    then codes "&lt;"
    else if c == b'>'
    then codes "&gt;"
    else if c == 39
    then codes "&#39;"
    else if c == 34
    then codes "&#34;"
    else c ∷ []

unfoldable pub escape_string : Text → Text
unfolding escape_byte
escape_string [] = []
escape_string (c ∷ s) = escape_byte c ++ escape_string s

-- The tail for the names left; U+2026 is three bytes.
unfoldable pub more_line : ℕ → Text
more_line n = (10 ∷ 0xE2 ∷ 0x80 ∷ 0xA6 ∷ codes "and ") ++ format_nat n ++ codes " more."

module _ {E : Type 0} where
  -- A line; U+2014 is three bytes.
  unfoldable pub name_line : Doc (Alias E) → Text
  unfolding escape_string kind_label
  name_line doc =
      (10 ∷ codes "<code>/")
      ++ escape_string doc.id
      ++ codes "</code> "
      ++ (0xE2 ∷ 0x80 ∷ 0x94 ∷ codes " ")
      ++ kind_label doc.val.kind

  -- The loop, with what is written so far
  unfoldable pub render_lines : Text → List (Doc (Alias E)) → Text
  unfolding name_line more_line
  render_lines out [] = out
  render_lines out (doc ∷ docs) =
      let line = name_line doc in
      let rest = render_lines (out ++ line) docs in
      if ltb max_list_bytes (length out + length line)
      then out ++ more_line (suc (length docs))
      else rest

  -- `renderNames`
  unfoldable pub render_names : List (Doc (Alias E)) → Text
  unfolding render_lines
  render_names docs = render_lines (format_nat (length docs) ++ codes " aliases:") docs
