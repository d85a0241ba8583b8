-- ===== src/Alias/Listing/Budget.antt =====
-- The list of names fits in a message.
use miti99bot.Base.{
  ℕ, suc, ◌^◌, ◌≤◌, ◌<◌, List, [], ◌∷◌, ◌++◌, arith, length, length-append, length-format_nat, Text,
  codes, format_nat,
}
use miti99bot.Storage.Contract.{Doc}
use miti99bot.Alias.{Alias}
use miti99bot.Alias.Listing.{name_line, more_line, render_lines, render_names}

more_line-length : (n : ℕ) → n < 10 ^ 19 → length (more_line n) ≤ 33
unfolding more_line
more_line-length n h =
    let digits = length-format_nat 18 n h in
    omega (arith, digits, length-append (format_nat n) (codes " more."))

module _ {E : Type 0} where
  render_lines-length :
      (out : Text) (docs : List (Doc (Alias E)))
      → length out ≤ 3800
      → length docs < 10 ^ 19
      → length (render_lines out docs) ≤ 3833
  unfolding render_lines
  render_lines-length out [] h few = omega arith
  render_lines-length out (doc ∷ docs) h few =
      let line = name_line doc in
      ground (
        arith,
        h,
        length-append out line,
        length-append out (more_line (suc (length docs))),
        more_line-length (suc (length docs)) few,
        render_lines-length (out ++ line) docs,
      )

  -- The text of `/aliases` is at most 3833 bytes, so it is within the 4096 characters of a
  -- message, for any list of fewer than 10^19 names, whatever they are.
  pub render_names-length :
      (docs : List (Doc (Alias E))) → length docs < 10 ^ 19 → length (render_names docs) ≤ 3833
  unfolding render_names
  render_names-length docs few =
      let head = format_nat (length docs) ++ codes " aliases:" in
      let short : length head ≤ 3800 = omega (
        arith,
        length-format_nat 18 (length docs) few,
        length-append (format_nat (length docs)) (codes " aliases:"),
      ) in
      render_lines-length head docs short few
