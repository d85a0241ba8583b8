-- ===== src/Stats/Views/Size.antt =====
-- A view fits in a message.
use miti99bot.Base.{
  ℕ, zero, suc, ◌≤◌, ◌<◌, ◌≡◌, refl, inl, inr, not, ◌&&◌, some, List, [], ◌∷◌, ◌++◌, arith, ltb,
  ◌==◌, if◌then◌else◌, Option-cases, length, take, length-append, Text,
}
use miti99bot.Stats.{Row}
use miti99bot.Stats.Views.{
  telegram_max_len, row_lines, trim_newline, last_index_byte, truncation_mark, cut_off,
  render_top_n,
}

length-take : (n : ℕ) (s : Text) → length (take n s) ≤ n
length-take zero s = omega arith
length-take (suc n) [] = omega arith
length-take (suc n) (c ∷ s) = omega (arith, length-take n s)

last_index_byte-lt : (s : Text) (b i : ℕ) → last_index_byte s b ≡ some i → i < length s
unfolding last_index_byte
last_index_byte-lt [] b i h = absurd (ground (arith, h))
last_index_byte-lt (c ∷ s) b i h = elim (Option-cases (last_index_byte s b)) [
  | inl e ↦ ground (arith, h, e)
  | inr (j, e) ↦ ground (arith, h, e, last_index_byte-lt s b j e)
]

telegram_max_len_value : telegram_max_len ≡ 4000
unfolding telegram_max_len
telegram_max_len_value = refl

cut_off-le : (output : Text) → cut_off output ≤ telegram_max_len
unfolding cut_off
cut_off-le output = elim (Option-cases (last_index_byte (take telegram_max_len output) 10)) [
  | inl e ↦ ground (arith, e)
  | inr (i, e) ↦ ground (
    arith,
    e,
    last_index_byte-lt (take telegram_max_len output) 10 i e,
    length-take telegram_max_len output,
  )
]

-- Whatever the header, the rows and their number are, the text of a view is at most 4015 bytes,
-- so it is within the 4096 characters of a message.
pub render_top_n-length :
    (header : Text) (rows : List Row) (k : ℕ) → length (render_top_n header rows k) ≤ 4015
unfolding render_top_n truncation_mark
render_top_n-length header rows k =
    let shown = if not (k == 0) && ltb k (length rows) then take k rows else rows in
    let output = trim_newline (header ++ (10 ∷ row_lines shown)) in
    let cut = take (cut_off output) output in
    let short = length-take (cut_off output) output in
    ground
      (arith, telegram_max_len_value, cut_off-le output, short, length-append cut truncation_mark)
