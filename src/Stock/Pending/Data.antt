-- ===== src/Stock/Pending/Data.antt =====
-- The data of a button reads back as what it was made of.
use miti99bot.Base.{
  ℕ, suc, ◌≤◌, ◌<◌, ◌≡◌, refl, ap, inl, inr, not, ◌&&◌, some, [], ◌∷◌, ◌++◌, arith, ltb, Bool-cases,
  length, take, drop, Text, codes, has_prefix, pos, format_nat, format_int, IsDigits,
  format_nat-IsDigits, format_nat, IsDigits, format_nat-IsDigits, parse_integer-format_nat,
}
use miti99bot.Chat.{index_byte}
use miti99bot.Stock.Amounts.{max_int64, cut}
use miti99bot.Stock.Pending.{
  dividend_callback_prefix, is_provider_id, dividend_callback_data, parse_owner_id,
  parse_dividend_callback,
}

index_byte-digits :
    (d e : Text) → IsDigits d → index_byte (d ++ (codes ":" ++ e)) b':' ≡ some (length d)
unfolding index_byte
index_byte-digits [] e h = refl
index_byte-digits (c ∷ d) e h = ground (arith, h, index_byte-digits d e h.1)

take-length : (d e : Text) → take (length d) (d ++ e) ≡ d
take-length [] e = refl
take-length (c ∷ d) e = ap (λ x. c ∷ x) (take-length d e)

drop-length : (d e : Text) → drop (suc (length d)) (d ++ (codes ":" ++ e)) ≡ e
drop-length [] e = refl
drop-length (c ∷ d) e = drop-length d e

cut-digits : (d e : Text) → IsDigits d → cut (d ++ (codes ":" ++ e)) b':' ≡ some (d, e)
unfolding cut
cut-digits d e h =
    ground (arith, index_byte-digits d e h, take-length d (codes ":" ++ e), drop-length d e)

parse_owner_id-format :
    (n : ℕ) → 0 < n → n ≤ max_int64 → parse_owner_id (format_int (pos n)) ≡ some (pos n)
unfolding parse_owner_id format_int
parse_owner_id-format n h k = ground (arith, h, k, parse_integer-format_nat n)

-- The data that `dividendCallbackData` makes for a 64-bit user id and an event is at most 64
-- bytes long, and `parseDividendCallback` reads the same user id and event from it.
pub parse_dividend_callback-data :
    (n : ℕ) (event_id data_text : Text)
    → n ≤ 9223372036854775807
    → dividend_callback_data (pos n) event_id ≡ some data_text
    → (length data_text ≤ 64) × (parse_dividend_callback data_text ≡ some (pos n, event_id))
unfolding dividend_callback_data parse_dividend_callback has_prefix format_int
parse_dividend_callback-data n event_id data_text small h =
    let body = format_nat n ++ (codes ":" ++ event_id) in
    elim (Bool-cases (is_provider_id event_id)) [
      | inr odd ↦ absurd (ground (arith, h, odd))
      | inl fine ↦
          elim (Bool-cases (ltb 0 n && not (ltb 64 (length (dividend_callback_prefix ++ body))))) [
            | inr odd ↦ absurd (ground (arith, h, odd, fine))
            | inl fits ↦
                let same : data_text ≡ dividend_callback_prefix ++ body =
                  ground (arith, h, fine, fits) in
                (
                  ground (arith, same, fits),
                  ground (
                    arith,
                    same,
                    fits,
                    fine,
                    small,
                    parse_owner_id-format n,
                    cut-digits (format_nat n) event_id (format_nat-IsDigits n),
                  ),
                )
          ]
    ]
