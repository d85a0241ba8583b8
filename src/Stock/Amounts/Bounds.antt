-- ===== src/Stock/Amounts/Bounds.antt =====
-- What the checked arithmetic returns is exact and in range.
use miti99bot.Base.{ℕ, zero, suc, ◌+◌, ◌-◌, ◌*◌, ◌^◌, ◌≤◌, ◌<◌, ◌≡◌, ◌↔◌, some, arith, pos}
use native.Mathlib.Nat.{le-div_iff_mul-le, div-lt_iff_lt-mul}
use miti99bot.Stock.Amounts.{
  max_int64, ShareRatio, share_dividend_entitlement, minimum_holding_for_share, cash_dividend_total,
}

-- For a positive ratio, a holding gets the whole shares by long division, if these are a 64-bit
-- integer, and an error otherwise; and it gets one share at least exactly if it is not below
-- `minimumHoldingForShare`.
pub share_dividend_entitlement_lem :
    (held q : ℕ) (ratio : ShareRatio)
    → 0 < held
    → 0 < ratio.owned
    → 0 < ratio.new
    → ((share_dividend_entitlement (pos held) ratio ≡ some q) ↔ (
        (q * ratio.owned ≤ held * ratio.new)
        × (held * ratio.new < (q + 1) * ratio.owned)
        × (q ≤ 9223372036854775807)))
      × (share_dividend_entitlement (pos held) ratio ≡ some q
          → (1 ≤ q) ↔ (minimum_holding_for_share ratio ≤ held))
unfolding share_dividend_entitlement minimum_holding_for_share
share_dividend_entitlement_lem held q ratio h o n =
    let product = held * ratio.new in
    let below = le-div_iff_mul-le {k = ratio.owned} {x = q} {y = product} o in
    let above = div-lt_iff_lt-mul {k = ratio.owned} {x = product} {y = q + 1} o in
    let one = le-div_iff_mul-le {k = ratio.owned} {x = 1} {y = product} o in
    let least = div-lt_iff_lt-mul {k = ratio.new} {x = ratio.owned - 1} {y = held} n in
    (
      (
        (λ e. ground (arith, h, o, n, e, below, above)),
        (λ e. ground (arith, h, o, n, e, below, above)),
      ),
      (λ e. (
        (λ k. ground (arith, h, o, n, e, k, one, least)),
        (λ k. ground (arith, h, o, n, e, k, one, least)),
      )),
    )

-- `cashDividendTotal` of a holding and a payout per share returns their product exactly if both
-- are positive and the product is at most 2^53, which a `float64` holds exactly; its guard never
-- lets the 64-bit product overflow.
pub cash_dividend_total_lem :
    (held per_share total : ℕ)
    → (cash_dividend_total (pos held) (pos per_share) ≡ some total)
      ↔ ((0 < held) × (0 < per_share) × (total ≡ held * per_share) × (total ≤ 2 ^ 53))
unfolding cash_dividend_total
cash_dividend_total_lem held zero total =
    ((λ e. absurd (ground (arith, e))), (λ e. absurd (ground (arith, e))))
cash_dividend_total_lem held (suc v) total =
    let fits = div-lt_iff_lt-mul {k = suc v} {x = max_int64} {y = held} (omega arith) in
    ((λ e. ground (arith, e, fits)), (λ e. ground (arith, e, fits)))
