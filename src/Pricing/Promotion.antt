-- ===== src/Pricing/Promotion.antt =====
-- What a promotion makes of a base rate.
use native.Mathlib.Nat.{mul-le-mul_left}
use obolus.Prelude.{
  ℕ, suc, ◌-◌, ◌*◌, ◌/◌, ◌≤◌, ◌<◌, ◌≡◌, ◌⊎◌, inl, inr, ◌&&◌, ◌==◌, arith, ltb, if◌then◌else◌,
}
use obolus.Amount.{u128_max}
use obolus.Pricing.{
  PriceContext, PriceDeterminer, bps_per_whole, saturating_mul, discounted, promotional,
}

scaled_le : (b k : ℕ) → k ≤ bps_per_whole → b * k ≤ b * bps_per_whole
scaled_le b k h = mul-le-mul_left b h

pub discounted-bounds :
    (discount_bps base : ℕ)
    → (discounted discount_bps base ≤ base) × (0 < base → 0 < discounted discount_bps base)
discounted-bounds discount_bps base =
    shaped (bps_per_whole - discount_bps)
      (scaled_le base (bps_per_whole - discount_bps) (omega arith))
  where
    shaped :
        (kept : ℕ)
        → base * kept ≤ base * bps_per_whole
        → ((if ltb 0 base && (saturating_mul base kept / bps_per_whole == 0)
              then 1
              else saturating_mul base kept / bps_per_whole)
            ≤ base)
          × (0 < base
              → 0 < (
                  if ltb 0 base && (saturating_mul base kept / bps_per_whole == 0)
                  then 1
                  else saturating_mul base kept / bps_per_whole))
    shaped kept h = (ground arith, ground arith)

-- A promotion never quotes more than its base rate, never turns a payable quote into zero, and
-- leaves the base rate alone outside its window.
pub promotional-bounds :
    (discount_bps start end : ℕ) (base : PriceDeterminer) (now : ℕ) (ctx : PriceContext)
    → (promotional discount_bps start end base now ctx ≤ base ctx)
      × (0 < base ctx → 0 < promotional discount_bps start end base now ctx)
      × ((now < start) ⊎ (end ≤ now) → promotional discount_bps start end base now ctx ≡ base ctx)
unfolding promotional
promotional-bounds discount_bps start end base now ctx = (
  ground (arith, discounted-bounds discount_bps (base ctx)),
  ground (arith, discounted-bounds discount_bps (base ctx)),
  λ out. elim out [ inl before ↦ ground arith | inr after ↦ ground arith ],
)

-- Inside its window, where the product fits a `u128` and the marked-down price is at least one unit,
-- a promotion keeps the share of the base rate that is not discounted, rounded down.
pub promotional-floors :
    (discount_bps start end : ℕ) (base : PriceDeterminer) (now : ℕ) (ctx : PriceContext)
    → start ≤ now
    → now < end
    → base ctx * (bps_per_whole - discount_bps) ≤ u128_max
    → bps_per_whole ≤ base ctx * (bps_per_whole - discount_bps)
    → (promotional discount_bps start end base now ctx * bps_per_whole
        ≤ base ctx * (bps_per_whole - discount_bps))
      × (base ctx * (bps_per_whole - discount_bps)
          < suc (promotional discount_bps start end base now ctx) * bps_per_whole)
unfolding promotional
promotional-floors discount_bps start end base now ctx from until fits some_left =
    (ground arith, ground arith)
