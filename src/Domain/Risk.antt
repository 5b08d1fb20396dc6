-- ===== src/Domain/Risk.antt =====
-- domain/risk.py: the hard caps on risk, as bounds on the fields.
use shortfire.Prelude.{
  ◌*◌, ◌/◌, ◌≡◌, ◌↔◌, ◌⊎◌, Bool, true, ◌&&◌, Result, ok, raised, validation_error, require, ◌>>◌,
  arith,
}
use shortfire.Prelude.Decimals.{Decimal, ℤ, pos, unit, le_dec, lt_dec, ◌≤ℤ◌, ◌<ℤ◌}
use shortfire.Domain.Market.{zero_decimal}

pub record RiskLimits : Type 0 where
  pub max_per_trade_pct : Decimal
  pub max_gross_exposure_pct : Decimal
  pub kelly_fraction : Decimal
  pub max_concurrent_positions : ℤ
  pub daily_loss_limit_pct : Decimal

-- 0.05, 0.15, 0.25 and 0.10
abbrev pub per_trade_cap : Decimal
per_trade_cap = pos (unit * 5 / 100)

abbrev pub gross_exposure_cap : Decimal
gross_exposure_cap = pos (unit * 15 / 100)

abbrev pub kelly_cap : Decimal
kelly_cap = pos (unit * 25 / 100)

abbrev pub daily_loss_cap : Decimal
daily_loss_cap = pos (unit * 10 / 100)

-- Field(gt=Decimal("0"), le=cap)
abbrev pub in_cap : Decimal → Decimal → Bool
in_cap cap d = lt_dec zero_decimal d && le_dec d cap

unfoldable pub validate_risk_limits : RiskLimits → Result RiskLimits
validate_risk_limits r = do
  require (in_cap per_trade_cap r.max_per_trade_pct) validation_error
  require (in_cap gross_exposure_cap r.max_gross_exposure_pct) validation_error
  require (in_cap kelly_cap r.kelly_fraction) validation_error
  require (le_dec (pos 1) r.max_concurrent_positions && le_dec r.max_concurrent_positions (pos 20))
      validation_error
  require (in_cap daily_loss_cap r.daily_loss_limit_pct) validation_error
  ok r

abbrev pub Within : Decimal → Decimal → Type 0
Within cap d = (zero_decimal <ℤ d) × (d ≤ℤ cap)

in_cap-Within : (cap d : Decimal) → (in_cap cap d ≡ true) ↔ Within cap d
in_cap-Within cap d = ground arith

pub record IsRiskLimits (r : RiskLimits) : Type 0 where
  pub per_trade : Within per_trade_cap r.max_per_trade_pct
  pub gross : Within gross_exposure_cap r.max_gross_exposure_pct
  pub kelly : Within kelly_cap r.kelly_fraction
  pub some_positions : pos 1 ≤ℤ r.max_concurrent_positions
  pub few_positions : r.max_concurrent_positions ≤ℤ pos 20
  pub daily_loss : Within daily_loss_cap r.daily_loss_limit_pct

-- Limits are accepted exactly when every cap holds: at most 5% for a trade, 15% gross exposure,
-- a quarter of Kelly, 1 to 20 positions and 10% daily loss; any other raises ValidationError.
pub risk_limits_iff :
    (r : RiskLimits)
    → ((validate_risk_limits r ≡ ok r) ↔ IsRiskLimits r)
      × ((validate_risk_limits r ≡ ok r) ⊎ (validate_risk_limits r ≡ raised validation_error))
unfolding validate_risk_limits
risk_limits_iff r = ground arith
