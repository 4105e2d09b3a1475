-- ===== src/Contracts/Gold.antt =====
-- common/contracts/gold.py
use cryptopulse.Prelude.{ℕ, String, Bool}
use cryptopulse.Python.Decimal.{Decimal}
use cryptopulse.Python.Datetime.{Datetime}

pub record MarketWindow : Type 0 where
  pub window_id : String
  pub symbol : String
  pub window_start : Datetime
  pub window_end : Datetime
  pub open_price : Decimal
  pub high : Decimal
  pub low : Decimal
  pub close : Decimal
  pub trade_count : ℕ
  pub volume : Decimal
  pub buy_volume : Decimal
  pub sell_volume : Decimal
  pub vwap : Decimal
  pub computed_at : Datetime
  pub is_final : Bool
