-- ===== src/Market/Params.antt =====
-- prediction_market/params.rs: the parameters of a market, and what the builders use of the compiled
-- contract. `script_pubkey` comes from the SimplicityHL compiler, so it is a field of its own.
use deadcat.Prelude.{ℕ, Bytes, Option, none, some}
use deadcat.Market.State.{MarketState, MarketSlot, resolved_yes, resolved_no}

pub record PredictionMarketParams : Type 0 where
  pub oracle_public_key : Bytes
  pub collateral_asset_id : Bytes
  pub yes_token_asset : Bytes
  pub no_token_asset : Bytes
  pub yes_reissuance_token : Bytes
  pub no_reissuance_token : Bytes
  pub collateral_per_token : ℕ
  pub expiry_time : ℕ

pub record CompiledPredictionMarket : Type 0 where
  pub params : PredictionMarketParams
  pub script_pubkey : MarketSlot → Bytes

-- `MarketState::winning_token_asset`
unfoldable pub winning_token_asset : MarketState → PredictionMarketParams → Option Bytes
winning_token_asset resolved_yes p = some p.yes_token_asset
winning_token_asset resolved_no p = some p.no_token_asset
winning_token_asset _ p = none
