-- ===== src/Pipeline.antt =====
-- processing/pipeline.py: the three stages in a row.
pub mod Layers
use cryptopulse.Prelude.{ℕ, Bool, List, Option, none, some, length}
use cryptopulse.Prelude.Int.{ℤ, pos, ltb_ℤ}
use cryptopulse.Contracts.Events.{InternalEvent}
use cryptopulse.Validation.Rules.{Rule}
use cryptopulse.Warehouse.World.{Environment, World, value_error, Action, pure, check, ◌>>=◌, ◌>>◌}
use cryptopulse.Ingestion.{Message, ingest}
use cryptopulse.Trust
use cryptopulse.Trust.{TrustRoutingResult}
use cryptopulse.GoldService
use cryptopulse.GoldService.{GoldSettings}

pub record PipelineResult : Type 0 where
  pub ingested : ℕ
  pub validated : ℕ
  pub quarantined : ℕ
  pub gold_windows : ℕ

module _ {ℓ} {Bytes : Type ℓ} (env : Environment) (decode : Bytes → Option InternalEvent)
    (rules : List Rule) (settings : GoldSettings) where
  -- `ProcessingPipeline.run_once`, of a pipeline that was constructed with this batch size; the
  -- constructor rejects one below 1.
  unfoldable pub run_once : ℤ → Bool → List (Message Bytes) → Action PipelineResult
  run_once batch_size started messages = do
    check (ltb_ℤ batch_size (pos 1)) (value_error "batch_size must be >= 1")
    ingested ← ingest env decode started messages batch_size
    trust_result ← Trust.process_batch env rules batch_size
    gold_windows ← GoldService.process_batch env settings (pos 0) (some batch_size)
    pure (record {
      ingested = ingested;
      validated = length trust_result.validated;
      quarantined = length trust_result.quarantined;
      gold_windows = gold_windows;
    })
