-- ===== src/Pipeline/Layers.antt =====
-- What a pass of the pipeline keeps, wherever it stops.
use cryptopulse.Prelude.{sym, Bool, List, Option, some}
use mathlib.Core.Path.{subst}
use cryptopulse.Prelude.Int.{ℤ, pos, ltb_ℤ}
use cryptopulse.Contracts.Events.{InternalEvent}
use cryptopulse.Validation.Rules.{default_rules}
use cryptopulse.Warehouse.World.{Environment, World, check}
use cryptopulse.Warehouse.Effects.{bind_keeps, check_world}
use cryptopulse.Warehouse.Table.Keys.{IsKeyed}
use cryptopulse.Ingestion.{Message, ingest}
use cryptopulse.Ingestion.Frame.{ingest-WritesBronze}
use cryptopulse.Trust
use cryptopulse.Trust.Frame.{process_batch-OnlyAdds}
use cryptopulse.Trust.Safety.{IsTrustedLayer, process_batch-IsTrustedLayer}
use cryptopulse.GoldService
use cryptopulse.GoldService.{GoldSettings}
use cryptopulse.GoldService.Frame.{process_batch-WritesGold}
use cryptopulse.Pipeline.{run_once}

-- Bronze and Gold are keyed, and Silver holds trustworthy events only, each once.
pub record AreSound (env : Environment) (w : World) : Type 0 where
  pub bronze : IsKeyed "event_id" w.bronze
  pub silver : IsTrustedLayer env w.silver
  pub gold : IsKeyed "window_id" w.gold

module _ (env : Environment) where
  abbrev Keeps : World → World → Type 0
  Keeps w w' = AreSound env w → AreSound env w'

  Keeps-trans : (u v w : World) → Keeps u v → Keeps v w → Keeps u w
  Keeps-trans u v w h k s = k (h s)

  ingest-Keeps {ℓ} :
      {Bytes : Type ℓ} (decode : Bytes → Option InternalEvent) (started : Bool)
      (messages : List (Message Bytes)) (max_events : ℤ) (w : World)
      → Keeps w (ingest env decode started messages max_events w).1
  ingest-Keeps decode started messages max_events w s =
      let f = ingest-WritesBronze env decode started messages max_events w in
      record {
        bronze = f.keyed s.bronze;
        silver = subst (IsTrustedLayer env) (sym f.silver) s.silver;
        gold = subst (IsKeyed "window_id") (sym f.gold) s.gold;
      }

  trust-Keeps : (limit : ℤ) (w : World) → Keeps w (Trust.process_batch env default_rules limit w).1
  trust-Keeps limit w s =
      let f = process_batch-OnlyAdds env default_rules limit w in
      record {
        bronze = subst (IsKeyed "event_id") (sym f.bronze) s.bronze;
        silver = process_batch-IsTrustedLayer env limit w s.silver;
        gold = subst (IsKeyed "window_id") (sym f.gold) s.gold;
      }

  gold-Keeps :
      (settings : GoldSettings) (offset : ℤ) (limit : Option ℤ) (w : World)
      → Keeps w (GoldService.process_batch env settings offset limit w).1
  gold-Keeps settings offset limit w s =
      let f = process_batch-WritesGold env settings offset limit w in
      record {
        bronze = subst (IsKeyed "event_id") (sym f.bronze) s.bronze;
        silver = subst (IsTrustedLayer env) (sym f.silver) s.silver;
        gold = f.keyed s.gold;
      }

-- If Bronze and Gold hold no identity twice, and Silver only trustworthy events and none twice,
-- then this is so after a pass of the pipeline under the platform's rules, also after one that
-- fails at any step.
pub run_once-AreSound {ℓ} :
    {Bytes : Type ℓ} (env : Environment) (decode : Bytes → Option InternalEvent)
    (settings : GoldSettings) (batch_size : ℤ) (started : Bool) (messages : List (Message Bytes))
    (w : World)
    → AreSound env w
    → AreSound env (run_once env decode default_rules settings batch_size started messages w).1
unfolding run_once
run_once-AreSound env decode settings batch_size started messages w =
    bind_keeps (Keeps env) (Keeps-trans env) (check (ltb_ℤ batch_size (pos 1)) _) _ w
      (subst (λ (x : World). Keeps env w x) (sym (check_world (ltb_ℤ batch_size (pos 1)) _ w))
        (λ s. s))
      λ _.
        bind_keeps (Keeps env) (Keeps-trans env) (ingest env decode started messages batch_size) _ _
          (ingest-Keeps env decode started messages batch_size _)
          λ ingested.
            bind_keeps (Keeps env) (Keeps-trans env)
              (Trust.process_batch env default_rules batch_size) _ _ (trust-Keeps env batch_size _)
              λ result.
                bind_keeps (Keeps env) (Keeps-trans env)
                  (GoldService.process_batch env settings (pos 0) (some batch_size)) _ _
                  (gold-Keeps env settings (pos 0) (some batch_size) _) λ windows. λ s. s
