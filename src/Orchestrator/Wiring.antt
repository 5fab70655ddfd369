-- ===== src/Orchestrator/Wiring.antt =====
-- The stages that `VeronicaOS.__init__` takes by default: the collector, the rule analyzer, the
-- pricing table, the simple planner, the passthrough arbiter and the memory store. The default
-- emitter drops every event; here any emitter may stand in its place.
use veronica.Prelude.{ℕ, String, Bool, none}
use veronica.Prelude.Int.{pos}
use veronica.Prelude.Result.{Result, ok}
use veronica.Float.{Float}
use veronica.Values.{Conversions}
use veronica.Collector
use veronica.Analyzer
use veronica.CostModels.{Pricing, TableCostModel, estimate}
use veronica.Planner
use veronica.Planner.{Planner}
use veronica.Arbiters.{passthrough}
use veronica.MemoryStore
use veronica.MemoryStore.{Store}
use veronica.Orchestrator.{Stages, Ambient, OsEvent}

-- What the default stages leave open: the engine's prices, the table's parameters, the match of
-- a chain's name, the wall clock in milliseconds, and the emitter.
pub record Wiring (F Em : Type 0) : Type 0 where
  pub pricing : Pricing F
  pub cost_model : TableCostModel F
  pub is_safe : String → Bool
  pub now_ms : ℕ
  pub emit : Em → OsEvent F → Em × Result (Unit {0})

module _ {F Em : Type 0} ⦃fl : Float F⦄ ⦃conv : Conversions F⦄ where
  unfoldable pub default_stages : Wiring F Em → Ambient F → Stages F (Planner F) Unit (Store F) Em
  default_stages wiring amb = record {
    collect = Collector.collect amb.show wiring.now_ms;
    analyze = λ intent outcome history. ok (Analyzer.analyze intent outcome history);
    estimate = λ intent history analysis. ok (estimate wiring.pricing wiring.cost_model intent);
    plan = λ planner analysis cost budget.
        let (planner', desired) = Planner.plan planner analysis cost budget in
        (planner', ok desired);
    set_arbitration_context = none;
    arbitrate = λ arbiter desires budget. (tt, ok (passthrough desires budget amb.now));
    settle = none;
    set_budget_context = none;
    commit = λ store outcome analysis cost desired policy meta.
        MemoryStore.commit wiring.is_safe store outcome;
    build_history =
        λ store chain_id. MemoryStore.build_history wiring.is_safe store chain_id (pos 50);
    close_store = none;
    emit = wiring.emit;
  }
