-- ===== src/FileStore.antt =====
-- src/veronica/file_store.py: outcomes in one file for each chain, which is rotated, and statistics
-- in memory, which are flushed. The disk is a dictionary of files; what fails on it is an argument of
-- each commit. A commit whose append fails is taken to leave the file as it was: that a write stops
-- in the middle of a line is not modelled. A line is what was dumped, or text that cannot be read back. `clip_model` cuts a
-- model's name to 128 characters, and `as_float` is what becomes of a timestamp as a float.
pub mod Stats
pub mod Files
pub mod Reload
pub mod Contexts
pub mod Tail
pub mod History
pub mod Newest
pub mod Aliasing
use veronica.Prelude.{
  ℕ, ◌+◌, ◌%◌, String, Bool, true, false, not, ◌&&◌, ◌==◌, Option, none, some, List, [], ◌∷◌, ◌++◌,
  map, length, last_n, leb, ltb, eqb, max, is_some, if◌then◌else◌,
}
use veronica.Prelude.Int.{ℤ, pos}
use veronica.Prelude.Result.{Result, ok, err, value_error, os_error, ◌>>=◌}
use veronica.Prelude.Dict.{Dict, get, put}
use veronica.Float.{Float, finite_or_zero}
use veronica.Types.{StepKind, llm, tool, system, Status, StepOutcome, HistoryView, or_default}
use veronica.Values.{Value, Argument, Conversions}
use veronica.CostModels.{name_or}
use veronica.MemoryStore.{clamp_limit}
use veronica.FileStore.Stats.{
  ChainStats, fresh_stats, update_averages, update_streaks, to_dict, StatsText, load_stats,
}
use veronica.FileStore.Files.{
  Line, RotateFault, active_name, rotated_name, append_line, rotate, recent_outcomes, loop_score,
}

pub record FileStore (F : Type 0) : Type 0 where
  pub flush_interval : ℕ
  pub max_lines : ℕ
  pub chain_stats : Dict (ChainStats F)
  pub budget_ceiling : Option F
  pub budget_remaining : Option F
  pub files : Dict (List (Line F))
  pub stats_files : Dict (Dict (Argument F))

-- What fails on the disk during a commit.
pub record Faults : Type 0 where
  pub append_fails : Bool
  pub rotation : Option RotateFault
  pub flush_fails : Bool

abbrev pub max_chains : ℕ
max_chains = 10000

module _ {F : Type 0} where
  -- FileStore.set_budget_context
  unfoldable pub set_budget_context : FileStore F → F → F → FileStore F
  set_budget_context s ceiling remaining = record s {
    budget_ceiling = some ceiling;
    budget_remaining = some remaining;
  }

module _ {F : Type 0} ⦃fl : Float F⦄ where
  -- the ratio that a commit stores, when there is a usable context
  abbrev pub headroom : Option F → Option F → F → F
  headroom (some ceiling) (some remaining) old =
      if fl.is_finite remaining && fl.is_finite ceiling && fl.lt (fl.dec 1 12) ceiling
      then fl.div remaining ceiling
      else old
  headroom _ _ old = old

  abbrev pub stats_of : FileStore F → String → ChainStats F
  stats_of s chain_id = or_default (get chain_id s.chain_stats) fresh_stats

module _ {F : Type 0} where
  -- steps 4 and 5: the flushed statistics, when it is time, and the rotation
  unfoldable pub settle_files : Faults → FileStore F → String → ChainStats F → FileStore F
  settle_files faults s chain_id stats =
      let due = eqb (stats.total_commits % s.flush_interval) 0 && not faults.flush_fails in
      let count = stats.commits_since_rotate + 1 in
      let rotates = leb s.max_lines count in
      let rotation =
        if rotates then rotate faults.rotation s.files chain_id else (s.files, false) in
      record s {
        files = rotation.0;
        chain_stats =
            put chain_id (record stats { commits_since_rotate = if rotation.1 then 0 else count })
              s.chain_stats;
        stats_files = if due then put chain_id (to_dict stats) s.stats_files else s.stats_files;
      }

module _ {F : Type 0} ⦃fl : Float F⦄ (clip_model : String → String) where
  -- steps 2 and 3 of a commit, with the budget context consumed
  unfoldable pub observe : FileStore F → StepOutcome F → ChainStats F
  observe s outcome =
      let stats = update_streaks outcome (
        update_averages (clip_model (name_or "unknown" outcome.model)) outcome
          (stats_of s outcome.chain_id)) in
      record stats {
        budget_headroom_ratio =
            headroom s.budget_ceiling s.budget_remaining stats.budget_headroom_ratio;
      }

  -- FileStore.commit, with the argument that it stores
  unfoldable pub commit :
      (String → Bool) → Faults → FileStore F → StepOutcome F → FileStore F × Result (Unit {0})
  commit is_safe faults s outcome =
      if not (is_safe outcome.chain_id)
      then (s, err value_error)
      else if not (is_some (get outcome.chain_id s.chain_stats))
          && leb max_chains (length s.chain_stats)
      then (s, err value_error)
      else if faults.append_fails
      then (s, err os_error)
      else (
        settle_files faults
            (record s {
              files = append_line outcome s.files;
              budget_ceiling = none;
              budget_remaining = none;
            })
            outcome.chain_id (observe s outcome),
        ok tt,
      )

module _ {F : Type 0} ⦃fl : Float F⦄ (as_float : ℕ → ℕ) where
  abbrev pub view_of : String → ChainStats F → List (StepOutcome F) → HistoryView F
  view_of chain_id stats outcomes = record {
    chain_id = chain_id;
    last_n = outcomes;
    rolling_cost_usd = fl.sum (map (λ o. finite_or_zero o.cost_usd) outcomes);
    failure_streak = stats.failure_streak;
    depth = length outcomes;
    loop_score = loop_score outcomes;
    success_streak = stats.success_streak;
    cost_per_step_ema = stats.cost_ema;
    cost_per_step_ema_by_model = stats.cost_ema_by_model;
    latency_ema_ms = stats.latency_ema_by_model;
    budget_headroom_ratio = stats.budget_headroom_ratio;
  }

  -- FileStore.build_history
  unfoldable pub build_history : (String → Bool) → FileStore F → String → ℤ → Result (HistoryView F)
  build_history is_safe s chain_id limit =
      if not (is_safe chain_id)
      then err value_error
      else ok (
          view_of chain_id (stats_of s chain_id)
            (recent_outcomes as_float s.files chain_id (clamp_limit limit)))

module _ {F : Type 0} where
  -- FileStore.close, where `writes` says of each chain whether its file can be written
  unfoldable pub flush_all :
      (String → Bool) → Dict (ChainStats F) → Dict (Dict (Argument F)) → Dict (Dict (Argument F))
  flush_all writes [] files = files
  flush_all writes ((chain_id, stats) ∷ rest) files =
      flush_all writes rest (if writes chain_id then put chain_id (to_dict stats) files else files)

  unfoldable pub close : (String → Bool) → FileStore F → FileStore F
  close writes s = record s { stats_files = flush_all writes s.chain_stats s.stats_files }

module _ {F : Type 0} ⦃fl : Float F⦄ ⦃conv : Conversions F⦄ (from_array : Result (Dict (Value F)))
    (is_safe : String → Bool) where
  -- FileStore._load_existing_stats, over the stats files that are found
  unfoldable pub load_existing :
      List (String × StatsText F) → Dict (ChainStats F) → Result (Dict (ChainStats F))
  load_existing [] loaded = ok loaded
  load_existing ((chain_id, content) ∷ rest) loaded =
      if not (is_safe chain_id)
      then load_existing rest loaded
      else elim (load_stats from_array content) [
        | err e ↦ err e
        | ok none ↦ load_existing rest loaded
        | ok (some stats) ↦ load_existing rest (put chain_id stats loaded)
      ]

  -- FileStore.__init__, on a disk with files and stats files
  unfoldable pub open_store :
      ℕ
      → ℕ
      → Dict (List (Line F))
      → Dict (Dict (Argument F))
      → List (String × StatsText F)
      → Result (FileStore F)
  open_store flush_interval max_lines files stats_files found = do
    loaded ← load_existing found []
    ok (record {
      flush_interval = max 1 flush_interval;
      max_lines = max_lines;
      chain_stats = loaded;
      budget_ceiling = none;
      budget_remaining = none;
      files = files;
      stats_files = stats_files;
    })
