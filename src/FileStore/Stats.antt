-- ===== src/FileStore/Stats.antt =====
-- The statistics of a chain in src/veronica/file_store.py: moving averages and streaks, and their
-- form in a stats file. A counter is a natural number: a negative one in a file, which no commit
-- writes, is read as 0 here.
use veronica.Prelude.{
  ℕ, ◌+◌, String, not, ◌==◌, ◌&&◌, ◌||◌, Option, none, some, [], ◌∷◌, length, ltb, is_some,
  if◌then◌else◌,
}
use veronica.Prelude.Int.{ℤ, pos, pos_part}
use veronica.Prelude.Result.{
  Result, ok, err, type_error, value_error, key_error, overflow_error, attribute_error, ◌>>=◌,
}
use veronica.Prelude.Dict.{Dict, get, put}
use veronica.Float.{Float, finite_or_zero}
use veronica.Types.{StepOutcome, or_default}
use veronica.Values.{
  Value, boolean, int, float, text, other, Argument, plain, mapping, Conversions, to_float, of_bool,
}
use veronica.MemoryStore.{is_ok}

pub record ChainStats (F : Type 0) : Type 0 where
  pub cost_ema : F
  pub cost_ema_by_model : Dict F
  pub latency_ema_by_model : Dict F
  pub success_streak : ℕ
  pub failure_streak : ℕ
  pub total_commits : ℕ
  pub budget_headroom_ratio : F
  pub commits_since_rotate : ℕ

abbrev pub max_models_per_chain : ℕ
max_models_per_chain = 1000

module _ {F : Type 0} ⦃fl : Float F⦄ where
  -- _ema, with the default weight 0.3
  abbrev pub ema : F → F → F
  ema prev current =
      if fl.lt prev (fl.dec 1 12)
      then current
      else fl.add (fl.mul (fl.dec 3 1) current)
          (fl.mul (fl.sub (fl.of_int (pos 1)) (fl.dec 3 1)) prev)

  -- _ChainStats.__init__
  abbrev pub fresh_stats : ChainStats F
  fresh_stats = record {
    cost_ema = fl.dec 0 0;
    cost_ema_by_model = [];
    latency_ema_by_model = [];
    success_streak = 0;
    failure_streak = 0;
    total_commits = 0;
    budget_headroom_ratio = fl.dec 10 1;
    commits_since_rotate = 0;
  }

  -- `averages[key] = _ema(averages.get(key, 0.0), value)`
  abbrev pub put_ema : String → F → Dict F → Dict F
  put_ema key value averages =
      put key (ema (or_default (get key averages) (fl.dec 0 0)) value) averages

  -- the averages after an outcome; a model beyond the limit is not tracked
  unfoldable pub update_averages : String → StepOutcome F → ChainStats F → ChainStats F
  update_averages model_key outcome stats =
      let cost = finite_or_zero outcome.cost_usd in
      let tracked =
        ltb (length stats.cost_ema_by_model) max_models_per_chain
        || is_some (get model_key stats.cost_ema_by_model) in
      record stats {
        cost_ema = ema stats.cost_ema cost;
        cost_ema_by_model =
            if tracked
            then put_ema model_key cost stats.cost_ema_by_model
            else stats.cost_ema_by_model;
        latency_ema_by_model =
            if tracked
            then put_ema model_key (finite_or_zero outcome.elapsed_ms) stats.latency_ema_by_model
            else stats.latency_ema_by_model;
      }

module _ {F : Type 0} where
  -- the streaks and the number of commits after an outcome
  unfoldable pub update_streaks : StepOutcome F → ChainStats F → ChainStats F
  update_streaks outcome stats = record stats {
    success_streak = if is_ok outcome then stats.success_streak + 1 else 0;
    failure_streak = if is_ok outcome then 0 else stats.failure_streak + 1;
    total_commits = stats.total_commits + 1;
  }

  abbrev pub float_values : Dict F → Dict (Value F)
  float_values [] = []
  float_values ((k, x) ∷ d) = (k, float x) ∷ float_values d

  abbrev count_value : ℕ → Argument F
  count_value n = plain (int (pos n))

  -- _ChainStats.to_dict
  unfoldable pub to_dict : ChainStats F → Dict (Argument F)
  to_dict s =
      ("cost_ema", plain (float s.cost_ema))
      ∷ ("cost_ema_by_model", mapping (float_values s.cost_ema_by_model))
      ∷ ("latency_ema_by_model", mapping (float_values s.latency_ema_by_model))
      ∷ ("success_streak", count_value s.success_streak)
      ∷ ("failure_streak", count_value s.failure_streak)
      ∷ ("total_commits", count_value s.total_commits)
      ∷ ("budget_headroom_ratio", plain (float s.budget_headroom_ratio))
      ∷ ("commits_since_rotate", count_value s.commits_since_rotate)
      ∷ []

-- What stands in a stats file: no JSON that can be read, JSON that is no object, or an object.
pub data StatsText (F : Type 0) : Type 0 where
  corrupt not_object : StatsText F
  object : Dict (Argument F) → StatsText F

module _ {F : Type 0} ⦃fl : Float F⦄ ⦃conv : Conversions F⦄ where
  -- _safe_float, which lets an OverflowError pass
  abbrev pub safe_or : Result F → F → Result F
  safe_or (err overflow_error) default = err overflow_error
  safe_or (err e) default = ok default
  safe_or (ok x) default = ok (if fl.is_finite x then x else default)

  abbrev pub safe_float : Value F → F → Result F
  safe_float v default = safe_or (to_float v) default

  abbrev pub read_float : Option (Argument F) → F → Result F
  read_float none default = ok default
  read_float (some (plain v)) default = safe_float v default
  read_float (some (mapping d)) default = ok default

  abbrev pub safe_floats : Dict (Value F) → Result (Dict F)
  safe_floats [] = ok []
  safe_floats ((k, v) ∷ d) = do
    x ← safe_float v (fl.dec 0 0)
    rest ← safe_floats d
    ok ((k, x) ∷ rest)

  -- int(v); an infinity raises OverflowError, and a NaN ValueError
  abbrev pub read_int : Value F → Result ℤ
  read_int (int n) = ok n
  read_int (boolean b) = ok (of_bool b)
  read_int (float x) =
      if not (fl.is_finite x) && fl.le x x
      then err overflow_error
      else elim (conv.truncate x) [ none ↦ err value_error | some n ↦ ok n ]
  read_int (text s) = elim (conv.parse_int s) [ none ↦ err value_error | some n ↦ ok n ]
  read_int _ = err type_error

  abbrev pub read_count : Option (Argument F) → Result ℕ
  read_count none = ok 0
  read_count (some (plain v)) = do n ← read_int v; ok (pos_part n)
  read_count (some (mapping d)) = err type_error

  -- `dict(v)`, where `from_array` is what it makes of a JSON array
  abbrev pub read_table : Result (Dict (Value F)) → Option (Argument F) → Result (Dict F)
  read_table from_array none = ok []
  read_table from_array (some (mapping d)) = safe_floats d
  read_table from_array (some (plain (text s))) = if s == "" then ok [] else err value_error
  read_table from_array (some (plain other)) = do d ← from_array; safe_floats d
  read_table from_array (some (plain _)) = err type_error

  -- _ChainStats.from_dict
  unfoldable pub from_dict : Result (Dict (Value F)) → Dict (Argument F) → Result (ChainStats F)
  from_dict from_array d = do
    cost_ema ← read_float (get "cost_ema" d) (fl.dec 0 0)
    costs ← read_table from_array (get "cost_ema_by_model" d)
    latencies ← read_table from_array (get "latency_ema_by_model" d)
    successes ← read_count (get "success_streak" d)
    failures ← read_count (get "failure_streak" d)
    commits ← read_count (get "total_commits" d)
    headroom ← read_float (get "budget_headroom_ratio" d) (fl.dec 10 1)
    rotated ← read_count (get "commits_since_rotate" d)
    ok (record {
      cost_ema = cost_ema;
      cost_ema_by_model = costs;
      latency_ema_by_model = latencies;
      success_streak = successes;
      failure_streak = failures;
      total_commits = commits;
      budget_headroom_ratio = headroom;
      commits_since_rotate = rotated;
    })

  -- one file of `_load_existing_stats`; the errors that are caught leave the chain fresh
  unfoldable pub load_stats : Result (Dict (Value F)) → StatsText F → Result (Option (ChainStats F))
  load_stats from_array corrupt = ok none
  load_stats from_array not_object = err attribute_error
  load_stats from_array (object d) = elim (from_dict from_array d) [
    | ok stats ↦ ok (some stats)
    | err value_error ↦ ok none
    | err key_error ↦ ok none
    | err e ↦ err e
  ]
