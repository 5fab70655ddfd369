-- ===== src/FileStore/Reload.antt =====
-- Statistics that are written to a stats file and read back, and files that cannot be read.
use veronica.Prelude.{
  String, Bool, true, false, ◌≡◌, ◌≢◌, refl, Option, none, some, List, [], ◌∷◌, ◌++◌, All, inl, inr,
  arith, Option-cases, Bool-cases,
}
use veronica.Prelude.Result.{
  Result, ok, err, Exn, type_error, overflow_error, attribute_error, Result-cases,
}
use veronica.Prelude.Dict.{Dict, get, put, values}
use veronica.Float.{Float}
use veronica.Values.{Value, Argument, plain, mapping, Conversions}
use veronica.FileStore.Stats.{
  ChainStats, to_dict, from_dict, float_values, safe_float, safe_floats, read_float, read_table,
  StatsText, object, not_object, corrupt, load_stats,
}
use veronica.FileStore.{load_existing}

module _ {F : Type 0} ⦃fl : Float F⦄ where
  -- Statistics without an infinity or a NaN.
  pub record AllFinite (s : ChainStats F) : Type 0 where
    pub cost : fl.is_finite s.cost_ema ≡ true
    pub costs : All (λ x. fl.is_finite x ≡ true) (values s.cost_ema_by_model)
    pub latencies : All (λ x. fl.is_finite x ≡ true) (values s.latency_ema_by_model)
    pub headroom : fl.is_finite s.budget_headroom_ratio ≡ true

module _ {F : Type 0} ⦃fl : Float F⦄ ⦃conv : Conversions F⦄ where
  safe_floats-float_values :
      (d : Dict F)
      → All (λ x. fl.is_finite x ≡ true) (values d)
      → safe_floats (float_values d) ≡ ok d
  safe_floats-float_values [] h = refl
  safe_floats-float_values ((k, x) ∷ d) h = ground (arith, safe_floats-float_values d h.1)

  safe_float-err :
      (v : Value F) (default : F) (e : Exn) → safe_float v default ≡ err e → e ≡ overflow_error
  safe_float-err v default e h = ground arith

  safe_floats-err : (d : Dict (Value F)) (e : Exn) → safe_floats d ≡ err e → e ≡ overflow_error
  safe_floats-err [] e h = ground arith
  safe_floats-err ((k, v) ∷ d) e h = elim (Result-cases (safe_float v (fl.dec 0 0))) [
    | inr (x, f) ↦ safe_float-err v (fl.dec 0 0) e (ground (arith, f))
    | inl (_, c) ↦ safe_floats-err d e (ground (arith, c))
  ]

  -- Statistics without an infinity or a NaN are read back from their file as they were written.
  pub load_stats-to_dict :
      (from_array : Result (Dict (Value F))) (s : ChainStats F)
      → AllFinite s
      → load_stats from_array (object (to_dict s)) ≡ ok (some s)
  unfolding load_stats from_dict to_dict get
  load_stats-to_dict from_array s h = ground (
    arith,
    safe_floats-float_values s.cost_ema_by_model h.costs,
    safe_floats-float_values s.latency_ema_by_model h.latencies,
  )

  -- A value that `dict` takes: no value at all, or an object.
  abbrev pub is_table : Option (Argument F) → Bool
  is_table none = true
  is_table (some (mapping d)) = true
  is_table (some (plain v)) = false

  -- A stats file that is JSON and no object, or an object whose averages can be read and whose
  -- success streak is null.
  abbrev pub Poison : StatsText F → Type 0
  Poison corrupt = ⊥
  Poison not_object = Unit
  Poison (object d) =
      (is_table (get "cost_ema_by_model" d) ≡ true)
      × (is_table (get "latency_ema_by_model" d) ≡ true)
      × (get "success_streak" d ≡ some (plain Value.null))

  read_float-err :
      (o : Option (Argument F)) (default : F) (e : Exn)
      → read_float o default ≡ err e
      → e ≡ overflow_error
  read_float-err none default e h = ground arith
  read_float-err (some (mapping d)) default e h = ground arith
  read_float-err (some (plain v)) default e h = safe_float-err v default e h

  read_table-err :
      (from_array : Result (Dict (Value F))) (o : Option (Argument F)) (e : Exn)
      → is_table o ≡ true
      → read_table from_array o ≡ err e
      → e ≡ overflow_error
  read_table-err from_array none e t h = ground arith
  read_table-err from_array (some (mapping d)) e t h = safe_floats-err d e h
  read_table-err from_array (some (plain v)) e t h = cc

  load_stats-Poison :
      (from_array : Result (Dict (Value F))) (content : StatsText F)
      → Poison content
      → (e : Exn) × (load_stats from_array content ≡ err e)
  unfolding load_stats from_dict
  load_stats-Poison from_array corrupt h = absurd h
  load_stats-Poison from_array not_object h = (attribute_error, refl)
  load_stats-Poison from_array (object d) (costs, latencies, null) =
      elim (Result-cases (read_float (get "cost_ema" d) (fl.dec 0 0))) [
        | inr (e, f) ↦ (
          overflow_error,
          ground (
            arith,
            costs,
            latencies,
            null,
            f,
            read_float-err (get "cost_ema" d) (fl.dec 0 0) e f,
          ),
        )
        | inl (_, c) ↦ elim (Result-cases (read_table from_array (get "cost_ema_by_model" d))) [
          | inr (e, f) ↦ (
            overflow_error,
            ground (arith, costs, latencies, null, c, f, read_table-err from_array _ e costs f),
          )
          | inl (_, t) ↦
              elim (Result-cases (read_table from_array (get "latency_ema_by_model" d))) [
                | inr (e, f) ↦ (
                  overflow_error,
                  ground (
                    arith,
                    costs,
                    latencies,
                    null,
                    c,
                    t,
                    f,
                    read_table-err from_array _ e latencies f,
                  ),
                )
                | inl (_, l) ↦ (type_error, ground (arith, c, t, l, null))
              ]
        ]
      ]

  -- A stats file of a chain with a safe name that is JSON and no object, or an object whose averages
  -- can be read and whose success streak is null, keeps the whole store from being opened, wherever
  -- it stands among the files that are found.
  pub load_existing-Poison :
      (from_array : Result (Dict (Value F))) (is_safe : String → Bool)
      → (front rest : List (String × StatsText F)) (chain_id : String) (content : StatsText F)
      → (loaded stats : Dict (ChainStats F)) → is_safe chain_id ≡ true
      → Poison content
      → load_existing from_array is_safe (front ++ (chain_id, content) ∷ rest) loaded ≢ ok stats
  unfolding load_existing
  load_existing-Poison from_array is_safe [] rest chain_id content loaded stats safe p =
      let (e, failed) = load_stats-Poison from_array content p in ground arith
  load_existing-Poison from_array is_safe ((c, text) ∷ front) rest chain_id content loaded stats
        safe p =
      let after = λ (d : Dict (ChainStats F)).
        load_existing-Poison from_array is_safe front rest chain_id content d stats safe p in
      elim (Bool-cases (is_safe c)) [
        | inr bad ↦ rw bad (after loaded)
        | inl good ↦ elim (Result-cases (load_stats from_array text)) [
          | inr (e, failed) ↦ rw (good, failed) (λ h. cc)
          | inl (read, done) ↦ elim (Option-cases read) [
            | inl skipped ↦ rw (good, done, skipped) (after loaded)
            | inr (s, found) ↦ rw (good, done, found) (after (put c s loaded))
          ]
        ]
      ]
