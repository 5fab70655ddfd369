-- ===== src/Examples/Files.antt =====
-- Examples for the file store: rotation, budget contexts, shared files and stats files.
use veronica.Prelude.{
  ℕ, ◌≡◌, refl, true, false, none, some, List, [], ◌∷◌, ◌++◌, String, map, last_n, inl, inr, arith,
}
use veronica.Prelude.Int.{pos}
use veronica.Prelude.Result.{Result, ok, err, value_error}
use veronica.Prelude.Dict.{Dict, get}
use veronica.Float.Sample.{Micro, micro, micro_float, micro_laws}
use veronica.Values.{Value}
use veronica.Types.{StepOutcome, HistoryView}
use veronica.FileStore.{FileStore, Faults, commit, build_history, view_of, stats_of}
use veronica.FileStore.Stats.{ChainStats, fresh_stats, object, to_dict, load_stats}
use veronica.FileStore.Files.{recent_outcomes, unlink_fails, cleaned, read_lines}
use veronica.FileStore.Tail.{contents}
use veronica.FileStore.History.{Fair, accepted, commit_all}
use veronica.FileStore.Newest.{new_store, build_history-last_n}
use veronica.FileStore.Aliasing.{commit-shows_elsewhere}
use veronica.FileStore.Reload.{load_stats-to_dict}
use veronica.Examples.Data.{fine, always_safe, conversions}

abbrev no_faults : Faults
no_faults = record { append_fails = false; rotation = none; flush_fails = false }

abbrev bad_rotation : Faults
bad_rotation = record { append_fails = false; rotation = some unlink_fails; flush_fails = true }

abbrev outcome_of : String → String → StepOutcome Micro
outcome_of chain id = record fine { chain_id = chain; step_id = id }

-- files that are rotated every two lines, and commits of two chains
abbrev commits : List (Faults × StepOutcome Micro)
commits =
    (no_faults, outcome_of "a" "1")
    ∷ (bad_rotation, outcome_of "b" "1")
    ∷ (no_faults, outcome_of "a" "2")
    ∷ (no_faults, outcome_of "a" "3")
    ∷ (no_faults, outcome_of "a" "4")
    ∷ (no_faults, outcome_of "a" "5")
    ∷ []

abbrev clip : String → String
clip s = s

abbrev as_float : ℕ → ℕ
as_float n = n

commits-Fair : Fair "a" commits
commits-Fair = (
  inl (refl, refl),
  (inr refl, (inl (refl, refl), (inl (refl, refl), (inl (refl, refl), (inl (refl, refl), tt))))),
)

abbrev after_commits : FileStore Micro
after_commits = commit_all clip always_safe (new_store 10 2) commits

abbrev last_two : HistoryView Micro
last_two =
    view_of as_float "a" (stats_of after_commits "a")
      (recent_outcomes as_float after_commits.files "a" 2)

history_built : build_history as_float always_safe after_commits "a" (pos 2) ≡ ok last_two
unfolding build_history
history_built = refl

build_history-last_n_example :
    last_two.last_n
    ≡ last_n 2 (map (cleaned as_float) (accepted clip always_safe "a" (new_store 10 2) commits))
build_history-last_n_example =
    build_history-last_n clip as_float always_safe 10 2 commits "a" (pos 2) last_two commits-Fair
      (omega arith) history_built

-- a store that knows the chains `a` and `b`
abbrev known : FileStore Micro
known = record (new_store 10 1000) { chain_stats = ("a", fresh_stats) ∷ ("b", fresh_stats) ∷ [] }

abbrev shared : FileStore Micro
shared = (commit clip always_safe no_faults (new_store 10 1000) (outcome_of "a.1" "1")).0

abbrev shown_elsewhere : HistoryView Micro
shown_elsewhere =
    view_of as_float "a" (stats_of shared "a") (recent_outcomes as_float shared.files "a" 50)

elsewhere_built : build_history as_float always_safe shared "a" (pos 50) ≡ ok shown_elsewhere
unfolding build_history
elsewhere_built = refl

commit-shows_elsewhere_example :
    shown_elsewhere.last_n
    ≡ last_n 50
        (read_lines as_float (contents {F = Micro} "a.1.jsonl" []) ++ outcome_of "a.1" "1" ∷ [])
unfolding commit get
commit-shows_elsewhere_example =
    commit-shows_elsewhere clip as_float always_safe no_faults (new_store 10 1000)
      (outcome_of "a.1" "1") "a" (pos 50) shown_elsewhere refl refl refl refl elsewhere_built

abbrev used_stats : ChainStats Micro
used_stats = record fresh_stats {
  cost_ema = micro 400000;
  cost_ema_by_model = ("m", micro 400000) ∷ [];
  success_streak = 3;
  total_commits = 3;
}

abbrev no_array : Result (Dict (Value Micro))
no_array = err value_error

load_stats-to_dict_example :
    load_stats no_array (object (to_dict used_stats)) ≡ ok (some used_stats)
load_stats-to_dict_example =
    load_stats-to_dict no_array used_stats
      (record { cost = refl; costs = (refl, tt); latencies = tt; headroom = refl })
