-- ===== src/FileStore/Files.antt =====
-- The files of outcomes in src/veronica/file_store.py: appending, rotating and reading them.
use Prim.Native.String
use veronica.Prelude.{
  ℕ, ◌+◌, String, Bool, true, false, ◌&&◌, ◌==◌, Option, none, some, List, [], ◌∷◌, ◌++◌, length,
  last_n, ltb, max, is_some, if◌then◌else◌,
}
use veronica.Prelude.Int.{pos}
use veronica.Prelude.Dict.{Dict, get, put, remove}
use veronica.Float.{Float, finite_or_zero, fmax}
use veronica.Types.{
  StepKind, llm, tool, system, Status, ok_status, halted, error, timeout, StepOutcome, or_default,
}
use veronica.CostModels.{name_or}
use veronica.Analyzer.{same_kind}

pub data Line (F : Type 0) : Type 0 where
  stored : StepOutcome F → Line F
  unreadable : Line F

abbrev pub active_name : String → String
active_name chain_id = String.◌++◌ chain_id ".jsonl"

abbrev pub rotated_name : String → String
rotated_name chain_id = String.◌++◌ chain_id ".1.jsonl"

pub data RotateFault : Type 0 where
  unlink_fails rename_fails : RotateFault

abbrev pub unlink_failed : Option RotateFault → Bool
unlink_failed (some unlink_fails) = true
unlink_failed _ = false

abbrev pub rename_failed : Option RotateFault → Bool
rename_failed (some rename_fails) = true
rename_failed _ = false

module _ {F : Type 0} where
  -- step 1 of a commit, where the line is written as a whole
  unfoldable pub append_line : StepOutcome F → Dict (List (Line F)) → Dict (List (Line F))
  append_line outcome files =
      let name = active_name outcome.chain_id in
      put name (or_default (get name files) [] ++ stored outcome ∷ []) files

  -- the renaming, once there is no rotated file
  abbrev pub rename_active :
      Option RotateFault → Dict (List (Line F)) → String → Dict (List (Line F)) × Bool
  rename_active fault files chain_id = elim (get (active_name chain_id) files) [
    | none ↦ (files, true)
    | some lines ↦
        if rename_failed fault
        then (files, false)
        else (put (rotated_name chain_id) lines (remove (active_name chain_id) files), true)
  ]

  -- FileStore._rotate
  unfoldable pub rotate :
      Option RotateFault → Dict (List (Line F)) → String → Dict (List (Line F)) × Bool
  rotate fault files chain_id =
      if is_some (get (rotated_name chain_id) files)
      then (if unlink_failed fault
          then (files, false)
          else rename_active fault (remove (rotated_name chain_id) files) chain_id)
      else rename_active fault files chain_id

abbrev pub kind_name : StepKind → String
kind_name llm = "llm"
kind_name tool = "tool"
kind_name system = "system"

abbrev pub same_status : Status → Status → Bool
same_status ok_status ok_status = true
same_status halted halted = true
same_status error error = true
same_status timeout timeout = true
same_status _ _ = false

module _ {F : Type 0} where
  -- equality of the keys (kind, model or kind, status)
  abbrev pub same_key : StepOutcome F → StepOutcome F → Bool
  same_key a b =
      same_kind a.kind b.kind
      && name_or (kind_name a.kind) a.model == name_or (kind_name b.kind) b.model
      && same_status a.status b.status

  unfoldable pub count_key : StepOutcome F → List (StepOutcome F) → ℕ
  count_key o [] = 0
  count_key o (p ∷ ps) = let rest = count_key o ps in if same_key o p then rest + 1 else rest

  -- the count of the most common key, over the keys of `os`
  unfoldable pub most_common : List (StepOutcome F) → List (StepOutcome F) → ℕ
  most_common [] all = 0
  most_common (o ∷ os) all = max (count_key o all) (most_common os all)

module _ {F : Type 0} ⦃fl : Float F⦄ where
  -- FileStore._compute_loop_score
  unfoldable pub loop_score : List (StepOutcome F) → F
  unfolding most_common count_key
  loop_score outcomes =
      let recent = last_n 10 outcomes in
      if ltb (length outcomes) 3
      then fl.dec 0 0
      else fl.div (fl.of_int (pos (most_common recent recent))) (fl.of_int (pos (length recent)))

  -- an outcome as it is read back
  abbrev pub cleaned : (ℕ → ℕ) → StepOutcome F → StepOutcome F
  cleaned as_float o = record o {
    cost_usd = fmax (fl.dec 0 0) (finite_or_zero o.cost_usd);
    elapsed_ms = fmax (fl.dec 0 0) (finite_or_zero o.elapsed_ms);
    timestamp_ms = as_float o.timestamp_ms;
  }

  -- FileStore._read_jsonl_outcomes
  unfoldable pub read_lines : (ℕ → ℕ) → List (Line F) → List (StepOutcome F)
  read_lines as_float [] = []
  read_lines as_float (unreadable ∷ lines) = read_lines as_float lines
  read_lines as_float (stored o ∷ lines) = cleaned as_float o ∷ read_lines as_float lines

  -- FileStore._load_recent_outcomes
  unfoldable pub recent_outcomes :
      (ℕ → ℕ) → Dict (List (Line F)) → String → ℕ → List (StepOutcome F)
  recent_outcomes as_float files chain_id limit =
      let current = read_lines as_float (or_default (get (active_name chain_id) files) []) in
      let older = read_lines as_float (or_default (get (rotated_name chain_id) files) []) in
      last_n limit (if ltb (length current) limit then older ++ current else current)
