-- ===== src/Export.antt =====
-- src/veronica/api/routes/export.py: all policies and the newest events in one answer. The policies
-- are read page by page, and the events are `store.snapshot()`, or nothing when that raises. The
-- answer's version text is left out. `export_data` makes the content of the answer, which the web
-- framework encodes in `export_response`: it refuses an infinity or a NaN with a ValueError.
pub mod Complete
use veronica.Prelude.{
  not, ◌&&◌, any, if◌then◌else◌, ℕ, zero, suc, ◌+◌, String, Bool, true, false, ◌||◌, Option, none,
  some, List, [], ◌∷◌, ◌++◌, length, take, leb,
}
use veronica.Prelude.Result.{Result, ok, err, value_error}
use veronica.Float.{Float}
use veronica.Types.{Number, float, PolicyConfig}
use veronica.Responses.{all_encodable}
use veronica.Events.{Event}
use veronica.EventsApi.{newest_first}
use veronica.Distributor.{PolicyBundle}
use veronica.PolicyRegistry.{Registry, list_policies}

abbrev pub policy_page_size : ℕ
policy_page_size = 1000

abbrev pub max_policy_pages : ℕ
max_policy_pages = 1000

pub record Exported (F : Type 0) : Type 0 where
  pub exported_at : F
  pub policies : List (PolicyBundle F)
  pub events : List (Event F)
  pub warnings : List String

abbrev pub is_empty {ℓ} : {A : Type ℓ} → List A → Bool
is_empty [] = true
is_empty (x ∷ xs) = false

module _ {F : Type 0} where
  -- the loop over the pages from `page` on, of which `left` may still be read
  unfoldable pub collect_pages : ℕ → Registry F → ℕ → List (PolicyBundle F) → List (PolicyBundle F)
  collect_pages zero r page all_bundles = all_bundles
  collect_pages (suc left) r page all_bundles =
      let (chunk, total) = list_policies r page policy_page_size in
      let extended = all_bundles ++ chunk in
      elim (leb total (length extended) || is_empty chunk) [
        | true ↦ extended
        | false ↦ collect_pages left r (page + 1) extended
      ]

module _ {F : Type 0} ⦃fl : Float F⦄ where
  -- the events, and a warning when they cannot be read
  abbrev pub collect_events : ℕ → Option (List (Event F)) → List (Event F) × List String
  collect_events event_limit none =
      ([], "Event collection failed; events list may be incomplete" ∷ [])
  collect_events event_limit (some outcomes) = (take event_limit (newest_first outcomes), [])

  -- the content of the answer
  unfoldable pub export_data : Registry F → Option (List (Event F)) → ℕ → F → Exported F
  unfolding collect_pages
  export_data r snapshot event_limit now =
      let (events, warnings) = collect_events event_limit snapshot in
      record {
        exported_at = now;
        policies = collect_pages max_policy_pages r 1 [];
        events = events;
        warnings = warnings;
      }

  abbrev pub number_encodable : Option (Number F) → Bool
  number_encodable (some (float x)) = fl.is_finite x
  number_encodable _ = true

  -- every float of a policy that is shown is finite
  abbrev pub policy_encodable : PolicyConfig F → Bool
  policy_encodable p =
      all_encodable p && number_encodable p.ceiling_tokens_out && number_encodable p.timeout_ms

  abbrev pub event_encodable : Event F → Bool
  event_encodable e =
      fl.is_finite e.cost_usd && fl.is_finite e.duration_ms && fl.is_finite e.timestamp

  -- the answer: JSONResponse encodes the content
  unfoldable pub export_response :
      Registry F → Option (List (Event F)) → ℕ → F → Result (Exported F)
  unfolding export_data
  export_response r snapshot event_limit now =
      let exported = export_data r snapshot event_limit now in
      if any (λ (b : PolicyBundle F). not (policy_encodable b.policy)) exported.policies
        || any (λ e. not (event_encodable e)) exported.events
        || not (fl.is_finite exported.exported_at)
      then err value_error
      else ok exported
