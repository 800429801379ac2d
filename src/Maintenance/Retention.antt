-- ===== src/Maintenance/Retention.antt =====
-- maintenance.go: `Prune` and `DeadLetterList`.
use goncordia.Prelude.{
  ℕ, zero, suc, ◌+◌, ℤ, pos, negative, positive, pos_part, neg_part, eqb_ℤ, sub_ℕ, ltb, ◌==◌,
  if◌then◌else◌, Bool, true, false, not, ◌||◌, String, Option, none, some, List, [], ◌∷◌, ◌++◌,
  length, last_or,
}
use goncordia.Time.{Time, add}
use goncordia.Driver.{
  JobRow, JobState, completed, discarded, cancelled, JobListParams, Error, Result, ok, err,
}
use goncordia.Driver.Pagination.{Codec, JobCursorV1, encode_job_cursor}
use goncordia.Driver.Executor.{Executor, AdminExecutor}

pub record RetentionPolicy : Type 0 where
  pub completed_for : ℤ
  pub discarded_for : ℤ
  pub cancelled_for : ℤ

pub record PruneResult : Type 0 where
  pub scanned : ℕ
  pub deleted : ℕ

pub data PruneError : Type 0 where
  negative_retention no_listing : PruneError
  list_failed : JobState → Error → PruneError

abbrev pub maintenance_page_size : ℕ
maintenance_page_size = 500

abbrev pub negated : ℤ → ℤ
negated d = sub_ℕ (neg_part d) (pos_part d)

unfoldable pub is_expired : Time → JobRow → Bool
is_expired cutoff row = elim row.finalized_at [ none ↦ false | some at ↦ not (ltb cutoff at) ]

module _ {S : Type 0} (exec : Executor S) (codec : Codec JobCursorV1) (is_done : ℕ → Bool) where
  -- One page of `Prune`: how many rows it deletes, and the errors of the deletes.
  unfoldable pub prune_page : Time → List JobRow → S → S × ℕ × List (String × Error)
  unfolding is_expired
  prune_page cutoff [] s = (s, 0, [])
  prune_page cutoff (row ∷ rows) s =
      let (keep_s, keep_n, keep_e) = prune_page cutoff rows s in
      let (s', outcome) = exec.job_delete s row.id in
      let (next_s, next_n, next_e) = prune_page cutoff rows s' in
      if not (is_expired cutoff row) then (keep_s, keep_n, keep_e) else elim outcome [
        | ok _ ↦ (next_s, suc next_n, next_e)
        | err e ↦ (next_s, next_n, (row.id, e) ∷ next_e)
      ]

  module _ (admin : AdminExecutor S) where
    unfoldable pub page_params : JobState → String → JobListParams
    page_params state cursor = record {
      queue = "";
      state = some state;
      kind = "";
      limit = pos maintenance_page_size;
      cursor = cursor;
    }

    abbrev joined :
        List (String × Error)
        → Option (Option PruneError × List (String × Error))
        → Option (Option PruneError × List (String × Error))
    joined errors none = none
    joined errors (some (failure, more)) = some (failure, errors ++ more)

    -- The pages of one state, on fuel; `none` is fuel that ran out.
    unfoldable pub prune_pages :
        ℕ
        → JobState
        → Time
        → String
        → PruneResult
        → S
        → S × PruneResult × Option (Option PruneError × List (String × Error))
    unfolding prune_page page_params
    prune_pages zero state cutoff cursor result s = (s, result, none)
    prune_pages (suc fuel) state cutoff cursor result s =
        elim (admin.job_list s (page_params state cursor)) [
          | err e ↦ (s, result, some (some (list_failed state e), []))
          | ok [] ↦ (s, result, some (none, []))
          | ok (row ∷ rows) ↦
              let (s', n, errors) = prune_page cutoff (row ∷ rows) s in
              let result' : PruneResult = record {
                scanned = result.scanned + length (row ∷ rows);
                deleted = result.deleted + n;
              } in
              let cursor' = encode_job_cursor codec (last_or row rows) in
              let (s'', result'', more) = prune_pages fuel state cutoff cursor' result' s' in
              if ltb (length (row ∷ rows)) maintenance_page_size
              then (s', result', some (none, errors))
              else (s'', result'', joined errors more)
        ]

    -- A state without a retention is left alone; a listing that fails ends the pass.
    unfoldable pub prune_states :
        ℕ
        → List (JobState × ℤ)
        → PruneResult
        → S
        → S × PruneResult × Option (Option PruneError × List (String × Error))
    unfolding prune_pages
    prune_states fuel [] result s = (s, result, some (none, []))
    prune_states fuel ((state, duration) ∷ rest) result s =
        let cutoff = add (exec.now s) (negated duration) in
        let (s', result', outcome) = prune_pages fuel state cutoff "" result s in
        let (s'', result'', more) = prune_states fuel rest result' s' in
        if eqb_ℤ duration (pos 0) then prune_states fuel rest result s else elim outcome [
          | none ↦ (s', result', none)
          | some (some failure, errors) ↦ (s', result', some (some failure, []))
          | some (none, errors) ↦ (s'', result'', joined errors more)
        ]

    abbrev pub page_of : ℤ → ℕ
    page_of limit =
        if not (positive limit) || ltb 1000 (pos_part limit) then 100 else pos_part limit

    pub record JobPage : Type 0 where
      pub items : List JobRow
      pub next_cursor : String
      pub has_more : Bool

    -- A full page is followed by a probe for one more row.
    unfoldable pub dead_letter_list : JobListParams → S → Result JobPage
    dead_letter_list params s =
        let limit = page_of params.limit in
        let params' = record params { state = some discarded; limit = pos limit } in
        elim (admin.job_list s params') [
          | err e ↦ err e
          | ok [] ↦ ok (record { items = []; next_cursor = ""; has_more = false })
          | ok (row ∷ rows) ↦
              let candidate = encode_job_cursor codec (last_or row rows) in
              let page : JobPage = record {
                items = row ∷ rows;
                next_cursor = "";
                has_more = false;
              } in
              let probe = admin.job_list s (record params' { cursor = candidate; limit = pos 1 }) in
              if length (row ∷ rows) == limit
              then elim probe [
                | err e ↦ err e
                | ok [] ↦ ok page
                | ok (_ ∷ _) ↦ ok (record page { next_cursor = candidate; has_more = true })
              ]
              else ok page
        ]

  -- A driver without a listing is refused after the durations are checked.
  unfoldable pub prune :
      ℕ
      → Option (AdminExecutor S)
      → RetentionPolicy
      → S
      → S × PruneResult × Option (Option PruneError × List (String × Error))
  unfolding prune_states
  prune fuel admin policy s =
      let zero_result : PruneResult = record { scanned = 0; deleted = 0 } in
      if negative policy.completed_for
        || negative policy.discarded_for
        || negative policy.cancelled_for
      then (s, zero_result, some (some negative_retention, []))
      else elim admin [
        | none ↦ (s, zero_result, some (some no_listing, []))
        | some listing ↦
            prune_states listing fuel
              ((completed, policy.completed_for)
                ∷ (discarded, policy.discarded_for)
                ∷ (cancelled, policy.cancelled_for)
                ∷ [])
              zero_result s
      ]
