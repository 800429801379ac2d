-- ===== src/Cron/Tick.antt =====
-- cron.go: the tick of the scheduler, over the process-local jobs and those with a durable cursor. An
-- error is what the error handler is called with.
use goncordia.Prelude.{
  inl, inr, sub_ℕ, leb_ℤ, ltb, if◌then◌else◌, Bool, true, false, not, ◌||◌, ◌&&◌, String, ◌=s=◌,
  none, some, List, [], ◌∷◌, ◌++◌, last_or,
}
use goncordia.Time.{Time, is_zero}
use goncordia.Driver.{ok, err}
use goncordia.Driver.Executor.{Executor}
use goncordia.Client.{Codecs, ClientConfig}
use goncordia.Client.Enqueue.{enqueue}
use goncordia.Cron.{
  CronConfig, CronError, PeriodicJob, all, bound_of, cursor_failed, durable_schedule_cursor_id,
  election_failed, enqueue_failed, latest, max_scan, not_advancing, occurrence_opts, scan,
  skip_missed, too_many_missed, unknown,
}

pub record CronEntry : Type 0 where
  pub job : PeriodicJob
  pub last_run : Time

module _ {S : Type 0} (exec : Executor S) (codecs : Codecs) (client : ClientConfig S)
    (cfg : CronConfig) where
  unfoldable pub enqueue_occurrence : PeriodicJob → Time → S → S × Bool × List CronError
  unfolding occurrence_opts
  enqueue_occurrence job at s =
      let (s', r) =
        enqueue exec codecs client s (some job.args) (some (occurrence_opts cfg job at)) in
      elim r [ inl e ↦ (s', false, enqueue_failed ∷ []) | inr _ ↦ (s', true, []) ]

  unfoldable pub advance_cursor : String → Time → Time → S → S × Bool × List CronError
  advance_cursor id expected next s =
      let (s', r) =
        exec.schedule_cursor_advance s (record { id = id; expected = expected; next = next }) in
      elim r [ err e ↦ (s', false, cursor_failed ∷ []) | ok advanced ↦ (s', advanced, []) ]

  -- Enqueue the occurrence and, where that was done, move the cursor to it; the second result says
  -- that both were done.
  unfoldable pub enqueue_and_advance :
      PeriodicJob → String → Time → Time → S → S × Bool × List CronError
  unfolding enqueue_occurrence advance_cursor
  enqueue_and_advance job id expected at s =
      let (s', enqueued, errors) = enqueue_occurrence job at s in
      let (s'', advanced, errors') = advance_cursor id expected at s' in
      if enqueued then (s'', advanced, errors ++ errors') else (s', false, errors)

  -- Every missed occurrence, one after another, until a step fails.
  unfoldable pub catch_up_all : PeriodicJob → String → Time → List Time → S → S × List CronError
  unfolding enqueue_and_advance
  catch_up_all job id expected [] s = (s, [])
  catch_up_all job id expected (at ∷ due) s =
      let (s', done, errors) = enqueue_and_advance job id expected at s in
      let (s'', errors') = catch_up_all job id at due s' in
      if done then (s'', errors ++ errors') else (s', errors)

  -- What is done about the due occurrences, of which `first` is one, by the job's policy.
  unfoldable pub settle_due :
      PeriodicJob → String → Time → Time → Time → List Time → S → S × List CronError
  unfolding catch_up_all
  settle_due job id now original first rest s = elim job.catch_up [
    | latest ↦
        let (s', done, errors) = enqueue_and_advance job id original (last_or first rest) s in
        (s', errors)
    | skip_missed ↦
        let at = last_or first rest in
        let (s', done, errors) = enqueue_and_advance job id original at s in
        let (s'', advanced, errors') = advance_cursor id original at s in
        if leb_ℤ (sub_ℕ now at) cfg.tick_interval then (s', errors) else (s'', errors')
    | all ↦ catch_up_all job id original (first ∷ rest) s
    | unknown _ ↦ catch_up_all job id original (first ∷ rest) s
  ]

  unfoldable pub tick_from :
      PeriodicJob → (Time → Time) → String → Time → Time → S → S × List CronError
  unfolding scan bound_of settle_due
  tick_from job next_of id now original s =
      elim (scan next_of now (bound_of cfg job) max_scan 0 original) [
        | none ↦ (s, not_advancing ∷ [])
        | some (due, complete) ↦
            if not complete && not (elim job.catch_up [ all ↦ true | _ ↦ false ])
            then (s, too_many_missed ∷ [])
            else elim due [
              | [] ↦ (s, [])
              | first ∷ rest ↦ settle_due job id now original first rest s
            ]
      ]

  unfoldable pub tick_durable : PeriodicJob → (Time → Time) → Time → S → S × List CronError
  unfolding tick_from durable_schedule_cursor_id
  tick_durable job next_of now s =
      let id = durable_schedule_cursor_id codecs.digest cfg.leader_name job.id in
      let (s', r) =
        exec.schedule_cursor_get_or_create s (record { id = id; initial_at = job.start_at }) in
      elim r [
        | err e ↦ (s', cursor_failed ∷ [])
        | ok cursor ↦ tick_from job next_of id now cursor.at s'
      ]

  -- A process-local entry that is due is enqueued, and noted where that was done.
  unfoldable pub tick_local : CronEntry → (Time → Time) → Time → S → S × CronEntry × List CronError
  tick_local entry next_of now s =
      let next = next_of entry.last_run in
      let (s', r) = enqueue exec codecs client s (some entry.job.args) entry.job.opts in
      if is_zero next || not (ltb now next)
      then elim r [
        | inl e ↦ (s', entry, enqueue_failed ∷ [])
        | inr _ ↦ (s', record entry { last_run = now }, [])
      ]
      else (s, entry, [])

  -- A checked configuration has a schedule for every job.
  unfoldable pub tick_entry : CronEntry → Time → S → S × CronEntry × List CronError
  unfolding tick_local tick_durable
  tick_entry entry now s = elim entry.job.schedule [
    | none ↦ (s, entry, [])
    | some next_of ↦
        let (s', errors) = tick_durable entry.job next_of now s in
        if entry.job.id =s= "" then tick_local entry next_of now s else (s', entry, errors)
  ]

  unfoldable pub tick_entries : List CronEntry → Time → S → S × List CronEntry × List CronError
  unfolding tick_entry
  tick_entries [] now s = (s, [], [])
  tick_entries (entry ∷ entries) now s =
      let (s', entry', errors) = tick_entry entry now s in
      let (s'', entries', errors') = tick_entries entries now s' in
      (s'', entry' ∷ entries', errors ++ errors')

  -- Only the elected leader enqueues.
  unfoldable pub tick : List CronEntry → S → S × List CronEntry × List CronError
  unfolding tick_entries
  tick entries s =
      let (s', r) =
        exec.leader_attempt_elect s
          (record { name = cfg.leader_name; worker_id = cfg.worker_id; ttl = cfg.leader_ttl }) in
      elim r [
        | err e ↦ (s', entries, election_failed ∷ [])
        | ok false ↦ (s', entries, [])
        | ok true ↦ tick_entries entries (exec.now s') s'
      ]
