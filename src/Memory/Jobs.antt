-- ===== src/Memory/Jobs.antt =====
-- driver/memory/memory.go: inserting, reading and listing jobs.
use goncordia.Prelude.{
  ℕ, ◌+◌, ◌%◌, ◌^◌, ℤ, pos_part, positive, String, ◌=s=◌, text_ltb, Bool, false, true, ◌&&◌, ◌||◌,
  not, ltb, ◌==◌, if◌then◌else◌, Option, none, some, List, [], ◌∷◌, map, keep, take,
}
use Prim.Native.String.{◌++◌}
use goncordia.Prelude.Assoc.{Assoc, lookup, insert}
use goncordia.Prelude.Sort.{sort}
use goncordia.Prelude.Decimal.{format_uint}
use goncordia.Time.{Time, is_zero}
use goncordia.Driver.{
  JobRow, JobInsertParams, JobInsertResult, JobListParams, available, scheduled, QueueStats, Result,
  ok, err, not_found, state_eq, count_row,
}
use goncordia.Driver.Pagination.{Codec, JobCursorV1, decode_job_cursor, job_follows_cursor}
use goncordia.Memory.State.{Driver, ensure_queue, broadcast_notify, find_unique_job}

-- e.d.seq++ on a uint64
unfoldable pub next_seq : ℕ → ℕ
next_seq seq = (seq + 1) % 2 ^ 64

unfoldable pub job_id : ℕ → String
job_id seq = "mem_" ++ format_uint seq

-- The row that an insert stores; a zero RunAt means now, and a later one waits.
unfoldable pub new_row : Time → String → JobInsertParams → JobRow
new_row now id p = record {
  id = id;
  queue = p.queue;
  kind = p.kind;
  args = p.args;
  state = if ltb now run_at then scheduled else available;
  priority = p.priority;
  run_at = run_at;
  created_at = now;
  attempted_at = none;
  started_at = none;
  lease_expires_at = none;
  finalized_at = none;
  attempt_num = 0;
  max_retry = p.max_retry;
  timeout = p.timeout;
  tags = p.tags;
  errors = [];
  unique_key = p.unique_key;
  worker_id = "";
  pipeline_id = p.pipeline_id;
}
  where
    run_at : Time
    run_at = if is_zero p.run_at then now else p.run_at

unfoldable pub insert_new : Driver → JobInsertParams → Driver × JobInsertResult
unfolding next_seq job_id new_row ensure_queue broadcast_notify
insert_new d p =
    let seq = next_seq d.seq in
    let row = new_row d.now (job_id seq) p in
    let stored = record d { seq = seq; jobs = insert row.id row d.jobs } in
    (
      broadcast_notify p.queue (ensure_queue p.queue d.now stored),
      record { job = row; unique_skip = false },
    )

-- One round of the loop of `JobInsertMany`.
unfoldable pub job_insert : Driver → JobInsertParams → Driver × JobInsertResult
unfolding insert_new find_unique_job
job_insert d p =
    if p.unique_key =s= "" then insert_new d p else elim (find_unique_job d p.unique_key) [
      | some (_, dup) ↦ (d, record { job = dup; unique_skip = true })
      | none ↦ insert_new d p
    ]

unfoldable pub job_insert_many : Driver → List JobInsertParams → Driver × List JobInsertResult
job_insert_many d [] = (d, [])
job_insert_many d (p ∷ ps) =
    let (d', result) = job_insert d p in
    let (d'', results) = job_insert_many d' ps in (d'', result ∷ results)

unfoldable pub job_get_by_id : Driver → String → Result JobRow
job_get_by_id d id = elim (lookup id d.jobs) [ none ↦ err not_found | some row ↦ ok row ]

-- The `continue` of `JobList`, negated: the row passes every filter that is set.
unfoldable pub is_listed : JobListParams → Option (Time × String) → JobRow → Bool
unfolding state_eq job_follows_cursor
is_listed params cursor row =
    (params.queue =s= "" || row.queue =s= params.queue)
    && elim params.state [ none ↦ true | some state ↦ state_eq row.state state ]
    && (params.kind =s= "" || row.kind =s= params.kind)
    && elim cursor [ none ↦ true | some (at, id) ↦ job_follows_cursor row at id ]

-- created_at DESC, id DESC
unfoldable pub lists_before : JobRow → JobRow → Bool
lists_before a b =
    if not (a.created_at == b.created_at) then ltb b.created_at a.created_at else text_ltb b.id a.id

abbrev pub rows_of : Assoc JobRow → List JobRow
rows_of jobs = map (λ entry. entry.1) jobs

-- if limit <= 0 || limit > 1000 { limit = 100 }
unfoldable pub page_limit : ℤ → ℕ
page_limit limit = if positive limit && not (ltb 1000 (pos_part limit)) then pos_part limit else 100

list_from : Driver → JobListParams → Option (Time × String) → List JobRow
unfolding is_listed page_limit
list_from d params cursor =
    take (page_limit params.limit)
      (sort lists_before (keep (is_listed params cursor) (rows_of d.jobs)))

unfoldable pub job_list : Codec JobCursorV1 → Driver → JobListParams → Result (List JobRow)
unfolding list_from
job_list codec d params =
    if params.cursor =s= ""
    then ok (list_from d params none)
    else elim (decode_job_cursor codec params.cursor) [
      | err e ↦ err e
      | ok at ↦ ok (list_from d params (some at))
    ]

unfoldable pub count_queue : String → QueueStats → List JobRow → QueueStats
count_queue queue stats [] = stats
count_queue queue stats (row ∷ rows) =
    count_queue queue (if row.queue =s= queue then count_row stats row else stats) rows

unfoldable pub queue_stats : Driver → String → QueueStats
unfolding count_queue
queue_stats d queue =
    count_queue queue (record { queue = queue; states = λ s. 0; total = 0 }) (rows_of d.jobs)
