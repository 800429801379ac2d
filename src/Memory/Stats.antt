-- ===== src/Memory/Stats.antt =====
-- driver/memory, `QueueStats`: one count over all rows is the shared count over the queue's rows.
use goncordia.Prelude.{◌≡◌, refl, String, ◌=s=◌, Bool, Bool-cases, inl, inr, List, [], ◌∷◌, keep}
use goncordia.Driver.{JobRow, QueueStats, count_row, count_rows, count_queue_stats}
use goncordia.Memory.State.{Driver}
use goncordia.Memory.Jobs.{rows_of, count_queue, queue_stats}

abbrev pub is_in : String → JobRow → Bool
is_in queue row = row.queue =s= queue

count_queue-keep :
    (queue : String) (stats : QueueStats) (rows : List JobRow)
    → count_queue queue stats rows ≡ count_rows stats (keep (is_in queue) rows)
unfolding count_queue count_rows
count_queue-keep queue stats [] = refl
count_queue-keep queue stats (row ∷ rows) = elim (Bool-cases (row.queue =s= queue)) [
  | inl here ↦ rw (here, count_queue) (count_queue-keep queue (count_row stats row) rows)
  | inr other ↦ rw (other, count_queue) (count_queue-keep queue stats rows)
]

-- The statistics of a queue are the counts by state, and the total, of exactly the rows of the queue:
-- what `CountQueueStats` gives for them.
pub queue_stats-keep :
    (d : Driver) (queue : String)
    → queue_stats d queue ≡ count_queue_stats queue (keep (is_in queue) (rows_of d.jobs))
unfolding queue_stats count_queue_stats
queue_stats-keep d queue = count_queue-keep queue _ (rows_of d.jobs)
