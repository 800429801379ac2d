-- ===== src/Memory/State.antt =====
-- driver/memory/memory.go: the driver's maps and the helpers that its methods share. Every method
-- holds the mutex from its first to its last step, so a method is one function on the state. The
-- injected clock shows `now` during a method.
use goncordia.Prelude.{
  ℕ, suc, String, ◌=s=◌, Bool, false, true, ◌&&◌, ◌||◌, not, ltb, if◌then◌else◌, Option, none, some,
  List, [], map, find,
}
use goncordia.Prelude.Assoc.{Assoc, lookup, insert}
use goncordia.Time.{Time}
use goncordia.Driver.{
  JobRow, QueueRow, Error, Result, ok, err, is_permanent_unique_key, is_terminal,
}

pub record MemoryLeader : Type 0 where
  pub worker_id : String
  pub expires_at : Time

-- A subscriber's channel: which one it is, and how many notifications its buffer of 16 holds.
pub record Channel : Type 0 where
  pub id : ℕ
  pub buffered : ℕ

pub record Driver : Type 0 where
  pub jobs : Assoc JobRow
  pub queues : Assoc QueueRow
  pub seq : ℕ
  pub notify : Assoc (List Channel)
  pub leaders : Assoc MemoryLeader
  pub cursors : Assoc Time
  pub now : Time

unfoldable pub new : Time → Driver
new now = record {
  jobs = [];
  queues = [];
  seq = 0;
  notify = [];
  leaders = [];
  cursors = [];
  now = now;
}

-- The queue's row is made where there is none.
unfoldable pub ensure_queue : String → Time → Driver → Driver
ensure_queue name now d = elim (lookup name d.queues) [
  | some _ ↦ d
  | none ↦ record d {
    queues =
        insert name (record { name = name; paused = false; created_at = now; updated_at = now })
          d.queues;
  }
]

-- A full channel drops the notification.
unfoldable pub deliver : Channel → Channel
deliver ch = if ltb ch.buffered 16 then record ch { buffered = suc ch.buffered } else ch

unfoldable pub broadcast_notify : String → Driver → Driver
unfolding deliver
broadcast_notify queue d = elim (lookup queue d.notify) [
  | none ↦ d
  | some channels ↦ record d { notify = insert queue (map deliver channels) d.notify }
]

abbrev pub put_job : Driver → String → JobRow → Driver
put_job d id row = record d { jobs = insert id row d.jobs }

-- A method that edits the row under `id` through its pointer where a test on the row allows it, and
-- reports whether it did.
unfoldable pub update_if : Driver → String → (JobRow → Bool) → (JobRow → JobRow) → Driver × Bool
update_if d id test edit = elim (lookup id d.jobs) [
  | none ↦ (d, false)
  | some row ↦ if test row then (put_job d id (edit row), true) else (d, false)
]

abbrev put_result : Driver → String → Result JobRow → Result Driver
put_result d id (err e) = err e
put_result d id (ok row) = ok (put_job d id row)

-- A method that edits the row under `id` or fails; `missing` is its error where there is no row.
unfoldable pub edit_row : Driver → String → Error → (JobRow → Result JobRow) → Result Driver
edit_row d id missing edit = elim (lookup id d.jobs) [
  | none ↦ err missing
  | some row ↦ put_result d id (edit row)
]

-- The job's key is still reserved: a permanent key always is, any other until the job ends.
unfoldable pub holds_key : String → JobRow → Bool
unfolding is_permanent_unique_key is_terminal
holds_key unique_key j =
    (j.unique_key =s= unique_key)
    && (is_permanent_unique_key unique_key || not (is_terminal j.state))

abbrev pub entry_holds_key : String → String × JobRow → Bool
entry_holds_key unique_key (_, j) = holds_key unique_key j

-- The first such job in the map's order; Go's order is open.
unfoldable pub find_unique_job : Driver → String → Option (String × JobRow)
unfolding holds_key
find_unique_job d unique_key = find (entry_holds_key unique_key) d.jobs
