-- ===== src/Memory/Queues.antt =====
-- driver/memory/memory.go: the queues' rows.
use goncordia.Prelude.{
  String, ◌=s=◌, text_ltb, Bool, false, true, if◌then◌else◌, none, some, List, map, keep, take,
}
use goncordia.Prelude.Assoc.{lookup, insert}
use goncordia.Prelude.Sort.{sort}
use goncordia.Driver.{QueueRow, QueueListParams, Result, ok, err, not_found}
use goncordia.Driver.Pagination.{Codec, QueueCursorV1, decode_queue_cursor}
use goncordia.Memory.State.{Driver, ensure_queue}
use goncordia.Memory.Jobs.{page_limit}

unfoldable pub queue_get : Driver → String → Result QueueRow
queue_get d name = elim (lookup name d.queues) [ none ↦ err not_found | some q ↦ ok q ]

-- e.d.queues[name].Paused = paused
set_paused : Bool → String → Driver → Driver
set_paused paused name d = elim (lookup name d.queues) [
  | none ↦ d
  | some q ↦ record d { queues = insert name (record q { paused = paused }) d.queues }
]

unfoldable pub queue_pause : Driver → String → Driver
unfolding set_paused ensure_queue
queue_pause d name = set_paused true name (ensure_queue name d.now d)

unfoldable pub queue_resume : Driver → String → Driver
unfolding set_paused ensure_queue
queue_resume d name = set_paused false name (ensure_queue name d.now d)

name_before : QueueRow → QueueRow → Bool
name_before a b = text_ltb a.name b.name

-- The rows behind the cursor by name; the empty cursor is before every name but the empty one.
list_queues_from : Driver → QueueListParams → String → List QueueRow
unfolding name_before
list_queues_from d params cursor =
    take (page_limit params.limit)
      (sort name_before (keep (λ q. text_ltb cursor q.name) (map (λ entry. entry.1) d.queues)))

unfoldable pub queue_list : Codec QueueCursorV1 → Driver → QueueListParams → Result (List QueueRow)
unfolding list_queues_from
queue_list codec d params =
    if params.cursor =s= ""
    then ok (list_queues_from d params "")
    else elim (decode_queue_cursor codec params.cursor) [
      | err e ↦ err e
      | ok cursor ↦ ok (list_queues_from d params cursor)
    ]
