-- ===== src/Scenarios.antt =====
-- The theorems on rate limits, payloads, retries, the client, maintenance and the cron scan at
-- concrete inputs, over the memory driver where they need a backend.
use goncordia.Prelude.{
  ℕ, ◌+◌, ◌*◌, ◌^◌, ◌-◌, ◌≤◌, ◌≡◌, refl, sym, ap, ◌∙◌, ◌⊎◌, inl, inr, min, ℤ, pos, negsuc, pos_part,
  eqb_ℤ, if◌then◌else◌, true, false, ◌&&◌, Bool-cases, String, ◌=s=◌, eq_iff, Option, none, some,
  List, [], ◌∷◌, length, keep, All, arith,
}
use goncordia.Prelude.Assoc.{Assoc, lookup, insert}
use goncordia.Time.{Time}
use goncordia.Driver.{JobInsertParams, QueueStats, ok, JobRow, completed, is_terminal}
use goncordia.Driver.RateLimit.{World, Outcome, gcra_loop}
use goncordia.Driver.RateLimit.Gcra.{
  Access, create, write, permits, permits_bounded, gcra_loop-decides,
}
use goncordia.Driver.RateLimit.Replay.{replay, IsRun, gcra_loop-IsRun}
use goncordia.Driver.RateLimit.Window as Window
use goncordia.Driver.RateLimit.Requests as Requests
use goncordia.Core.{JobArgs, UniqueOpts}
use goncordia.Core.Retry.{backoff, backoff_lem}
use goncordia.Core.Payload.{
  EnvelopeCodec, WorkerOpts, Upcasts, encode_payload, decode_payload, payload_for, upcast,
  upcaster_from, current_version, payload_for-Upcasts,
}
use goncordia.Admission.{
  active_jobs, jobs_for, admit, limit_of, check, incoming_from, count_in, admit-room,
}
use goncordia.Client.{
  Codecs, ClientConfig, InsertRequest, build_unique_key, build_insert_params, build_all, canonical,
  canonical_args, key_prefix,
}
use goncordia.Client.Enqueue.{batch_as}
use goncordia.Client.Reserved.{ended_key-reserved}
use goncordia.Client.Batch.{IsValid, IsWhole, build_all-IsValid, batch_as-IsWhole}
use goncordia.Maintenance.{bulk}
use goncordia.Maintenance.Bulk.{IsReport, first_of, is_set, bulk-IsReport}
use goncordia.Cron.{scan}
use goncordia.Cron.Scan.{Found, scan-Found}
use goncordia.Memory.State.{Driver, new, holds_key}
use goncordia.Memory.Jobs.{queue_stats, job_insert}
use goncordia.Driver.Executor.{AdminExecutor}
use goncordia.Memory.Interfaces.{executor, cursor_store}

abbrev accesses : List (Access cursor_store "api" 10 20)
accesses = create 1000 ∷ write 1000 1000 ∷ write 1005 1010 ∷ write 1005 1010 ∷ []

permits_bounded_example :
    1000 + permits cursor_store "api" 10 20 (new 1000) accesses * 10 ≤ 1050 + 20 + 10
permits_bounded_example =
    permits_bounded cursor_store "api" 10 20 (new 1000) 1000 1050 accesses (omega arith) (
      (omega arith, omega arith),
      (
        (omega arith, omega arith, omega arith),
        ((omega arith, omega arith, omega arith), ((omega arith, omega arith, omega arith), tt)),
      ),
    )

abbrev alone : World Driver
alone = record { others = λ n d. d; is_done = λ n. false }

gcra_loop-decides_example :
    (outcome : Outcome) × ((gcra_loop cursor_store alone 1 "api" 1000 10 20 (new 1000)).1
      ≡ some outcome)
gcra_loop-decides_example =
    gcra_loop-decides cursor_store alone "api" 1000 10 20 1 0 (new 1000) (omega arith) (λ d. refl)

backoff_example : backoff 1000 3600 4 ≡ min (1000 * 2 ^ (4 - 1)) 3600
backoff_example = backoff_lem 1000 3600 4

abbrev unmarshal : String → Option (Option ℤ × String)
unmarshal t = if t =s= "enveloped" then some (some (pos 2), "{}") else some (none, "")

abbrev marshal : ℤ → String → Option String
marshal v p = if eqb_ℤ v (pos 2) && (p =s= "{}") then some "enveloped" else none

is_two : (v : ℤ) → eqb_ℤ v (pos 2) ≡ true → v ≡ pos 2
is_two (pos n) h = ap pos (ground (arith, h))
is_two (negsuc n) h = absurd (ground (arith, h))

round_trip :
    (v : ℤ) (p t : String)
    → (p =s= "{}") ≡ true
    → marshal v p ≡ some t
    → unmarshal t ≡ some (some v, p)
round_trip v p t c m = elim (Bool-cases (eqb_ℤ v (pos 2))) [
  | inr other ↦ absurd (ground (arith, other, m))
  | inl two ↦
      let written : "enveloped" ≡ t = ground (arith, two, c, m) in
      ap unmarshal (sym written)
      ∙ ap (λ w. some (some w, "{}")) (sym (is_two v two))
      ∙ ap (λ q. some (some v, q)) (sym ((eq_iff p "{}").0 c))
]

-- One payload that is enveloped at version 2, and legacy payloads.
abbrev envelope : EnvelopeCodec
envelope = record {
  is_compact = λ p. p =s= "{}";
  marshal = marshal;
  unmarshal = unmarshal;
  round_trip = round_trip;
}

abbrev codecs : Codecs
codecs = record { marshal = λ c. some c.caller_key; digest = λ t. t; envelope = envelope }

abbrev opts : WorkerOpts
opts = record {
  max_retry = pos 3;
  timeout = pos 0;
  concurrency = pos 0;
  payload_version = pos 3;
  upcasters = (2, λ p. some "{\"v\":3}") ∷ [];
}

payload_for-Upcasts_example :
    (version : ℤ) × (payload : String) × (decode_payload envelope "enveloped"
      ≡ some (version, payload))
    × (pos_part version ≤ current_version opts)
    × Upcasts opts.upcasters (pos_part version) payload (current_version opts) "{\"v\":3}"
unfolding payload_for decode_payload current_version upcast upcaster_from
payload_for-Upcasts_example = payload_for-Upcasts envelope opts "enveloped" "{\"v\":3}" refl

abbrev welcome : JobArgs
welcome = record { kind = "welcome"; payload_version = none; json = some "{}" }

abbrev forever : UniqueOpts
forever = record {
  by_args = false;
  key = "u7";
  by_queue = false;
  by_period = pos 0;
  forever = true;
}

abbrev stored : JobInsertParams
stored = record {
  queue = "mail";
  kind = "welcome";
  args = "{}";
  priority = pos 0;
  run_at = 0;
  unique_key = "";
  max_retry = pos 0;
  timeout = pos 0;
  tags = [];
  pipeline_id = "";
}

abbrev limits : Assoc ℤ
limits = ("mail", pos 5) ∷ []

-- The listing is not used.
abbrev stats_only : AdminExecutor Driver
stats_only = record { job_list = λ d p. ok []; queue_stats = λ d q. ok (queue_stats d q) }

abbrev request : InsertRequest
request = record { args = some welcome; opts = none }

-- A job with a permanent key has ended.
abbrev ended : JobRow
ended = record {
  id = "mem_1";
  queue = "mail";
  kind = "welcome";
  args = "{}";
  state = completed;
  priority = pos 0;
  run_at = 800;
  created_at = 700;
  attempted_at = some 950;
  started_at = none;
  lease_expires_at = none;
  finalized_at = some 990;
  attempt_num = 1;
  max_retry = pos 0;
  timeout = pos 0;
  tags = [];
  errors = [];
  unique_key = "uf2_u7";
  worker_id = "";
  pipeline_id = "";
}

abbrev done_once : Driver
done_once = record (new 1000) { jobs = ("mem_1", ended) ∷ []; seq = 1 }

abbrev welcome_again : JobInsertParams
welcome_again = record stored { unique_key = "uf2_u7" }

ended_key-reserved_example :
    (holds_key "uf2_u7" ended ≡ true)
    × ((true ≡ false)
        ⊎ (((job_insert done_once welcome_again).0 ≡ done_once)
            × ((job_insert done_once welcome_again).1.unique_skip ≡ true)))
unfolding build_unique_key canonical_args canonical key_prefix lookup is_terminal new
ended_key-reserved_example =
    ended_key-reserved codecs welcome "mail" forever 1000 "uf2_u7" refl done_once "mem_1" ended
      welcome_again refl refl refl refl

build_all-IsValid_example : (length (stored ∷ []) ≡ 1) × All IsValid (stored ∷ [])
unfolding build_all build_insert_params encode_payload
build_all-IsValid_example = build_all-IsValid codecs "mail" 1000 (request ∷ []) (stored ∷ []) refl

bulk-IsReport_example :
    IsReport executor.job_cancel
      (first_of (keep is_set ("mem_1" ∷ "" ∷ "mem_1" ∷ [])))
      ("mem_1" ∷ "" ∷ "mem_1" ∷ [])
      (new 1000)
      (bulk executor.job_cancel (λ n. false) ("mem_1" ∷ "" ∷ "mem_1" ∷ []) (new 1000))
bulk-IsReport_example =
    bulk-IsReport executor.job_cancel (λ n. false) (λ n. refl) ("mem_1" ∷ "" ∷ "mem_1" ∷ [])
      (new 1000)

abbrev every_ten : Time → Time
every_ten t = t + 10

scan-Found_example : Found every_ten 36 5 (15 ∷ 25 ∷ 35 ∷ []) true
unfolding scan
scan-Found_example = scan-Found every_ten 36 none 9 0 5 (15 ∷ 25 ∷ 35 ∷ []) true refl

abbrev two_jobs : List JobInsertParams
two_jobs = stored ∷ stored ∷ []

admit-room_example :
    (stats : QueueStats) × (stats_only.queue_stats (new 1000) "mail" ≡ ok stats)
    × (active_jobs stats + jobs_for "mail" two_jobs ≤ pos_part (limit_of limits "mail"))
unfolding admit check incoming_from count_in limit_of lookup queue_stats active_jobs insert new
admit-room_example = admit-room stats_only limits (new 1000) two_jobs "mail" refl (omega arith) refl

abbrev config : ClientConfig Driver
config = record { default_queue = "mail"; admission = none }

batch_as-IsWhole_example :
    IsWhole executor codecs config false
      (new 1000)
      (request ∷ [])
      (batch_as executor codecs config false (new 1000) (request ∷ []))
batch_as-IsWhole_example = batch_as-IsWhole executor codecs config false (new 1000) (request ∷ [])

-- Three requests of a window of five milliseconds that begins at 0, of which nothing disturbs the first
-- two, and a grant to another process comes between the calls of the third.
abbrev increments : World Driver
increments = record {
  others = λ n s.
      (Window.access cursor_store "api" 5000000 2 0 refl (omega arith) s
        (Window.increment 1000000)).0;
  is_done = λ n. false;
}

abbrev requests : List (ℕ × World Driver)
requests = (1, alone) ∷ (1, alone) ∷ (1, increments) ∷ []

gcra_loop-IsRun_example :
    IsRun cursor_store "api" 10 20 1000 1050
      (new 1000)
      (gcra_loop cursor_store alone 1 "api" 1000 10 20 (new 1000)).0
unfolding replay
gcra_loop-IsRun_example =
    gcra_loop-IsRun cursor_store "api" 10 20 alone (λ n. []) 1000 1050 1000 (λ n d. refl) (λ n. tt)
      (omega arith) (omega arith) 1 (new 1000)
