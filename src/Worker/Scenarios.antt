-- ===== src/Worker/Scenarios.antt =====
-- The theorems on a claimed job at concrete inputs, over the memory driver.
use goncordia.Prelude.{◌≤◌, ◌≡◌, refl, pos, true, none, some, [], ◌∷◌, arith}
use goncordia.Prelude.Assoc.{Assoc, lookup}
use goncordia.Driver.{JobRow}
use goncordia.Memory.State.{put_job}
use goncordia.Memory.Claims.{is_claimed_by}
use goncordia.Memory.Interfaces.{executor}
use goncordia.Core.Retry.{returned, plain}
use goncordia.Core.Payload.{opts_of, WorkerEntry}
use goncordia.Worker.Defaults.{default_retry_policy}
use goncordia.Worker.Running.{Surroundings, effective_max_retry, run_row}
use goncordia.Worker.Outcome.{process_row}
use goncordia.Worker.Becomes.{Becomes}
use goncordia.Worker.Claimed.{Stages, run_claimed, beat, rescue_stuck}
use goncordia.Worker.Renewal.{marker, heartbeater, rescuer, beat-spares}
use goncordia.Worker.Settled.{IsSettled, run_claimed-IsSettled}
use goncordia.Worker.Settling.{process_row-Becomes}
use goncordia.Worker.Samples.{row, mail}

-- A worker that fails, and a run of its job that nothing disturbs.
abbrev workers : Assoc WorkerEntry
workers =
    (
      "welcome",
      record {
        opts = record {
          max_retry = pos 5;
          timeout = pos 0;
          concurrency = pos 0;
          payload_version = pos 1;
          upcasters = [];
        };
        process = λ ctx raw. (raw, returned (some (plain "no route")));
      },
    )
    ∷ []

abbrev around : Surroundings
around = record { context = none; started = 1000; ended = 1000; lost = none }

process_row-Becomes_example :
    (final : JobRow) × ((process_row executor workers [] default_retry_policy around row mail).0
      ≡ (put_job mail "mem_1" final, none))
    × Becomes
        (effective_max_retry workers row)
        default_retry_policy
        around
        row
        (run_row workers [] around row)
        1000
        row
        (process_row executor workers [] default_retry_policy around row mail).1.0
        final
unfolding lookup is_claimed_by
process_row-Becomes_example =
    process_row-Becomes workers [] default_retry_policy around row mail row refl refl refl
      (omega arith)

within : 1 ≤ effective_max_retry workers row
unfolding effective_max_retry opts_of lookup
within = omega arith

-- The job gets its permits, and its driver marks the start.
abbrev stages : Stages
stages = record {
  turn = true;
  lease = true;
  keys = true;
  rate_gate = true;
  kind_slot = true;
  slot = true;
  permit = true;
}

run_claimed-IsSettled_example :
    IsSettled
      (effective_max_retry workers row)
      "mem_1"
      mail
      (run_claimed executor marker workers [] default_retry_policy stages around row mail)
unfolding lookup is_claimed_by
run_claimed-IsSettled_example =
    run_claimed-IsSettled workers [] default_retry_policy stages around row mail row refl refl refl
      (omega arith) within

beat-spares_example :
    ((beat heartbeater (pos 600) row 1000 mail).1 ≡ true)
    × (lookup "mem_1"
          (rescue_stuck rescuer
            (pos 600)
            1500
            ("mail" ∷ [])
            (beat heartbeater (pos 600) row 1000 mail).0).jobs
        ≡ some (record row { lease_expires_at = some 1600 }))
unfolding lookup is_claimed_by
beat-spares_example =
    beat-spares mail row row (pos 600) 1000 1500 ("mail" ∷ []) refl refl refl (omega arith)
