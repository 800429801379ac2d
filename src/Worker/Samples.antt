-- ===== src/Worker/Samples.antt =====
-- A running job and a memory driver that holds it.
use goncordia.Prelude.{pos, false, none, some, [], ◌∷◌}
use goncordia.Driver.{JobRow, running, available}
use goncordia.Memory.State.{Driver}

abbrev pub row : JobRow
row = record {
  id = "mem_1";
  queue = "mail";
  kind = "welcome";
  args = "{}";
  state = running;
  priority = pos 0;
  run_at = 800;
  created_at = 700;
  attempted_at = some 950;
  started_at = none;
  lease_expires_at = some 2000;
  finalized_at = none;
  attempt_num = 1;
  max_retry = pos 0;
  timeout = pos 0;
  tags = [];
  errors = [];
  unique_key = "";
  worker_id = "w1";
  pipeline_id = "order/3";
}

-- The row's job runs, and another is due.
abbrev pub mail : Driver
mail = record {
  jobs =
      ("mem_1", row)
      ∷ ("mem_2", record row { id = "mem_2"; state = available; attempt_num = 0; worker_id = "" })
      ∷ [];
  queues =
      ("mail", record { name = "mail"; paused = false; created_at = 700; updated_at = 700 }) ∷ [];
  seq = 2;
  notify = [];
  leaders = [];
  cursors = [];
  now = 1000;
}
