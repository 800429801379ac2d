-- ===== src/Core/Payload.antt =====
-- core/registry.go: the payload envelope, and what a registered worker does with a raw job.
use goncordia.Prelude.{
  ℕ, zero, suc, ◌+◌, ◌-◌, ◌≤◌, ◌≡◌, refl, sym, ◌∙◌, subst, inl, inr, ◌⊎◌, ltb, ◌==◌, if◌then◌else◌,
  Bool, true, ◌||◌, not, Bool-cases, Option-cases, ℤ, pos, positive, pos_part, eqb_ℤ, String, ◌=s=◌,
  Option, none, some, List, arith,
}
use goncordia.Prelude.Assoc.{Assoc, lookup}
use goncordia.Time.{Time}
use goncordia.Core.{Job}
use goncordia.Core.Retry.{plain, discard, Ending, returned}

-- A context that a worker is given, by its deadline.
abbrev pub Context : Type 0
Context = Option Time

-- encoding/json on the envelope: `marshal` may refuse a payload that is no JSON, and writes a payload
-- that is already compact as it is; `unmarshal` gives the version field, where there is one, and the
-- payload field.
pub record EnvelopeCodec : Type 0 where
  pub is_compact : String → Bool
  pub marshal : ℤ → String → Option String
  pub unmarshal : String → Option (Option ℤ × String)
  pub round_trip :
      (version : ℤ) (payload text : String)
      → is_compact payload ≡ true
      → marshal version payload ≡ some text
      → unmarshal text ≡ some (some version, payload)

module _ (codec : EnvelopeCodec) where
  -- `none` is an error.
  unfoldable pub encode_payload : String → ℤ → Option String
  encode_payload payload version =
      if not (positive version)
      then none
      else if eqb_ℤ version (pos 1)
      then some payload
      else codec.marshal version payload

  unfoldable pub decode_payload : String → Option (ℤ × String)
  decode_payload payload = elim (codec.unmarshal payload) [
    | none ↦ none
    | some (none, _) ↦ some (pos 1, payload)
    | some (some version, inner) ↦
        if not (positive version) || (inner =s= "") then none else some (version, inner)
  ]

-- An upcaster of one version; `none` is its error.
abbrev pub Upcasters : Type 0
Upcasters = List (ℕ × (String → Option String))

unfoldable pub upcaster_from : ℕ → Upcasters → Option (String → Option String)
upcaster_from version List.[] = none
upcaster_from version (List.◌∷◌ (from, f) rest) =
    if from == version then some f else upcaster_from version rest

pub record WorkerOpts : Type 0 where
  pub max_retry : ℤ
  pub timeout : ℤ
  pub concurrency : ℤ
  pub payload_version : ℤ
  pub upcasters : Upcasters

pub record RawJob : Type 0 where
  pub id : String
  pub queue : String
  pub kind : String
  pub args : String
  pub attempt_num : ℕ
  pub max_retry : ℤ
  pub created_at : Time
  pub run_at : Time
  pub worker_id : String
  pub tags : List String
  pub pipeline_id : String
  pub payload_version : ℕ

-- The loop `for version < currentVersion`, whose rounds are the versions between.
unfoldable pub upcast : Upcasters → ℕ → ℕ → String → String ⊎ String
upcast upcasters zero version payload = inr payload
upcast upcasters (suc rounds) version payload = elim (upcaster_from version upcasters) [
  | none ↦ inl "missing payload upcaster"
  | some f ↦ elim (f payload) [
    | none ↦ inl "upcast job payload"
    | some next ↦ upcast upcasters rounds (version + 1) next
  ]
]

unfoldable pub current_version : WorkerOpts → ℕ
current_version opts = if positive opts.payload_version then pos_part opts.payload_version else 1

unfoldable pub typed_job : {T : Type 0} → RawJob → T → ℕ → Job T
typed_job raw args version = record {
  id = raw.id;
  queue = raw.queue;
  args = args;
  attempt_num = raw.attempt_num;
  max_retry = raw.max_retry;
  created_at = raw.created_at;
  run_at = raw.run_at;
  worker_id = raw.worker_id;
  tags = raw.tags;
  pipeline_id = raw.pipeline_id;
  payload_version = version;
}

-- The payload for the worker at its version, or why the job is discarded.
unfoldable pub payload_for : EnvelopeCodec → WorkerOpts → String → String ⊎ String
unfolding decode_payload current_version upcast
payload_for codec opts text = elim (decode_payload codec text) [
  | none ↦ inl "decode job payload"
  | some (version, payload) ↦
      let current = current_version opts in
      let rounds = current - pos_part version in
      if ltb current (pos_part version)
      then inl "unsupported payload version"
      else upcast opts.upcasters rounds (pos_part version) payload
]

-- The `process` that `RegisterWorker` stores, which notes the version in the raw job. `unmarshal` is
-- json.Unmarshal into the type of the arguments.
unfoldable pub process :
    {T : Type 0}
    → EnvelopeCodec
    → WorkerOpts
    → (String → Option T)
    → (Context → Job T → Ending)
    → Context
    → RawJob
    → RawJob × Ending
unfolding payload_for typed_job
process codec opts unmarshal work ctx raw = elim (payload_for codec opts raw.args) [
  | inl why ↦ (raw, returned (some (discard (plain why))))
  | inr payload ↦
      let current = current_version opts in
      let raw' = record raw { payload_version = current } in
      elim (unmarshal payload) [
        | none ↦ (raw', returned (some (discard (plain "unmarshal job args"))))
        | some args ↦ (raw', work ctx (typed_job raw args current))
      ]
]

pub record WorkerEntry : Type 0 where
  pub opts : WorkerOpts
  pub process : Context → RawJob → RawJob × Ending

-- A registry maps a kind to its entry.
unfoldable pub registry_process : Assoc WorkerEntry → Context → RawJob → RawJob × Ending
registry_process workers ctx raw = elim (lookup raw.kind workers) [
  | none ↦ (raw, returned (some (plain "no worker registered for job kind")))
  | some entry ↦ entry.process ctx raw
]

unfoldable pub opts_of : Assoc WorkerEntry → String → Option WorkerOpts
opts_of workers kind = elim (lookup kind workers) [ none ↦ none | some entry ↦ some entry.opts ]

-- The payload at a later version is what the upcasters of the versions between make of it, one after
-- another.
pub data Upcasts (upcasters : Upcasters) : ℕ → String → ℕ → String → Type 0 where
  current : {version : ℕ} {payload : String} → Upcasts upcasters version payload version payload
  next :
      {version target : ℕ} {payload middle result : String} {f : String → Option String}
      → upcaster_from version upcasters ≡ some f
      → f payload ≡ some middle
      → Upcasts upcasters (version + 1) middle target result
      → Upcasts upcasters version payload target result

upcast-Upcasts :
    (upcasters : Upcasters) (rounds version : ℕ) (payload result : String)
    → upcast upcasters rounds version payload ≡ inr result
    → Upcasts upcasters version payload (version + rounds) result
unfolding upcast
upcast-Upcasts upcasters zero version payload result e =
    subst (λ v. Upcasts upcasters version payload v result) (omega arith)
      (subst (Upcasts upcasters version payload version) (cc e) current)
upcast-Upcasts upcasters (suc rounds) version payload result e =
    elim (Option-cases (upcaster_from version upcasters)) [
      | inl missing ↦ absurd (ground (arith, missing))
      | inr (f, known) ↦ elim (Option-cases (f payload)) [
        | inl failed ↦ absurd (ground (arith, known, failed))
        | inr (middle, made) ↦
            subst (λ v. Upcasts upcasters version payload v result) (omega arith)
              (next known made (
                upcast-Upcasts upcasters rounds (version + 1) middle result
                  (sym (rw (known, upcast, made) refl) ∙ e)))
      ]
    ]

-- Where a raw job's payload gets through, the worker is given what the stored payload becomes by the
-- upcasters of the versions from the stored one to the worker's, one after another, and the stored
-- version is not above the worker's.
pub payload_for-Upcasts :
    (codec : EnvelopeCodec) (opts : WorkerOpts) (text result : String)
    → payload_for codec opts text ≡ inr result
    → (version : ℤ) × (payload : String) × (decode_payload codec text ≡ some (version, payload))
      × (pos_part version ≤ current_version opts)
      × Upcasts opts.upcasters (pos_part version) payload (current_version opts) result
unfolding payload_for
payload_for-Upcasts codec opts text result e = elim (Option-cases (decode_payload codec text)) [
  | inl broken ↦ absurd (ground (arith, broken))
  | inr ((version, payload), known) ↦
      elim (Bool-cases (ltb (current_version opts) (pos_part version))) [
        | inl newer ↦ absurd (ground (arith, known, newer))
        | inr supported ↦
            let le : pos_part version ≤ current_version opts = ground arith in
            (
              version,
              payload,
              known,
              le,
              subst (λ v. Upcasts opts.upcasters (pos_part version) payload v result) (omega arith)
                  (upcast-Upcasts opts.upcasters (current_version opts - pos_part version)
                    (pos_part version) payload result
                    (sym (rw (known, payload_for, supported) refl) ∙ e)),
            )
      ]
]
