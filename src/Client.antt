-- ===== src/Client.antt =====
-- client.go: checking and completing the options of an enqueue, and the unique key.
pub mod Keys
pub mod Batch
pub mod Enqueue
pub mod Reserved
use goncordia.Prelude.{
  ℕ, ◌≡◌, ◌⊎◌, inl, inr, ℤ, pos, negative, positive, pos_part, if◌then◌else◌, Bool, true, false,
  not, ◌||◌, ◌&&◌, String, ◌=s=◌, Option, none, some, List, [], ◌∷◌, length, map,
}
use Prim.Native.String.{◌++◌}
use goncordia.Time.{Time, truncate}
use goncordia.Driver.{JobInsertParams, JobInsertResult, Error, Result, ok, err}
use goncordia.Driver.Pagination.{unix_nano}
use goncordia.Driver.Executor.{Executor}
use goncordia.Core.{JobArgs, InsertOpts, UniqueOpts}
use goncordia.Core.Payload.{EnvelopeCodec, encode_payload}
use goncordia.Admission.{AdmissionError}

pub data ClientError : Type 0 where
  nil_args empty_kind marshal_args version_not_positive version_negative : ClientError
  max_retry_negative timeout_negative period_negative marshal_key encode : ClientError
  unsupported : ClientError
  rejected : AdmissionError → ClientError
  storage : Error → ClientError
  result_count : ℕ → ClientError

-- The struct that the unique key is the digest of. `args` is none where it is left out.
pub record Canonical : Type 0 where
  pub version : ℤ
  pub kind : String
  pub queue : String
  pub caller_key : String
  pub args : Option String
  pub period_start : ℤ

-- json.Marshal of the struct, sha256 with "%x", and encoding/json on the envelope.
pub record Codecs : Type 0 where
  pub marshal : Canonical → Option String
  pub digest : String → String
  pub envelope : EnvelopeCodec

pub record ClientConfig (S : Type 0) : Type 0 where
  pub default_queue : String
  pub admission : Option (S → List JobInsertParams → Bool → Option AdmissionError)

pub record InsertRequest : Type 0 where
  pub args : Option JobArgs
  pub opts : Option InsertOpts

-- An empty default queue is "default".
unfoldable pub new_client : {S : Type 0} → ClientConfig S → ClientConfig S
new_client cfg = if cfg.default_queue =s= "" then record cfg { default_queue = "default" } else cfg

unfoldable pub canonical_args : UniqueOpts → JobArgs → ClientError ⊎ Option String
canonical_args opts args =
    if opts.by_args
    then elim args.json [ none ↦ inl marshal_key | some b ↦ inr (some b) ]
    else inr none

unfoldable pub canonical : UniqueOpts → JobArgs → String → Time → Option String → Canonical
canonical opts args queue now b = record {
  version = pos 2;
  kind = args.kind;
  queue = if opts.by_queue then queue else "";
  caller_key = opts.key;
  args = b;
  period_start =
      if positive opts.by_period then unix_nano (truncate now (pos_part opts.by_period)) else pos 0;
}

unfoldable pub key_prefix : UniqueOpts → String
key_prefix opts = if opts.forever then "uf2_" else "u2_"

unfoldable pub build_unique_key :
    Codecs → JobArgs → String → Option UniqueOpts → Time → ClientError ⊎ String
unfolding canonical_args canonical key_prefix
build_unique_key codecs args queue none now = inr ""
build_unique_key codecs args queue (some opts) now = elim (canonical_args opts args) [
  | inl e ↦ inl e
  | inr b ↦ elim (codecs.marshal (canonical opts args queue now b)) [
    | none ↦ inl marshal_key
    | some payload ↦ inr (key_prefix opts ++ codecs.digest payload)
  ]
]

-- The version that the type of the arguments gives, or 1.
unfoldable pub type_version : JobArgs → ClientError ⊎ ℤ
type_version args = elim args.payload_version [
  | none ↦ inr (pos 1)
  | some v ↦ if positive v then inr v else inl version_not_positive
]

abbrev pub is_negative : Option ℤ → Bool
is_negative none = false
is_negative (some n) = negative n

abbrev pub or_zero : Option ℤ → ℤ
or_zero none = pos 0
or_zero (some n) = n

-- The first refusal of the options, in the code's order.
unfoldable pub check_opts : InsertOpts → Option ClientError
check_opts opts =
    if negative opts.payload_version
    then some version_negative
    else if is_negative opts.max_retry
    then some max_retry_negative
    else if is_negative opts.timeout
    then some timeout_negative
    else elim opts.unique_opts [
      | none ↦ none
      | some u ↦ if negative u.by_period then some period_negative else none
    ]

-- What is stored where there are no options.
unfoldable pub plain_params : String → String → String → JobInsertParams
plain_params queue kind text = record {
  queue = queue;
  kind = kind;
  args = text;
  priority = pos 0;
  run_at = 0;
  unique_key = "";
  max_retry = pos 0;
  timeout = pos 0;
  tags = [];
  pipeline_id = "";
}

-- What is stored with options.
unfoldable pub params_with : InsertOpts → String → String → String → String → JobInsertParams
params_with opts queue kind key text = record {
  queue = queue;
  kind = kind;
  args = text;
  priority = opts.priority;
  run_at = opts.run_at;
  unique_key = key;
  max_retry = or_zero opts.max_retry;
  timeout = or_zero opts.timeout;
  tags = opts.tags;
  pipeline_id = opts.pipeline_id;
}

unfoldable pub encoded :
    Codecs → String → ℤ → (String → JobInsertParams) → ClientError ⊎ JobInsertParams
encoded codecs json version params = elim (encode_payload codecs.envelope json version) [
  | none ↦ inl encode
  | some text ↦ inr (params text)
]

unfoldable pub with_opts :
    Codecs → String → Time → JobArgs → String → ℤ → InsertOpts → ClientError ⊎ JobInsertParams
unfolding check_opts params_with encoded
with_opts codecs default_queue now args json version opts = elim (check_opts opts) [
  | some e ↦ inl e
  | none ↦
      let queue = if opts.queue =s= "" then default_queue else opts.queue in
      let version' = if positive opts.payload_version then opts.payload_version else version in
      elim (build_unique_key codecs args queue opts.unique_opts now) [
        | inl e ↦ inl e
        | inr key ↦ encoded codecs json version' (params_with opts queue args.kind key)
      ]
]

unfoldable pub build_insert_params :
    Codecs → String → Time → Option JobArgs → Option InsertOpts → ClientError ⊎ JobInsertParams
unfolding type_version plain_params with_opts
build_insert_params codecs default_queue now none opts = inl nil_args
build_insert_params codecs default_queue now (some args) opts =
    if args.kind =s= "" then inl empty_kind else elim args.json [
      | none ↦ inl marshal_args
      | some json ↦ elim (type_version args) [
        | inl e ↦ inl e
        | inr version ↦ elim opts [
          | none ↦ encoded codecs json version (plain_params default_queue args.kind)
          | some o ↦ with_opts codecs default_queue now args json version o
        ]
      ]
    ]

-- The loop over a batch stops at the first error.
unfoldable pub build_all :
    Codecs → String → Time → List InsertRequest → ClientError ⊎ List JobInsertParams
build_all codecs default_queue now [] = inr []
build_all codecs default_queue now (r ∷ rs) =
    let rest = build_all codecs default_queue now rs in
    elim (build_insert_params codecs default_queue now r.args r.opts) [
      | inl e ↦ inl e
      | inr p ↦ elim rest [ inl e ↦ inl e | inr ps ↦ inr (p ∷ ps) ]
    ]
