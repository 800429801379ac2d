-- ===== src/Client/Enqueue.antt =====
-- client.go: the Enqueue family, outside a transaction and in one. The observer is left out: it sees
-- the operation and does not change it.
use goncordia.Prelude.{
  ◌⊎◌, inl, inr, if◌then◌else◌, Bool, true, false, Option, none, some, List, [], ◌∷◌, length, map,
}
use goncordia.Driver.{JobInsertParams, JobInsertResult, ok, err}
use goncordia.Driver.Executor.{Executor}
use goncordia.Core.{JobArgs, InsertOpts}
use goncordia.Client.{
  ClientConfig, ClientError, Codecs, InsertRequest, build_all, build_insert_params, rejected,
  result_count, storage, unsupported,
}

module _ {S : Type 0} (exec : Executor S) (codecs : Codecs) (cfg : ClientConfig S) where
  -- Nothing to insert needs no admission.
  unfoldable pub admit : S → List JobInsertParams → Bool → Option ClientError
  admit s [] transactional = none
  admit s (p ∷ ps) transactional = elim cfg.admission [
    | none ↦ none
    | some controller ↦ elim (controller s (p ∷ ps) transactional) [
      | none ↦ none
      | some e ↦ some (rejected e)
    ]
  ]

  unfoldable pub insert_admitted :
      Bool → S → List JobInsertParams → S × (ClientError ⊎ List JobInsertResult)
  unfolding admit
  insert_admitted transactional s params = elim (admit s params transactional) [
    | some e ↦ (s, inl e)
    | none ↦
        let (s', r) = exec.job_insert_many s params in
        (s', elim r [ err e ↦ inl (storage e) | ok results ↦ inr results ])
  ]

  -- One result is expected for one insert.
  unfoldable pub single : ClientError ⊎ List JobInsertResult → ClientError ⊎ JobInsertResult
  single (inl e) = inl e
  single (inr []) = inl (result_count 0)
  single (inr (r ∷ [])) = inr r
  single (inr (r ∷ r' ∷ rs)) = inl (result_count (length (r ∷ r' ∷ rs)))

  unfoldable pub enqueue_as :
      Bool → S → Option JobArgs → Option InsertOpts → S × (ClientError ⊎ JobInsertResult)
  unfolding insert_admitted single
  enqueue_as transactional s args opts =
      elim (build_insert_params codecs cfg.default_queue (exec.now s) args opts) [
        | inl e ↦ (s, inl e)
        | inr params ↦ let (s', r) = insert_admitted transactional s (params ∷ []) in (s', single r)
      ]

  unfoldable pub batch_as : Bool → S → List InsertRequest → S × (ClientError ⊎ List JobInsertResult)
  unfolding insert_admitted
  batch_as transactional s requests =
      elim (build_all codecs cfg.default_queue (exec.now s) requests) [
        | inl e ↦ (s, inl e)
        | inr params ↦ insert_admitted transactional s params
      ]

  unfoldable pub enqueue :
      S → Option JobArgs → Option InsertOpts → S × (ClientError ⊎ JobInsertResult)
  unfolding enqueue_as
  enqueue s args opts = enqueue_as false s args opts

  unfoldable pub enqueue_batch : S → List InsertRequest → S × (ClientError ⊎ List JobInsertResult)
  unfolding batch_as
  enqueue_batch s requests = batch_as false s requests

  abbrev pub request_with : Option InsertOpts → Option JobArgs → InsertRequest
  request_with opts args = record { args = args; opts = opts }

  -- One set of options for every item.
  unfoldable pub enqueue_many :
      S → List (Option JobArgs) → Option InsertOpts → S × (ClientError ⊎ List JobInsertResult)
  unfolding batch_as
  enqueue_many s args opts = batch_as false s (map (request_with opts) args)

-- The transactional calls go to the executor of the caller's transaction.
module _ {S : Type 0} (native_tx : Bool) (etx : Executor S) (codecs : Codecs)
    (cfg : ClientConfig S) where
  unfoldable pub enqueue_tx :
      S → Option JobArgs → Option InsertOpts → S × (ClientError ⊎ JobInsertResult)
  unfolding enqueue_as
  enqueue_tx s args opts =
      if native_tx then enqueue_as etx codecs cfg true s args opts else (s, inl unsupported)

  unfoldable pub enqueue_batch_tx :
      S → List InsertRequest → S × (ClientError ⊎ List JobInsertResult)
  unfolding batch_as
  enqueue_batch_tx s requests =
      if native_tx then batch_as etx codecs cfg true s requests else (s, inl unsupported)

  unfoldable pub enqueue_many_tx :
      S → List (Option JobArgs) → Option InsertOpts → S × (ClientError ⊎ List JobInsertResult)
  unfolding batch_as
  enqueue_many_tx s args opts =
      if native_tx
      then batch_as etx codecs cfg true s (map (λ a. record { args = a; opts = opts }) args)
      else (s, inl unsupported)
