-- ===== src/Client/Batch.antt =====
-- client.go: what the inserts of a batch are, and that a batch that is refused before the storage
-- changes nothing.
use goncordia.Prelude.{
  Sum-cases, suc, ◌≡◌, refl, sym, ap, subst, ◌∙◌, ◌⊎◌, inl, inr, ℤ, negative, positive, Bool, false,
  Bool-cases, Option-cases, if◌then◌else◌, String, ◌=s=◌, Option, none, some, List, [], ◌∷◌, length,
  All, arith,
}
use goncordia.Time.{Time}
use goncordia.Driver.{JobInsertParams, JobInsertResult, Error, Result-cases, ok, err}
use goncordia.Driver.Executor.{Executor}
use goncordia.Core.{JobArgs, InsertOpts}
use goncordia.Core.Payload.{encode_payload}
use goncordia.Client.{
  Codecs, ClientConfig, ClientError, storage, InsertRequest, build_insert_params, build_all,
  check_opts, with_opts, encoded, params_with, plain_params, type_version, build_unique_key,
  is_negative, or_zero,
}
use goncordia.Client.Enqueue.{batch_as, insert_admitted, admit}

-- What storage relies on.
abbrev pub IsValid : JobInsertParams → Type 0
IsValid p =
    ((p.kind =s= "") ≡ false) × (negative p.max_retry ≡ false) × (negative p.timeout ≡ false)

encoded-IsValid :
    (codecs : Codecs) (json : String) (version : ℤ) (params : String → JobInsertParams)
    (p : JobInsertParams)
    → ((text : String) → IsValid (params text))
    → encoded codecs json version params ≡ inr p
    → IsValid p
unfolding encoded
encoded-IsValid codecs json version params p valid e =
    elim (Option-cases (encode_payload codecs.envelope json version)) [
      | inl x ↦ absurd (ground (arith, x))
      | inr (text, x) ↦
          let same : params text ≡ p = ground (arith, x) in subst IsValid same (valid text)
    ]

params_with-IsValid :
    (opts : InsertOpts) (queue kind key text : String)
    → (kind =s= "") ≡ false
    → check_opts opts ≡ none
    → IsValid (params_with opts queue kind key text)
unfolding check_opts params_with
params_with-IsValid opts queue kind key text set passed =
    (set, sign opts.max_retry (ground arith), sign opts.timeout (ground arith))
  where
    sign : (n : Option ℤ) → is_negative n ≡ false → negative (or_zero n) ≡ false
    sign none h = refl
    sign (some n) h = h

with_opts-IsValid :
    (codecs : Codecs) (queue : String) (now : Time) (args : JobArgs) (json : String) (version : ℤ)
    (opts : InsertOpts) (p : JobInsertParams)
    → (args.kind =s= "") ≡ false
    → with_opts codecs queue now args json version opts ≡ inr p
    → IsValid p
unfolding with_opts
with_opts-IsValid codecs queue now args json version opts p set e =
    elim (Option-cases (check_opts opts)) [
      | inr (x, refused) ↦ absurd (ground (arith, refused))
      | inl passed ↦
          let queue' = if opts.queue =s= "" then queue else opts.queue in
          elim (Sum-cases (build_unique_key codecs args queue' opts.unique_opts now)) [
            | inl (x, broken) ↦ absurd (ground (arith, passed, broken))
            | inr (key, made) ↦
                encoded-IsValid codecs json
                  (if positive opts.payload_version then opts.payload_version else version)
                  (params_with opts queue' args.kind key) p
                  (λ text. params_with-IsValid opts queue' args.kind key text set passed)
                  (sym (rw (passed, with_opts, made) refl) ∙ e)
          ]
    ]

build_insert_params-IsValid :
    (codecs : Codecs) (queue : String) (now : Time) (args : Option JobArgs)
    (opts : Option InsertOpts) (p : JobInsertParams)
    → build_insert_params codecs queue now args opts ≡ inr p
    → IsValid p
unfolding build_insert_params plain_params
build_insert_params-IsValid codecs queue now none opts p e = cc
build_insert_params-IsValid codecs queue now (some args) opts p e =
    elim (Bool-cases (args.kind =s= "")) [
      | inl empty ↦ absurd (ground (arith, empty))
      | inr set ↦ elim (Option-cases args.json) [
        | inl broken ↦ absurd (ground (arith, set, broken))
        | inr (json, shown) ↦ elim (Sum-cases (type_version args)) [
          | inl (x, bad) ↦ absurd (ground (arith, set, shown, bad))
          | inr (version, known) ↦ elim (Option-cases opts) [
            | inl absent ↦
                encoded-IsValid codecs json version (plain_params queue args.kind) p
                  (λ text. (set, refl, refl))
                  (sym (rw (set, build_insert_params, shown, known, absent) refl) ∙ e)
            | inr (o, given) ↦
                with_opts-IsValid codecs queue now args json version o p set
                  (ground (arith, set, shown, known, given))
          ]
        ]
      ]
    ]

-- Where a batch can be built, there is one insert for each request, and each has a kind and no
-- negative number of retries or timeout.
pub build_all-IsValid :
    (codecs : Codecs) (queue : String) (now : Time) (requests : List InsertRequest)
    (params : List JobInsertParams)
    → build_all codecs queue now requests ≡ inr params
    → (length params ≡ length requests) × All IsValid params
unfolding build_all
build_all-IsValid codecs queue now [] params e =
    let nothing : [] ≡ params = cc e in subst Whole nothing (refl, tt)
  where
    Whole : List JobInsertParams → Type 0
    Whole ps = (length ps ≡ 0) × All IsValid ps
build_all-IsValid codecs queue now (r ∷ rs) params e =
    elim (Sum-cases (build_insert_params codecs queue now r.args r.opts)) [
      | inl (x, bad) ↦ absurd (ground (arith, bad))
      | inr (p, made) ↦ elim (Sum-cases (build_all codecs queue now rs)) [
        | inl (x, bad) ↦ absurd (ground (arith, made, bad))
        | inr (ps, more) ↦
            let (same_length, valid) = build_all-IsValid codecs queue now rs ps more in
            let whole : p ∷ ps ≡ params = ground (arith, made, more) in
            subst (λ qs. (length qs ≡ suc (length rs)) × All IsValid qs) whole
              (
                ap suc same_length,
                (build_insert_params-IsValid codecs queue now r.args r.opts p made, valid),
              )
      ]
    ]

-- The storage was not called, for the error with which the batch could not be built or was not admitted,
-- or it was given the whole batch once.
abbrev pub IsWhole :
    {S : Type 0}
    → Executor S
    → Codecs
    → ClientConfig S
    → Bool
    → S
    → List InsertRequest
    → S × (ClientError ⊎ List JobInsertResult)
    → Type 0
IsWhole exec codecs cfg transactional s requests (s', outcome) =
    ((s' ≡ s)
      × (e : ClientError) × (outcome ≡ inl e)
      × ((build_all codecs cfg.default_queue (exec.now s) requests ≡ inl e)
          ⊎ ((params : List JobInsertParams) × (build_all codecs cfg.default_queue (exec.now s)
                  requests
                ≡ inr params)
              × (admit exec codecs cfg s params transactional ≡ some e))))
    ⊎ ((params : List JobInsertParams) × (build_all codecs cfg.default_queue (exec.now s) requests
          ≡ inr params)
        × (admit exec codecs cfg s params transactional ≡ none)
        × (s' ≡ (exec.job_insert_many s params).0)
        × (((results : List JobInsertResult) × ((exec.job_insert_many s params).1 ≡ ok results)
              × (outcome ≡ inr results))
            ⊎ ((e : Error) × ((exec.job_insert_many s params).1 ≡ err e)
                × (outcome ≡ inl (storage e)))))

-- A batch that is refused leaves the storage as it was, and its error is the one with which it could not
-- be built or was not admitted; any other is built and admitted, goes to one insert as built, and
-- gives the insert's results or its error.
pub batch_as-IsWhole :
    {S : Type 0} (exec : Executor S) (codecs : Codecs) (cfg : ClientConfig S) (transactional : Bool)
    (s : S) (requests : List InsertRequest)
    → IsWhole exec codecs cfg transactional s requests
        (batch_as exec codecs cfg transactional s requests)
unfolding batch_as
batch_as-IsWhole exec codecs cfg transactional s requests =
    elim (Sum-cases (build_all codecs cfg.default_queue (exec.now s) requests)) [
      | inl (e, bad) ↦ rw (bad, batch_as) (inl (refl, e, refl, inl refl))
      | inr (params, made) ↦ elim (Option-cases (admit exec codecs cfg s params transactional)) [
        | inr (e, refused) ↦
            rw (made, batch_as, insert_admitted, refused)
              (inl (refl, e, refl, inr (params, refl, refused)))
        | inl admitted ↦ elim (Result-cases (exec.job_insert_many s params).1) [
          | inl (e, failed) ↦
              rw (made, batch_as, insert_admitted, admitted, failed)
                (inr (params, refl, admitted, refl, inr (e, failed, refl)))
          | inr (results, done) ↦
              rw (made, batch_as, insert_admitted, admitted, done)
                (inr (params, refl, admitted, refl, inl (results, done, refl)))
        ]
      ]
    ]
