-- ===== src/Maintenance/Bulk.antt =====
-- maintenance.go, `bulk`: each job is acted on once, and each item is accounted for.
use goncordia.Prelude.{
  ℕ, ◌≡◌, refl, sym, ap, subst, inl, inr, Bool, true, false, not, ◌&&◌, Bool-cases, String, ◌=s=◌,
  eq_iff, List, [], ◌∷◌, map, keep, length, arith,
}
use goncordia.Driver.{Error, Result, ok, err, Result-cases}
use goncordia.Maintenance.{
  BulkResult, BulkFailure, empty_id, action_failed, seen_before, bulk_from, bulk, succeed, fail,
}

abbrev pub is_set : String → Bool
is_set id = not (id =s= "")

abbrev is_new : List String → String → Bool
is_new seen id = not (seen_before id seen)

-- Each text of a list where it first stands.
unfoldable pub first_of : List String → List String
first_of [] = []
first_of (id ∷ ids) = id ∷ keep (λ other. not (other =s= id)) (first_of ids)

keep-keep :
    (p q r : String → Bool)
    → ((id : String) → r id ≡ (p id && q id))
    → (ids : List String) → keep p (keep q ids) ≡ keep r ids
keep-keep p q r both [] = refl
keep-keep p q r both (id ∷ ids) = ground (arith, both id, keep-keep p q r both ids)

-- What is new, of the texts of a list whose first is seen or new.
targets : List String → List String → List String
targets seen ids = keep (is_new seen) (first_of (keep is_set ids))

targets-nil : (seen : List String) → targets seen [] ≡ []
unfolding targets first_of
targets-nil seen = refl

keep-new : (ids : List String) → keep (is_new []) ids ≡ ids
unfolding seen_before
keep-new [] = refl
keep-new (id ∷ ids) = ap (λ rest. id ∷ rest) (keep-new ids)

targets-all : (ids : List String) → targets [] ids ≡ first_of (keep is_set ids)
unfolding targets
targets-all ids = keep-new (first_of (keep is_set ids))

targets-empty :
    (seen : List String) (id : String) (ids : List String)
    → (id =s= "") ≡ true
    → targets seen (id ∷ ids) ≡ targets seen ids
unfolding targets
targets-empty seen id ids empty = rw empty refl

targets-seen :
    (seen : List String) (id : String) (ids : List String)
    → (id =s= "") ≡ false
    → seen_before id seen ≡ true
    → targets seen (id ∷ ids) ≡ targets seen ids
unfolding targets first_of
targets-seen seen id ids set again =
    rw (set, again)
      (keep-keep (is_new seen) (λ other. not (other =s= id)) (is_new seen)
        (λ other. ground (arith, eq_iff other id, again)) (first_of (keep is_set ids)))

targets-new :
    (seen : List String) (id : String) (ids : List String)
    → (id =s= "") ≡ false
    → seen_before id seen ≡ false
    → targets seen (id ∷ ids) ≡ id ∷ targets (id ∷ seen) ids
unfolding targets first_of seen_before
targets-new seen id ids set new =
    rw (set, new)
      (ap (λ rest. id ∷ rest)
        (keep-keep (is_new seen) (λ other. not (other =s= id)) (is_new (id ∷ seen))
          (λ other. ground (arith, eq_iff other id, eq_iff id other)) (first_of (keep is_set ids))))

-- The jobs of the outcomes that are a success.
unfoldable pub succeeded_of : List (String × Result (Unit {0})) → List String
succeeded_of [] = []
succeeded_of ((id, ok _) ∷ outcomes) = id ∷ succeeded_of outcomes
succeeded_of ((id, err _) ∷ outcomes) = succeeded_of outcomes

-- The failures of the outcomes, each with its job and its error.
unfoldable pub failed_of : List (String × Result (Unit {0})) → List BulkFailure
failed_of [] = []
failed_of ((id, ok _) ∷ outcomes) = failed_of outcomes
failed_of ((id, err e) ∷ outcomes) =
    record { id = id; error = action_failed e } ∷ failed_of outcomes

abbrev pub empty_failure : BulkFailure
empty_failure = record { id = ""; error = empty_id }

module _ {S : Type 0} (action : S → String → S × Result (Unit {0})) where
  -- The action on one job after another, and its outcomes.
  unfoldable pub each : List String → S → S × List (String × Result (Unit {0}))
  each [] s = (s, [])
  each (id ∷ ids) s =
      let (s', outcome) = action s id in
      let (s'', outcomes) = each ids s' in (s'', (id, outcome) ∷ outcomes)

  -- The state is that of the action on the jobs; the outcomes of the action are the successes and the
  -- failures with a job, and every empty ID is a failure.
  abbrev pub IsReport : List String → List String → S → S × BulkResult × Bool → Type 0
  IsReport jobs ids s (s', result, done) =
      (s' ≡ (each jobs s).0)
      × (result.succeeded ≡ succeeded_of (each jobs s).1)
      × (keep (λ f. is_set f.id) result.failed ≡ failed_of (each jobs s).1)
      × (keep (λ (f : BulkFailure). not (is_set f.id)) result.failed
          ≡ map (λ id. empty_failure) (keep (λ id. not (is_set id)) ids))
      × (done ≡ false)

  -- An item that is no job leaves the jobs, and an empty ID is reported.
  IsReport-skip :
      (jobs ids : List String) (id : String) (s : S) (x : S × BulkResult × Bool)
      → (id =s= "") ≡ false
      → IsReport jobs ids s x
      → IsReport jobs (id ∷ ids) s x
  IsReport-skip jobs ids id s x set (state, succeeded, failed, empties, over) =
      (state, succeeded, failed, rw set empties, over)

  IsReport-empty :
      (jobs ids : List String) (id : String) (s : S) (x : S × BulkResult × Bool)
      → (id =s= "") ≡ true
      → IsReport jobs ids s x
      → IsReport jobs (id ∷ ids) s (x.0, fail "" empty_id x.1, x.2)
  IsReport-empty jobs ids id s x empty (state, succeeded, failed, empties, over) =
      (state, succeeded, failed, rw empty (ap (λ fs. empty_failure ∷ fs) empties), over)

  IsReport-failed :
      (jobs ids : List String) (id : String) (s : S) (x : S × BulkResult × Bool) (e : Error)
      → (id =s= "") ≡ false
      → (action s id).1 ≡ err e
      → IsReport jobs ids (action s id).0 x
      → IsReport (id ∷ jobs) (id ∷ ids) s (x.0, fail id (action_failed e) x.1, x.2)
  unfolding each succeeded_of failed_of
  IsReport-failed jobs ids id s x e set bad (state, succeeded, failed, empties, over) = (
    state,
    rw bad succeeded,
    rw (set, bad) (ap (λ fs. record { id = id; error = action_failed e } ∷ fs) failed),
    rw set empties,
    over,
  )

  IsReport-done :
      (jobs ids : List String) (id : String) (s : S) (x : S × BulkResult × Bool) (u : Unit {0})
      → (id =s= "") ≡ false
      → (action s id).1 ≡ ok u
      → IsReport jobs ids (action s id).0 x
      → IsReport (id ∷ jobs) (id ∷ ids) s (x.0, succeed id x.1, x.2)
  unfolding each succeeded_of failed_of
  IsReport-done jobs ids id s x u set good (state, succeeded, failed, empties, over) =
      (state, rw good (ap (λ done. id ∷ done) succeeded), rw good failed, rw set empties, over)

  module _ (is_done : ℕ → Bool) (going : (n : ℕ) → is_done n ≡ false) where
    bulk_from-IsReport :
        (seen ids : List String) (s : S)
        → IsReport (targets seen ids) ids s (bulk_from action is_done seen ids s)
    unfolding bulk_from each succeeded_of failed_of
    bulk_from-IsReport seen [] s = rw (targets-nil seen) (refl, refl, refl, refl, refl)
    bulk_from-IsReport seen (id ∷ ids) s =
        let skip = bulk_from-IsReport seen ids s in
        let x = bulk_from action is_done seen ids s in
        let next = bulk_from-IsReport (id ∷ seen) ids (action s id).0 in
        let x' = bulk_from action is_done (id ∷ seen) ids (action s id).0 in
        elim (Bool-cases (id =s= "")) [
          | inl empty ↦
              as_report seen id ids s (x.0, fail "" empty_id x.1, x.2)
                (targets-empty seen id ids empty) (rw (going (length ids), bulk_from, empty) refl)
                (IsReport-empty (targets seen ids) ids id s x empty skip)
          | inr set ↦ elim (Bool-cases (seen_before id seen)) [
            | inl again ↦
                as_report seen id ids s x (targets-seen seen id ids set again)
                  (rw (going (length ids), bulk_from, set, again) refl)
                  (IsReport-skip (targets seen ids) ids id s x set skip)
            | inr new ↦ elim (Result-cases (action s id).1) [
              | inl (e, bad) ↦
                  as_report seen id ids s (x'.0, fail id (action_failed e) x'.1, x'.2)
                    (targets-new seen id ids set new)
                    (rw (going (length ids), bulk_from, set, new, bad) refl)
                    (IsReport-failed (targets (id ∷ seen) ids) ids id s x' e set bad next)
              | inr (u, good) ↦
                  as_report seen id ids s (x'.0, succeed id x'.1, x'.2)
                    (targets-new seen id ids set new)
                    (rw (going (length ids), bulk_from, set, new, good) refl)
                    (IsReport-done (targets (id ∷ seen) ids) ids id s x' u set good next)
            ]
          ]
        ]
      where
        as_report :
            (seen : List String) (id : String) (ids : List String) (s : S)
            (x : S × BulkResult × Bool) {jobs : List String}
            → targets seen (id ∷ ids) ≡ jobs
            → bulk_from action is_done seen (id ∷ ids) s ≡ x
            → IsReport jobs (id ∷ ids) s x
            → IsReport
                (targets seen (id ∷ ids))
                (id ∷ ids)
                s
                (bulk_from action is_done seen (id ∷ ids) s)
        as_report seen id ids s x {jobs} same made report =
            subst (λ js. IsReport js (id ∷ ids) s (bulk_from action is_done seen (id ∷ ids) s))
              (sym same) (subst (IsReport jobs (id ∷ ids) s) (sym made) report)

    -- A bulk action whose context is not done acts, one after another, on the IDs that are set, each where it
    -- first stands. It reports as succeeded, in that order, those whose action succeeded; its
    -- failures with an ID are the failed actions, in that order, with their errors; the others
    -- are one failure for each empty ID.
    pub bulk-IsReport :
        (ids : List String) (s : S)
        → IsReport (first_of (keep is_set ids)) ids s (bulk action is_done ids s)
    unfolding bulk
    bulk-IsReport ids s =
        subst (λ jobs. IsReport jobs ids s (bulk_from action is_done [] ids s)) (targets-all ids)
          (bulk_from-IsReport [] ids s)
