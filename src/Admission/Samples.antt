-- ===== src/Admission/Samples.antt =====
-- Tests and witnesses of the DEX availability tasks.
use pump_research.Prelude.{
  ◌≡◌, refl, sym, ◌≢◌, arith, List, [], ◌∷◌, some, ok, err, false, All, select,
}
use pump_research.Prelude.Sorting.{sort_by, insert_by}
use pump_research.Scheduler.Rows.{same_option}
use pump_research.Admission.{
  new, DexAvailabilityTask, DexAvailabilityClaim, lease_not_owned, task_not_found, is_pending,
  task_of, pending_task, create_pending_if_absent, is_unleased, is_claimable, check_before,
  due_tasks, task_in, leased, update_tasks, claim_of, claim_due, listed, is_owned, completed,
  complete, complete_with_retry, get,
}
use pump_research.Admission.Steps.{Reach, creates, claims, completes, empty, later, Step-new_kept}
use pump_research.Admission.Leases.{claim_due-disjoint}

-- Two tasks, created by the admission of two tokens.
abbrev two_tasks : List DexAvailabilityTask
two_tasks = pending_task 1 7 70 100 ∷ pending_task 2 7 71 90 ∷ []

created : (create_pending_if_absent 2 7 71 90 (pending_task 1 7 70 100 ∷ [])).1 ≡ two_tasks
unfolding create_pending_if_absent pending_task task_of
created = refl

not_created_twice :
    create_pending_if_absent 1 7 70 500 two_tasks ≡ ((pending_task 1 7 70 100, false), two_tasks)
unfolding create_pending_if_absent pending_task task_of
not_created_twice = refl

-- The earliest check is claimed first.
abbrev first_claim :
    (r : List DexAvailabilityClaim × List DexAvailabilityTask) × (claim_due 9 100 1 60 two_tasks
      ≡ ok r)
unfolding claim_due due_tasks select is_claimable is_pending is_unleased sort_by insert_by
    check_before task_in leased update_tasks claim_of pending_task
first_claim = (_, refl)

abbrev second_claim :
    (r : List DexAvailabilityClaim × List DexAvailabilityTask) × (claim_due 10 120 5 60
        first_claim.0.1
      ≡ ok r)
unfolding claim_due due_tasks select is_claimable is_pending is_unleased sort_by insert_by
    check_before task_in leased update_tasks claim_of pending_task first_claim
second_claim = (_, refl)

abbrev admission :
    (r : List DexAvailabilityTask × List DexAvailabilityTask) × (complete
        (2 ∷ [])
        9
        130
        new
        130
        first_claim.0.1
      ≡ ok r)
unfolding claim_due due_tasks select is_claimable is_pending is_unleased sort_by insert_by
    check_before task_in leased update_tasks claim_of pending_task first_claim complete is_owned
    listed same_option completed
admission = (_, refl)

-- A worker whose lease was taken over completes nothing.
lost_lease : complete_with_retry (2 ∷ []) 8 130 200 first_claim.0.1 ≡ err lease_not_owned
unfolding claim_due due_tasks select is_claimable is_pending is_unleased sort_by insert_by
    check_before task_in leased update_tasks claim_of pending_task first_claim complete is_owned
    listed same_option completed complete_with_retry
lost_lease = refl

no_task : get 5 two_tasks ≡ err task_not_found
unfolding get task_of pending_task
no_task = refl

Reach-admission : Reach admission.0.1
unfolding create_pending_if_absent task_of
Reach-admission =
    later
      (later (later (later empty (creates 1 7 70 100 refl)) (creates 2 7 71 90 (sym created)))
        (claims 9 100 1 60 first_claim.0.0 first_claim.1))
      (completes (2 ∷ []) 9 130 new 130 admission.0.0 admission.1)

abbrev admitted : (t : DexAvailabilityTask) × (task_of 2 admission.0.1 ≡ some t)
unfolding task_of admission
admitted = (_, refl)

Step-new_kept_example :
    task_of 2 (create_pending_if_absent 2 7 71 900 admission.0.1).1 ≡ some admitted.0
unfolding admitted
Step-new_kept_example =
    Step-new_kept Reach-admission (creates 2 7 71 900 refl) 2 admitted.0 admitted.1 refl

claim_due-disjoint_example :
    All (λ c. All (λ c'. c.token_id ≢ c'.token_id) second_claim.0.0) first_claim.0.0
claim_due-disjoint_example =
    claim_due-disjoint 9 100 1 60 10 120 5 60 two_tasks first_claim.0.0 second_claim.0.0
      first_claim.0.1 second_claim.0.1 first_claim.1 (omega arith) second_claim.1
