-- ===== src/Candidates/Wakeups.antt =====
-- src/pump_research/candidates/policy.py: the budget projection and the boost wake-ups.
use pump_research.Prelude.{
  ℕ, zero, suc, ◌+◌, ◌≤◌, ◌≡◌, refl, min, Bool, true, List, [], ◌∷◌, ok, All, All-Mem, All-map_imp,
  All-take, arith, length, take, select as where_, ap, ◌∙◌, subst,
}
use mathlib.Core.List.{Mem}
use pump_research.Prelude.Int.{pos}
use pump_research.Prelude.Sorting.{
  IsTotalOrder, IsOrdered, sort_by, sort_by-IsOrdered, length-sort_by, All-query,
}
use pump_research.Prelude.Text.{text_leb-total, text_leb_trans}
use pump_research.Candidates.{CandidateEvidence, CandidatePolicy, EvidenceError, negative_budget}
use pump_research.Prelude.{◌-◌, false, none, some, Result, err, ltb, if◌then◌else◌, is_some}
use pump_research.Prelude.Int.{negsuc, ℤ}
use pump_research.Prelude.Text.{Text, text_leb}

pub record BudgetProjection : Type 0 where
  pub requested_candidate_tasks_per_minute : ℕ
  pub admitted_candidate_tasks_per_minute : ℕ
  pub deferred_candidate_tasks_per_minute : ℕ
  pub core_requests_displaced_per_minute : ℕ

unfoldable pub budget_projection :
    CandidatePolicy → (requested_tasks_per_minute : ℕ) → BudgetProjection
budget_projection p requested = record {
  requested_candidate_tasks_per_minute = requested;
  admitted_candidate_tasks_per_minute = min requested p.tasks_per_minute;
  deferred_candidate_tasks_per_minute = requested - min requested p.tasks_per_minute;
  core_requests_displaced_per_minute = 0;
}

abbrev wake_time : CandidateEvidence → ℕ
wake_time e = elim (e.boost_received_at) [ none ↦ e.watermark | some at ↦ at ]

abbrev pub event_or_empty : CandidateEvidence → Text
event_or_empty e = elim (e.boost_event_id) [ none ↦ [] | some id ↦ id ]

abbrev text_before : Text → Text → Bool → Bool
text_before a b rest = if text_leb a b then if text_leb b a then rest else true else false

-- The order of the keys of `sorted`.
unfoldable pub wakeup_before : CandidateEvidence → CandidateEvidence → Bool
wakeup_before a b =
    if ltb (wake_time a) (wake_time b)
    then true
    else if ltb (wake_time b) (wake_time a)
    then false
    else text_before (event_or_empty a) (event_or_empty b) (text_leb a.token_id b.token_id)

abbrev pub has_boost : CandidateEvidence → Bool
has_boost e = is_some e.boost_event_id

unfoldable pub select_boost_wakeups :
    List CandidateEvidence → (budget : ℤ) → Result EvidenceError (List CandidateEvidence)
select_boost_wakeups evidence (negsuc n) = err negative_budget
select_boost_wakeups evidence (pos n) =
    ok (take n (sort_by wakeup_before (where_ has_boost evidence)))

-- Candidate work is admitted up to its own budget, the rest is deferred, and none of it takes a
-- request of the core.
pub budget_projection-sum :
    (p : CandidatePolicy) (requested : ℕ)
    → ((budget_projection p requested).admitted_candidate_tasks_per_minute
          + (budget_projection p requested).deferred_candidate_tasks_per_minute
        ≡ requested)
      × ((budget_projection p requested).admitted_candidate_tasks_per_minute ≤ p.tasks_per_minute)
      × ((budget_projection p requested).core_requests_displaced_per_minute ≡ 0)
unfolding budget_projection
budget_projection-sum p requested = (omega arith, omega arith, refl)

wakeup_before-IsTotalOrder : IsTotalOrder wakeup_before
unfolding wakeup_before
wakeup_before-IsTotalOrder = record {
  total = λ a b h. ground (
    arith,
    text_leb-total (event_or_empty a) (event_or_empty b),
    text_leb-total a.token_id b.token_id,
  );
  before_trans = λ a b c h k. ground (
    arith,
    text_leb_trans (event_or_empty a) (event_or_empty b) (event_or_empty c),
    text_leb_trans (event_or_empty b) (event_or_empty c) (event_or_empty a),
    text_leb_trans (event_or_empty c) (event_or_empty a) (event_or_empty b),
    text_leb_trans a.token_id b.token_id c.token_id,
  );
}

length-take : {A : Type 0} (n : ℕ) (xs : List A) → length (take n xs) ≡ min n (length xs)
length-take zero xs = omega arith
length-take (suc n) [] = omega arith
length-take (suc n) (x ∷ xs) = let rest = length-take n xs in omega arith

IsOrdered-take :
    {A : Type 0} (before : A → A → Bool) (n : ℕ) (xs : List A)
    → IsOrdered before xs
    → IsOrdered before (take n xs)
IsOrdered-take before zero xs h = tt
IsOrdered-take before (suc n) [] h = tt
IsOrdered-take before (suc n) (x ∷ xs) h =
    (All-take (λ y. before x y ≡ true) n xs h.0, IsOrdered-take before n xs h.1)

-- The wake-ups are pieces of the evidence that have a boost, as many as the budget allows, the
-- earliest first.
pub select_boost_wakeups-chosen :
    (evidence : List CandidateEvidence) (n : ℕ) {chosen : List CandidateEvidence}
    → select_boost_wakeups evidence (pos n) ≡ ok chosen
    → (length chosen ≡ min n (length (where_ has_boost evidence)))
      × All (λ c. Mem c evidence × (has_boost c ≡ true)) chosen
      × IsOrdered wakeup_before chosen
unfolding select_boost_wakeups
select_boost_wakeups-chosen evidence n {chosen} h =
    let due = where_ has_boost evidence in
    let same : take n (sort_by wakeup_before due) ≡ chosen = ground arith in
    subst
      (λ cs.
        (length cs ≡ min n (length due))
        × All (λ c. Mem c evidence × (has_boost c ≡ true)) cs
        × IsOrdered wakeup_before cs)
      same
      (
        length-take n (sort_by wakeup_before due)
            ∙ ap (λ m. min n m) (length-sort_by wakeup_before due),
        All-query wakeup_before (λ c. Mem c evidence × (has_boost c ≡ true)) n has_boost evidence
            (All-map_imp evidence (λ c m k. (m, k)) (All-Mem evidence)),
        IsOrdered-take wakeup_before n (sort_by wakeup_before due)
            (sort_by-IsOrdered wakeup_before wakeup_before-IsTotalOrder due),
      )
