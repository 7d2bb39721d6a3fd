-- ===== src/Scheduler/Planning/Readback.antt =====
-- What `_persist_capacity_decision` of src/pump_research/scheduling/scheduler.py leaves stored.
use pump_research.Prelude.{
  ◌≡◌, inl, inr, refl, sym, ap, ◌∙◌, true, List, [], ◌∷◌, ok, arith, if-eq-cases, ==_refl,
  select as where_,
}
use pump_research.Scheduler.Decisions.{persist_coverage_policy}
use pump_research.Scheduler.Decisions.Recording.{persist_coverage_policy_idempotent}
use pump_research.Capacity.{CapacityMode}
use pump_research.Scheduler.Planning.{
  StoredDecision, PlanningTables, same_mode, same_stored, same_identity, insert_stored, is_readback,
  persist_row,
}

same_mode→eq : (a b : CapacityMode) → same_mode a b ≡ true → a ≡ b
unfolding same_mode
same_mode→eq a b h = ground arith

same_stored→eq : (a b : StoredDecision) → same_stored a b ≡ true → a ≡ b
unfolding same_stored
same_stored→eq a b h =
    let mode = same_mode→eq a.capacity_mode b.capacity_mode (ground arith) in ground (arith, mode)

same_stored_refl : (d : StoredDecision) → same_stored d d ≡ true
unfolding same_stored same_mode
same_stored_refl d = ground arith

same_identity_refl : (d : StoredDecision) → same_identity d d ≡ true
unfolding same_identity
same_identity_refl d = rw (==_refl d.id) refl

-- A readback that is accepted found the row alone.
readback-eq :
    (d : StoredDecision) (es : List StoredDecision) → is_readback d es ≡ true → es ≡ d ∷ []
unfolding is_readback
readback-eq d [] h = cc
readback-eq d (e ∷ []) h = ap (λ x. x ∷ []) (same_stored→eq e d h)
readback-eq d (e ∷ f ∷ es) h = cc

insert_stored-found :
    (d e : StoredDecision) (es rest : List StoredDecision)
    → where_ (same_identity d) es ≡ e ∷ rest
    → insert_stored d es ≡ es
unfolding where_ insert_stored
insert_stored-found d e [] rest h = cc
insert_stored-found d e (x ∷ xs) rest h = elim (if-eq-cases (same_identity d x) h) [
  | inl (found, _) ↦ rw found refl
  | inr (other, k) ↦ rw (other, insert_stored-found d e xs rest k) refl
]

pub persist_row-stored :
    (d : StoredDecision) (t : PlanningTables) {t' : PlanningTables}
    → persist_row d t ≡ ok t'
    → (where_ (same_identity d) t'.capacity_decisions ≡ d ∷ [])
      × (t'.scheduler_policies ≡ persist_coverage_policy d.policy_sha256 t.scheduler_policies)
unfolding persist_row
persist_row-stored d t {t'} h =
    elim (if-eq-cases
      (is_readback d (where_ (same_identity d) (insert_stored d t.capacity_decisions))) h) [
        | inl (found, k) ↦
            let rows : insert_stored d t.capacity_decisions ≡ t'.capacity_decisions =
              ground arith in
            (ap (where_ (same_identity d)) (sym rows) ∙ readback-eq d _ found, ground arith)
        | inr (_, k) ↦ cc
      ]

-- A row that is stored is stored again with no change.
pub persist_row_idempotent :
    (d : StoredDecision) (t : PlanningTables) {t' : PlanningTables}
    → persist_row d t ≡ ok t'
    → persist_row d t' ≡ ok t'
unfolding persist_row is_readback
persist_row_idempotent d t {t'} h =
    let (stored, policies) = persist_row-stored d t h in
    let rows = insert_stored-found d d t'.capacity_decisions [] stored in
    let accepted : is_readback d (where_ (same_identity d) (insert_stored d t'.capacity_decisions))
        ≡ true =
      ap (λ xs. is_readback d (where_ (same_identity d) xs)) rows
      ∙ ap (is_readback d) stored
      ∙ same_stored_refl d in
    let same_policies : persist_coverage_policy d.policy_sha256 t'.scheduler_policies
        ≡ t'.scheduler_policies =
      ap (persist_coverage_policy d.policy_sha256) policies
      ∙ persist_coverage_policy_idempotent d.policy_sha256 t.scheduler_policies
      ∙ sym policies in
    rw (accepted, rows, same_policies) refl
