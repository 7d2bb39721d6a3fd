-- ===== src/Admission/Leases.antt =====
-- The leases of src/pump_research/persistence/repositories.py: two claims within a lease share no
-- token.
use mathlib.Core.List.{Mem}
use pump_research.Prelude.{
  All-map, ℕ, ◌+◌, ◌<◌, ◌≡◌, ◌≢◌, refl, sym, ap, ◌∙◌, subst, true, false, some, List, [], ◌∷◌, ok,
  All, All-Mem, All-map_imp, All-both, arith, ◌==◌, ==_refl, map,
}
use pump_research.Admission.{
  DexAvailabilityTask, DexAvailabilityClaim, is_unleased, is_claimable, due_tasks, task_in, leased,
  update_tasks, claim_of, claim_due,
}
use pump_research.Admission.Keys.{
  update_tasks-All, claim_due-tables, due_tasks-claimable, due_tasks-All,
}

-- The rows of a token are leased until a time.
abbrev IsHeld : (token_id expires : ℕ) → DexAvailabilityTask → Type 0
IsHeld token_id expires t =
    t.token_id ≡ token_id
    → (lease : ℕ) × (t.lease_id ≡ some lease) × (t.lease_expires_at ≡ some expires)

task_in-true :
    (rows : List DexAvailabilityTask) (t : DexAvailabilityTask) (id : ℕ)
    → task_in rows t ≡ false
    → t.token_id ≡ id
    → All (λ r. r.token_id ≢ id) rows
unfolding task_in
task_in-true [] t id h e = tt
task_in-true (r ∷ rs) t id h e = (
  λ same.
      let own : (r.token_id == t.token_id) ≡ true =
        ap (λ n. n == t.token_id) (same ∙ sym e) ∙ ==_refl t.token_id in
      ground arith,
  task_in-true rs t id (ground arith) e,
)

module _ (lease_id expires now : ℕ) (rows : List DexAvailabilityTask) where
  -- After the claim of the rows, the rows of a claimed token are held.
  held :
      (id : ℕ)
      → ¬ All (λ r. r.token_id ≢ id) rows
      → (ts : List DexAvailabilityTask)
      → All (IsHeld id expires) (update_tasks (task_in rows) (leased lease_id expires now) ts)
  unfolding leased
  held id claimed ts =
      update_tasks-All (λ t. Mem t ts) (IsHeld id expires) (task_in rows)
        (leased lease_id expires now) ts (λ t _ _ _. (lease_id, refl, refl))
        (λ t _ out e. absurd (claimed (task_in-true rows t id out e))) (All-Mem ts)

-- A held row is not claimable before its lease expires.
held-unclaimable :
    (id expires now : ℕ) (t : DexAvailabilityTask)
    → now < expires
    → is_claimable now t ≡ true
    → IsHeld id expires t
    → t.token_id ≢ id
unfolding is_claimable is_unleased
held-unclaimable id expires now t early claimable held e =
    let (lease, holder, until) = held e in ground arith

each_claimed :
    (rows : List DexAvailabilityTask) → All (λ d. ¬ All (λ r. r.token_id ≢ d.token_id) rows) rows
each_claimed [] = tt
each_claimed (r ∷ rs) = (λ h. h.0 refl, All-map_imp rs (λ d no h. no h.1) (each_claimed rs))

claims-differ :
    (lease_id lease_id' : ℕ) (rows rows' : List DexAvailabilityTask)
    → All (λ r. All (λ r'. r.token_id ≢ r'.token_id) rows') rows
    → All
        (λ c. All (λ c'. c.token_id ≢ c'.token_id) (map (claim_of lease_id') rows'))
        (map (claim_of lease_id) rows)
unfolding claim_of
claims-differ lease_id lease_id' rows rows' h =
    All-map (λ c. All (λ c'. c.token_id ≢ c'.token_id) (map (claim_of lease_id') rows'))
      (claim_of lease_id) rows
      (All-map_imp rows
        (λ r apart. All-map (λ c'. r.token_id ≢ c'.token_id) (claim_of lease_id') rows' apart) h)

-- A batch of tasks that is claimed is leased to its holder alone: a second claim that is made
-- before the leases of the first one expire shares no token with it.
pub claim_due-disjoint :
    (lease_id now limit lease_duration lease_id' now' limit' lease_duration' : ℕ)
    (ts : List DexAvailabilityTask) (cs cs' : List DexAvailabilityClaim)
    (ts' ts'' : List DexAvailabilityTask)
    → claim_due lease_id now limit lease_duration ts ≡ ok (cs, ts')
    → now' < now + lease_duration
    → claim_due lease_id' now' limit' lease_duration' ts' ≡ ok (cs', ts'')
    → All (λ c. All (λ c'. c.token_id ≢ c'.token_id) cs') cs
claim_due-disjoint lease_id now limit lease_duration lease_id' now' limit' lease_duration' ts cs cs'
      ts' ts'' first early second =
    let rows = due_tasks now limit ts in
    let rows' = due_tasks now' limit' ts' in
    let expires = now + lease_duration in
    let (same, table) = claim_due-tables lease_id now limit lease_duration ts first in
    let (same', _) = claim_due-tables lease_id' now' limit' lease_duration' ts' second in
    let apart : All (λ r. All (λ r'. r.token_id ≢ r'.token_id) rows') rows =
      All-map_imp rows
        (λ r claimed.
          All-both (λ r'. is_claimable now' r' ≡ true) (IsHeld r.token_id expires)
            (λ r'. r.token_id ≢ r'.token_id)
            (λ r' claimable leased e.
              held-unclaimable r.token_id expires now' r' early claimable leased (sym e))
            rows' (due_tasks-claimable now' limit' ts')
            (due_tasks-All (IsHeld r.token_id expires) now' limit' ts' (
              subst (All (IsHeld r.token_id expires)) (sym table)
                (held lease_id expires now rows r.token_id claimed ts))))
        (each_claimed rows) in
    subst (λ xs. All (λ c. All (λ c'. c.token_id ≢ c'.token_id) cs') xs) (sym same)
      (subst
        (λ xs. All (λ c. All (λ c'. c.token_id ≢ c'.token_id) xs) (map (claim_of lease_id) rows))
        (sym same') (claims-differ lease_id lease_id' rows rows' apart))
