-- ===== src/Scheduler/Planning/Identity.antt =====
-- The identity of a capacity decision of src/pump_research/scheduling/scheduler.py.
use pump_research.Prelude.{
  ℕ, ◌≡◌, inl, inr, refl, sym, ap, ◌∙◌, true, not, Option, none, some, List, [], ◌∷◌, ok, >>=-eq-ok,
  arith, if-eq-cases, ◌==◌, ==→eq, ==_refl, select as where_,
}
use pump_research.Floats.{Floats}
use pump_research.Scheduler.Rows.{AdaptiveScheduler}
use pump_research.Scheduler.Selection.{time_bucket}
use pump_research.Capacity.Plan.{CapacityPlan}
use pump_research.Scheduler.Planning.{
  PlanningTables, same_identity, persist_row, Decision, Owner, Session, PlanningState,
  capacity_idempotency_key, row_of, persist_capacity_decision, bucket_decision, frozen,
  decide_bucket, repeat_decision, decide_owned, decide_in, capacity_decision,
}
use pump_research.Scheduler.Planning.Readback.{persist_row-stored, persist_row_idempotent}

module _ (F : Floats) (sum : List F.Float → F.Float) (snapshot : CapacityPlan F.Float → ℕ)
    (digest : (bucket policy_sha256 plan_snapshot : ℕ) → ℕ) (uuid5 : ℕ → ℕ) where
  -- The session has an owner that froze the decision, whose row is stored.
  record IsFrozen (scheduler : AdaptiveScheduler F.Float) (d : Decision F.Float)
      (s : PlanningState F.Float) : Type 0 where
    transaction : ℕ
    active : s.session.transaction ≡ some transaction
    owner : Owner F.Float
    owned : frozen transaction s.session.owner ≡ some owner
    policy : owner.policy_sha256 ≡ scheduler.sha256
    decision : owner.decision ≡ d
    before : PlanningTables
    persisted :
        persist_capacity_decision F sum snapshot digest uuid5 scheduler d before ≡ ok s.tables

  decide_bucket-IsFrozen :
      (scheduler : AdaptiveScheduler F.Float) (now transaction : ℕ) (s : PlanningState F.Float)
      {d : Decision F.Float} {s' : PlanningState F.Float}
      → decide_bucket F sum snapshot digest uuid5 scheduler now transaction s ≡ ok (d, s')
      → IsFrozen scheduler d s'
  unfolding decide_bucket frozen
  decide_bucket-IsFrozen scheduler now transaction s {d} {s'} h =
      let (c, _, k) =
        >>=-eq-ok
          (bucket_decision F sum snapshot digest uuid5 scheduler
            (time_bucket now scheduler.policy.capacity_refresh) s.cache s.tables)
          _ h in
      let (tables, e, l) =
        >>=-eq-ok (persist_capacity_decision F sum snapshot digest uuid5 scheduler c s.tables) _
          k in
      let held : Owner F.Float = record {
        transaction = transaction;
        policy_sha256 = scheduler.sha256;
        decision = c;
      } in
      let same : c ≡ d = ground arith in
      let active : some transaction ≡ s'.session.transaction = ground arith in
      let owner : some held ≡ s'.session.owner = ground arith in
      let stored : tables ≡ s'.tables = ground arith in
      record {
        transaction = transaction;
        active = sym active;
        owner = held;
        owned = ap (frozen transaction) (sym owner) ∙ rw (==_refl transaction) refl;
        policy = refl;
        decision = same;
        before = s.tables;
        persisted =
            ap (λ x. persist_capacity_decision F sum snapshot digest uuid5 scheduler x s.tables)
              (sym same)
            ∙ e
            ∙ ap ok stored;
      }

  repeat_decision-IsFrozen :
      (scheduler : AdaptiveScheduler F.Float) (transaction : ℕ) (owner : Owner F.Float)
      (s : PlanningState F.Float) {d : Decision F.Float} {s' : PlanningState F.Float}
      → s.session.transaction ≡ some transaction
      → frozen transaction s.session.owner ≡ some owner
      → repeat_decision F sum snapshot digest uuid5 scheduler owner s ≡ ok (d, s')
      → IsFrozen scheduler d s'
  unfolding repeat_decision
  repeat_decision-IsFrozen scheduler transaction owner s {d} {s'} active owned h =
      elim (if-eq-cases (not (owner.policy_sha256 == scheduler.sha256)) h) [
        | inl (_, k) ↦ cc
        | inr (same, k) ↦
            let (tables, e, l) =
              >>=-eq-ok
                (persist_capacity_decision F sum snapshot digest uuid5 scheduler owner.decision
                  s.tables)
                _ k in
            let same : owner.decision ≡ d = ground arith in
            let session : s.session ≡ s'.session = ground arith in
            let stored : tables ≡ s'.tables = ground arith in
            record {
              transaction = transaction;
              active = ap (λ (x : Session F.Float). x.transaction) (sym session) ∙ active;
              owner = owner;
              owned =
                  ap (λ (x : Session F.Float). frozen transaction x.owner) (sym session) ∙ owned;
              policy = ==→eq owner.policy_sha256 scheduler.sha256 (ground arith);
              decision = same;
              before = s.tables;
              persisted =
                  ap
                    (λ x.
                      persist_capacity_decision F sum snapshot digest uuid5 scheduler x s.tables)
                    (sym same)
                  ∙ e
                  ∙ ap ok stored;
            }
      ]

  capacity_decision-IsFrozen :
      (scheduler : AdaptiveScheduler F.Float) (now : ℕ) (s : PlanningState F.Float)
      {d : Decision F.Float} {s' : PlanningState F.Float}
      → capacity_decision F sum snapshot digest uuid5 scheduler now s ≡ ok (d, s')
      → IsFrozen scheduler d s'
  unfolding capacity_decision decide_in decide_owned
  capacity_decision-IsFrozen scheduler now s {d} {s'} h = go (s.session.transaction) refl h
    where
      in_transaction :
          (transaction : ℕ) (found : Option (Owner F.Float))
          → s.session.transaction ≡ some transaction
          → frozen transaction s.session.owner ≡ found
          → decide_owned F sum snapshot digest uuid5 scheduler now transaction found s ≡ ok (d, s')
          → IsFrozen scheduler d s'
      in_transaction transaction none active e k =
          decide_bucket-IsFrozen scheduler now transaction s k
      in_transaction transaction (some owner) active e k =
          repeat_decision-IsFrozen scheduler transaction owner s active e k

      go :
          (transaction : Option ℕ)
          → s.session.transaction ≡ transaction
          → decide_in F sum snapshot digest uuid5 scheduler now transaction s ≡ ok (d, s')
          → IsFrozen scheduler d s'
      go none e k = cc
      go (some t) e k = in_transaction t (frozen t s.session.owner) e refl k

  -- What a later call does in a session whose transaction froze a decision.
  frozen-repeats :
      (scheduler other : AdaptiveScheduler F.Float) (now : ℕ) (s s' : PlanningState F.Float)
      {d : Decision F.Float}
      → (f : IsFrozen scheduler d s) → s'.session ≡ s.session
      → capacity_decision F sum snapshot digest uuid5 other now s'
        ≡ repeat_decision F sum snapshot digest uuid5 other (f.owner) s'
  unfolding capacity_decision decide_in decide_owned
  frozen-repeats scheduler other now s s' f session =
      let active : s'.session.transaction ≡ some (f.transaction) =
        ap (λ (x : Session F.Float). x.transaction) session ∙ f.active in
      let owned : frozen f.transaction s'.session.owner ≡ some (f.owner) =
        ap (λ (x : Session F.Float). frozen f.transaction x.owner) session ∙ f.owned in
      ap (λ t. decide_in F sum snapshot digest uuid5 other now t s') active
      ∙ ap (λ o. decide_owned F sum snapshot digest uuid5 other now f.transaction o s') owned

  -- A root transaction has one capacity identity: once a scheduler has its decision, whatever
  -- becomes of the tables and the cache, a later call in the same transaction that returns gives
  -- the same decision, at any time, and its scheduler has the same policy.
  pub capacity_decision-one_identity :
      (scheduler other : AdaptiveScheduler F.Float) (now later : ℕ) (s : PlanningState F.Float)
      (d d' : Decision F.Float) (s' s'' s''' : PlanningState F.Float)
      → capacity_decision F sum snapshot digest uuid5 scheduler now s ≡ ok (d, s')
      → s''.session ≡ s'.session
      → capacity_decision F sum snapshot digest uuid5 other later s'' ≡ ok (d', s''')
      → (d' ≡ d) × (other.sha256 ≡ scheduler.sha256)
  unfolding repeat_decision
  capacity_decision-one_identity scheduler other now later s d d' s' s'' s''' first session second =
      let f = capacity_decision-IsFrozen scheduler now s first in
      elim (if-eq-cases (not (f.owner.policy_sha256 == other.sha256))
        (sym (frozen-repeats scheduler other later s' s'' f session) ∙ second)) [
          | inl (_, k) ↦ cc
          | inr (same, k) ↦
              let (tables, _, l) =
                >>=-eq-ok
                  (persist_capacity_decision F sum snapshot digest uuid5 other f.owner.decision
                    s''.tables)
                  _ k in
              let given : f.owner.decision ≡ d' = ground arith in
              let policy : f.owner.policy_sha256 ≡ other.sha256 =
                ==→eq f.owner.policy_sha256 other.sha256 (ground arith) in
              (sym given ∙ f.decision, sym policy ∙ f.policy)
        ]

  -- The rows of schedulers with the same policy digest are the same.
  row_of-policy :
      (scheduler other : AdaptiveScheduler F.Float) (d : Decision F.Float)
      → other.sha256 ≡ scheduler.sha256
      → row_of F sum snapshot digest uuid5 other d ≡ row_of F sum snapshot digest uuid5 scheduler d
  unfolding row_of capacity_idempotency_key
  row_of-policy scheduler other d same = rw same refl

  -- A capacity decision that is returned is stored: the row that its identifier or its key selects is
  -- the only one and has its content. Asked at any time in the session that it leaves, in the same
  -- transaction, a scheduler with the same policy digest gives the same decision and changes nothing.
  pub capacity_decision-stored :
      (scheduler other : AdaptiveScheduler F.Float) (now later : ℕ) (s : PlanningState F.Float)
      (d : Decision F.Float) (s' : PlanningState F.Float)
      → capacity_decision F sum snapshot digest uuid5 scheduler now s ≡ ok (d, s')
      → other.sha256 ≡ scheduler.sha256
      → (where_
            (same_identity (row_of F sum snapshot digest uuid5 scheduler d))
            s'.tables.capacity_decisions
          ≡ row_of F sum snapshot digest uuid5 scheduler d ∷ [])
        × (capacity_decision F sum snapshot digest uuid5 other later s' ≡ ok (d, s'))
  unfolding repeat_decision persist_capacity_decision
  capacity_decision-stored scheduler other now later s d s' h same =
      let f = capacity_decision-IsFrozen scheduler now s h in
      let row = row_of F sum snapshot digest uuid5 scheduler d in
      let again : persist_row (row_of F sum snapshot digest uuid5 other d) s'.tables
          ≡ ok (s'.tables) =
        ap (λ r. persist_row r s'.tables) (row_of-policy scheduler other d same)
        ∙ persist_row_idempotent row f.before f.persisted in
      let accepted : (f.owner.policy_sha256 == other.sha256) ≡ true =
        ap (λ n. n == other.sha256) (f.policy ∙ sym same) ∙ ==_refl other.sha256 in
      (
        (persist_row-stored row f.before f.persisted).0,
        frozen-repeats scheduler other later s' s' f refl ∙ rw (accepted, f.decision, again) refl,
      )
