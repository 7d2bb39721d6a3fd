-- ===== src/Coverage/Classes.antt =====
-- src/pump_research/scheduling/policy.py: the lifecycle states, the coverage classes and the
-- claim precedence `_PRIORITIES` of each class.
use pump_research.Prelude.{ℕ}

pub data LifecycleState : Type 0 where
  new active watch fading dormant resurrected : LifecycleState

pub data CoverageClass : Type 0 where
  protected_active protected_resurrected protected_watch : CoverageClass
  initial early mature fading_tail fading_cool cooled : CoverageClass
  long_tail_day long_tail_week retired_control : CoverageClass

pub LifecycleState-discrete : Discrete LifecycleState
LifecycleState-discrete = hlevel

abbrev pub priority_for_coverage : CoverageClass → ℕ
priority_for_coverage protected_active = 0
priority_for_coverage protected_resurrected = 0
priority_for_coverage protected_watch = 1
priority_for_coverage initial = 2
priority_for_coverage early = 3
priority_for_coverage mature = 4
priority_for_coverage fading_tail = 5
priority_for_coverage fading_cool = 6
priority_for_coverage cooled = 7
priority_for_coverage long_tail_day = 8
priority_for_coverage long_tail_week = 9
priority_for_coverage retired_control = 10
