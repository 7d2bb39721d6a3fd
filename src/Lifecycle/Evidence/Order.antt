-- ===== src/Lifecycle/Evidence/Order.antt =====
-- The choice of src/pump_research/lifecycle/evidence_selection.py and the order of the candidates.
use pump_research.Prelude.{◌≡◌, List, ap, arith}
use pump_research.Prelude.Sorting.{IsTotalOrder, Untied, sort_by-perm}
use pump_research.Prelude.Text.{text_leb-total, text_leb_trans}
use pump_research.Lifecycle.Evidence.{
  LifecycleEvidenceCandidate, canonical_pair_key_leb, select, select_ordered,
}
use mathlib.Core.List.{Permᴰ, Pairwise}

pub canonical_pair_key_leb-IsTotalOrder : IsTotalOrder canonical_pair_key_leb
unfolding canonical_pair_key_leb
canonical_pair_key_leb-IsTotalOrder = record {
  total = λ a b h.
      ground (arith, text_leb-total a.chain b.chain, text_leb-total a.pair_address b.pair_address);
  before_trans = λ a b c h k. ground (
    arith,
    text_leb_trans a.chain b.chain c.chain,
    text_leb_trans b.chain c.chain a.chain,
    text_leb_trans c.chain a.chain b.chain,
    text_leb_trans a.pair_address b.pair_address c.pair_address,
  );
}

-- No two candidates are one pair: their chain and address differ.
abbrev pub HasDistinctPairs : List LifecycleEvidenceCandidate → Type 0
HasDistinctPairs = Pairwise (Untied canonical_pair_key_leb canonical_pair_key_leb-IsTotalOrder)

-- Candidates of distinct pairs give the same result, in whatever order the provider sent them.
pub select-perm :
    {candidates others : List LifecycleEvidenceCandidate}
    → Permᴰ candidates others
    → HasDistinctPairs candidates
    → select candidates ≡ select others
unfolding select
select-perm d h =
    ap select_ordered (sort_by-perm canonical_pair_key_leb canonical_pair_key_leb-IsTotalOrder d h)
