-- ===== src/Safety/Verdict.antt =====
-- What each verdict says of the numbers.
use Prim.Native.String.{String}
use smart_dialerss.Prelude.{ℕ, ◌≡◌, ◌<◌, ◌≤◌, ◌↔◌, true, Option, none, some, is_some, arith, nat_eq}
use smart_dialerss.Enums.{SafetyVerdict}
use smart_dialerss.Safety.{judge}

-- Whenever at most the requested number is approved, the verdict is REJECTED just if something was
-- requested and nothing approved, REDUCED just if fewer but some are approved and nothing calls for a
-- fallback, and FALLBACK_PROGRESSIVE just if some are approved and something calls for it.
pub judge_iff :
    (requested approved : ℕ) (reason : Option String)
    → approved ≤ requested
    → ((judge requested approved reason ≡ SafetyVerdict.rejected)
        ↔ ((0 < requested) × (approved ≡ 0)))
      × ((judge requested approved reason ≡ SafetyVerdict.reduced)
          ↔ ((0 < approved) × (approved < requested) × (reason ≡ none)))
      × ((judge requested approved reason ≡ SafetyVerdict.fallback_progressive)
          ↔ ((0 < approved) × (is_some reason ≡ true)))
unfolding judge
judge_iff requested approved none h = ground arith
judge_iff requested approved (some r) h = ground arith
