-- ===== src/Examples/Borrowers.antt =====
-- The theorems on borrowers at concrete inputs.
use smart_dialerss.Prelude.{ℕ, ◌≡◌, ◌+◌, ◌*◌, ◌^◌, refl, List, [], ◌∷◌, some, arith, nat_eq}
use smart_dialerss.Enums.{BorrowerStatus, borrower_status_eq}
use smart_dialerss.Models.{Borrower}
use smart_dialerss.Store.Memory.{memory, read, update}
use smart_dialerss.BorrowerRepo.{
  BorrowerReleaseOutcome, build_retry_update, try_reserve_borrower, release_borrower, is_claimable,
  can_release, release,
}
use smart_dialerss.BorrowerRepo.Attempts.{
  HasAttempts, run-HasAttempts, run-HasStatus, retry_backoff, run, Write, reserves, releases,
}
use smart_dialerss.Examples.{
  borrowers_in_memory, free_borrower, busy_borrower, borrowers_of, under_way,
}

abbrev steps : List (ℕ × ℕ × Write)
steps = (200, 2, releases 5 BorrowerReleaseOutcome.retry 60) ∷ []

abbrev retried_borrower : Borrower
retried_borrower = record free_borrower {
  attempt_count = 1;
  last_attempt_at = some 200;
  next_eligible_at = 60200;
  state_version = 1;
}

all_open :
    (j : ℕ) (b : Borrower)
    → read nat_eq (λ (c : Borrower). c.id) (borrowers_of busy_borrower) j ≡ some b
    → HasAttempts 3 b
unfolding read
all_open j b h = ground arith

run-HasAttempts_example : HasAttempts 3 retried_borrower
unfolding memory read update run release_borrower can_release release build_retry_update
run-HasAttempts_example =
    run-HasAttempts borrowers_in_memory 3 (under_way).borrowers steps (tt, tt) all_open 2
      retried_borrower refl

abbrev exhausted_borrower : Borrower
exhausted_borrower = record free_borrower { status = BorrowerStatus.exhausted; attempt_count = 3 }

abbrev claims : List (ℕ × ℕ × Write)
claims = (200, 2, reserves 7 5 30) ∷ (300, 2, releases 5 BorrowerReleaseOutcome.released 60) ∷ []

all_exhausted :
    (b : Borrower)
    → read nat_eq (λ (c : Borrower). c.id) (borrowers_of exhausted_borrower) 2 ≡ some b
    → b.status ≡ BorrowerStatus.exhausted
unfolding read
all_exhausted b h = ground arith

abbrev exhausted_only : borrowers_in_memory.State
unfolding memory
exhausted_only = borrowers_of exhausted_borrower

run-HasStatus_example : exhausted_borrower.status ≡ BorrowerStatus.exhausted
unfolding memory read update run try_reserve_borrower release_borrower can_release is_claimable
run-HasStatus_example =
    run-HasStatus borrowers_in_memory 3 2 BorrowerStatus.exhausted refl exhausted_only claims
      (tt, (tt, tt)) all_exhausted exhausted_borrower refl

retry_backoff_example :
    ((build_retry_update 100 3 60 busy_borrower).next_eligible_at ≡ 100 + 1000 * (60 * 2 ^ 0))
    × ((build_retry_update 900 3 60 (build_retry_update 100 3 60 busy_borrower)).next_eligible_at
        ≡ 900 + 2 * (1000 * (60 * 2 ^ 0)))
retry_backoff_example = retry_backoff 100 900 3 60 busy_borrower
