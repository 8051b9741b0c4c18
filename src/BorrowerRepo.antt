-- ===== src/BorrowerRepo.antt =====
-- app/repositories/borrower_repo.py over the driver's interface. `$pow` and `$dateAdd` are the
-- arithmetic of the numbers.
pub mod Attempts
use smart_dialerss.Prelude.{
  ℕ, suc, ◌+◌, ◌-◌, ◌*◌, ◌^◌, Bool, true, false, ◌&&◌, List, [], ◌∷◌, Option, none, some, Eq,
  nat_eq, ◌==◌, leb, contains, is_some, if◌then◌else◌,
}
use smart_dialerss.Enums.{BorrowerStatus, borrower_status_eq}
use smart_dialerss.Models.{Borrower, seconds}
use smart_dialerss.Store.{Collection}
use smart_dialerss.AgentRepo.{candidate_window, holds, before}

pub data BorrowerReleaseOutcome : Type 0 where
  released retry contacted : BorrowerReleaseOutcome

-- Borrowers have no unique index but `_id`.
abbrev pub borrower_clash : Borrower → Borrower → Bool
borrower_clash a b = a.id == b.id

abbrev pub BorrowerCollection : Type 1
BorrowerCollection = Collection nat_eq (λ (b : Borrower). b.id) borrower_clash

-- RELEASABLE_STATUSES
abbrev pub releasable_statuses : List BorrowerStatus
releasable_statuses = BorrowerStatus.reserved ∷ BorrowerStatus.in_call ∷ []

unfoldable pub is_claimable : ℕ → ℕ → Borrower → Bool
is_claimable campaign_id now b =
    b.campaign_id == campaign_id && b.status == BorrowerStatus.pending && leb b.next_eligible_at now

unfoldable pub reserve : ℕ → ℕ → ℕ → Borrower → Borrower
reserve worker_id ttl_seconds now b = record b {
  status = BorrowerStatus.reserved;
  reserved_by = some worker_id;
  reserved_at = some now;
  lease_expires_at = some (now + seconds ttl_seconds);
  state_version = b.state_version + 1;
}

unfoldable pub can_release : ℕ → Borrower → Bool
can_release worker_id b = holds b.reserved_by worker_id && contains b.status releasable_statuses

-- The first stage of the pipeline, whose counter the second stage reads.
abbrev pub count_attempt : ℕ → Borrower → Borrower
count_attempt now b = record b {
  attempt_count = b.attempt_count + 1;
  last_attempt_at = some now;
  state_version = b.state_version + 1;
  reserved_by = none;
  reserved_at = none;
  lease_expires_at = none;
}

abbrev pub schedule_retry : ℕ → ℕ → ℕ → Borrower → Borrower
schedule_retry now max_attempts backoff_base_seconds b = record b {
  status =
      if leb max_attempts b.attempt_count then BorrowerStatus.exhausted else BorrowerStatus.pending;
  next_eligible_at = now + seconds (backoff_base_seconds * 2 ^ (b.attempt_count - 1));
}

unfoldable pub build_retry_update : ℕ → ℕ → ℕ → Borrower → Borrower
build_retry_update now max_attempts backoff_base_seconds b =
    schedule_retry now max_attempts backoff_base_seconds (count_attempt now b)

unfoldable pub release : BorrowerReleaseOutcome → ℕ → ℕ → ℕ → Borrower → Borrower
unfolding build_retry_update
release BorrowerReleaseOutcome.released now max_attempts backoff_base_seconds b = record b {
  status = BorrowerStatus.pending;
  reserved_by = none;
  reserved_at = none;
  lease_expires_at = none;
  state_version = b.state_version + 1;
}
release BorrowerReleaseOutcome.contacted now max_attempts backoff_base_seconds b = record b {
  status = BorrowerStatus.contacted;
  last_attempt_at = some now;
  reserved_by = none;
  reserved_at = none;
  lease_expires_at = none;
  state_version = b.state_version + 1;
  attempt_count = b.attempt_count + 1;
}
release BorrowerReleaseOutcome.retry now max_attempts backoff_base_seconds b =
    build_retry_update now max_attempts backoff_base_seconds b

unfoldable pub has_expired_lease : ℕ → Borrower → Bool
has_expired_lease now b =
    contains b.status releasable_statuses && is_some b.reserved_by && before b.lease_expires_at now

unfoldable pub can_reclaim : Borrower → ℕ → Borrower → Bool
can_reclaim seen now b =
    b.status == seen.status
    && b.state_version == seen.state_version
    && before b.lease_expires_at now

unfoldable pub reclaim : ℕ → Borrower → Borrower
reclaim now b = record b {
  status = BorrowerStatus.pending;
  next_eligible_at = now;
  reserved_by = none;
  reserved_at = none;
  lease_expires_at = none;
  state_version = b.state_version + 1;
}

module _ (borrowers : BorrowerCollection) where
  open borrowers use {State, find_one_and_update, find}

  unfoldable pub try_reserve_borrower : State → ℕ → ℕ → ℕ → ℕ → ℕ → Option Borrower × State
  try_reserve_borrower s now campaign_id borrower_id worker_id ttl_seconds =
      find_one_and_update s borrower_id (is_claimable campaign_id now)
        (reserve worker_id ttl_seconds now)

  unfoldable pub find_claimable_borrowers : State → ℕ → ℕ → ℕ → List Borrower
  unfolding candidate_window
  find_claimable_borrowers s now campaign_id needed =
      if candidate_window needed == 0
      then []
      else find s (is_claimable campaign_id now) (candidate_window needed)

  unfoldable pub release_borrower :
      State → ℕ → ℕ → ℕ → BorrowerReleaseOutcome → ℕ → ℕ → Option Borrower × State
  release_borrower s now borrower_id worker_id outcome max_attempts backoff_base_seconds =
      find_one_and_update s borrower_id (can_release worker_id)
        (release outcome now max_attempts backoff_base_seconds)

  unfoldable pub reclaim_each : ℕ → List Borrower → State → List Borrower × State
  reclaim_each now [] s = ([], s)
  reclaim_each now (candidate ∷ candidates) s =
      let (document, s') =
        find_one_and_update s candidate.id (can_reclaim candidate now) (reclaim now) in
      let (reclaimed, s'') = reclaim_each now candidates s' in
      (elim document [ none ↦ reclaimed | some b ↦ b ∷ reclaimed ], s'')

  unfoldable pub reclaim_expired_borrower_leases : State → ℕ → ℕ → List Borrower × State
  unfolding reclaim_each
  reclaim_expired_borrower_leases s now limit =
      reclaim_each now (find s (has_expired_lease now) limit) s
