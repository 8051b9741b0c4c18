-- ===== src/BorrowerRepo/Attempts.antt =====
-- What the writes of app/repositories/borrower_repo.py, in any order and by any workers, do to the
-- attempts of a borrower and to a status that ends its calls; and the backoff between attempts.
use native.Mathlib.Nat.{pow-suc}
use smart_dialerss.Prelude.{
  ℕ, suc, ◌+◌, ◌-◌, ◌*◌, ◌^◌, ◌<◌, ◌≡◌, ◌∙◌, refl, sym, ap, Bool, true, false, List, [], ◌∷◌, some,
  nat_eq, contains, arith, All,
}
use smart_dialerss.Enums.{BorrowerStatus, borrower_status_eq}
use smart_dialerss.Models.{Borrower}
use smart_dialerss.Store.History.{Update, Keeps, replay, replay-keeps}
use smart_dialerss.BorrowerRepo.{
  BorrowerReleaseOutcome, BorrowerCollection, releasable_statuses, is_claimable, reserve,
  can_release, release, can_reclaim, reclaim, build_retry_update, try_reserve_borrower,
  release_borrower, reclaim_each,
}

-- The writes on a borrower, with the arguments of the repository's methods. A reclaim names the
-- borrower that the sweep has read.
pub data Write : Type 0 where
  reserves : ℕ → ℕ → ℕ → Write
  releases : ℕ → BorrowerReleaseOutcome → ℕ → Write
  reclaims : Borrower → Write

-- The sweep reads borrowers in a releasable status only.
abbrev pub IsIssued : Write → Type 0
IsIssued (reclaims seen) = contains seen.status releasable_statuses ≡ true
IsIssued _ = Unit

request : ℕ → ℕ → ℕ → Write → Update ℕ Borrower
request max_attempts now i (reserves campaign_id worker_id ttl) = record {
  at = i;
  filter = is_claimable campaign_id now;
  change = reserve worker_id ttl now;
}
request max_attempts now i (releases worker_id outcome base) = record {
  at = i;
  filter = can_release worker_id;
  change = release outcome now max_attempts base;
}
request max_attempts now i (reclaims seen) = record {
  at = seen.id;
  filter = can_reclaim seen now;
  change = reclaim now;
}

-- May still be dialled, now or once its present call has ended.
abbrev pub is_open : BorrowerStatus → Bool
is_open status = contains status (BorrowerStatus.pending ∷ releasable_statuses)

abbrev pub HasAttempts : ℕ → Borrower → Type 0
HasAttempts max_attempts b = is_open b.status ≡ true → b.attempt_count < max_attempts

released-HasAttempts :
    (max_attempts now worker_id base : ℕ) (outcome : BorrowerReleaseOutcome) (b : Borrower)
    → can_release worker_id b ≡ true
    → HasAttempts max_attempts b
    → HasAttempts max_attempts (release outcome now max_attempts base b)
unfolding can_release release
released-HasAttempts max_attempts now worker_id base BorrowerReleaseOutcome.released b may h =
    ground arith
released-HasAttempts max_attempts now worker_id base BorrowerReleaseOutcome.retry b may h =
    ground arith
released-HasAttempts max_attempts now worker_id base BorrowerReleaseOutcome.contacted b may h =
    ground arith

release-id :
    (max_attempts now base : ℕ) (outcome : BorrowerReleaseOutcome) (b : Borrower)
    → (release outcome now max_attempts base b).id ≡ b.id
unfolding release
release-id max_attempts now base BorrowerReleaseOutcome.released b = refl
release-id max_attempts now base BorrowerReleaseOutcome.retry b = refl
release-id max_attempts now base BorrowerReleaseOutcome.contacted b = refl

request-HasAttempts :
    (max_attempts now i : ℕ) (w : Write)
    → IsIssued w
    → Keeps (λ (b : Borrower). b.id) (λ _. HasAttempts max_attempts) (request max_attempts now i w)
unfolding request
request-HasAttempts max_attempts now i (reserves campaign_id worker_id ttl) issued = record {
  same_key = λ b. unfold reserve in refl;
  holds_on = λ b may h. unfold reserve is_claimable in ground arith;
}
request-HasAttempts max_attempts now i (releases worker_id outcome base) issued = record {
  same_key = release-id max_attempts now base outcome;
  holds_on = released-HasAttempts max_attempts now worker_id base outcome;
}
request-HasAttempts max_attempts now i (reclaims seen) issued = record {
  same_key = λ b. unfold reclaim in refl;
  holds_on = λ b may h. unfold reclaim can_reclaim in ground arith;
}

-- The borrower has the given status for good.
abbrev pub HasStatus : ℕ → BorrowerStatus → ℕ → Borrower → Type 0
HasStatus i status k b = k ≡ i → b.status ≡ status

request-HasStatus :
    (max_attempts now i j : ℕ) (status : BorrowerStatus) (w : Write)
    → is_open status ≡ false
    → IsIssued w
    → Keeps (λ (b : Borrower). b.id) (HasStatus j status) (request max_attempts now i w)
unfolding request
request-HasStatus max_attempts now i j status (reserves campaign_id worker_id ttl) closed issued =
    record {
      same_key = λ b. unfold reserve in refl;
      holds_on = λ b may h same. unfold is_claimable in absurd (ground (arith, h same));
    }
request-HasStatus max_attempts now i j status (releases worker_id outcome base) closed issued =
    record {
      same_key = release-id max_attempts now base outcome;
      holds_on = λ b may h same. unfold can_release in absurd (ground (arith, h same));
    }
request-HasStatus max_attempts now i j status (reclaims seen) closed issued = record {
  same_key = λ b. unfold reclaim in refl;
  holds_on = λ b may h same. unfold can_reclaim in absurd (ground (arith, h same));
}

module _ (borrowers : BorrowerCollection) (max_attempts : ℕ) where
  open borrowers use {State, find_one}

  -- The writes in the order in which they reach the database: the time, the borrower and the write.
  unfoldable pub run : State → List (ℕ × ℕ × Write) → State
  run s [] = s
  run s ((now, i, reserves campaign_id worker_id ttl) ∷ steps) =
      run (try_reserve_borrower borrowers s now campaign_id i worker_id ttl).1 steps
  run s ((now, i, releases worker_id outcome base) ∷ steps) =
      run (release_borrower borrowers s now i worker_id outcome max_attempts base).1 steps
  run s ((now, i, reclaims seen) ∷ steps) = run (reclaim_each borrowers now (seen ∷ []) s).1 steps

  requests : List (ℕ × ℕ × Write) → List (Update ℕ Borrower)
  requests [] = []
  requests ((now, i, w) ∷ steps) = request max_attempts now i w ∷ requests steps

  run-replay :
      (steps : List (ℕ × ℕ × Write)) (s : State) → run s steps ≡ replay borrowers s (requests steps)
  unfolding run requests replay request try_reserve_borrower release_borrower reclaim_each
  run-replay [] s = refl
  run-replay ((now, i, reserves campaign_id worker_id ttl) ∷ steps) s = run-replay steps _
  run-replay ((now, i, releases worker_id outcome base) ∷ steps) s = run-replay steps _
  run-replay ((now, i, reclaims seen) ∷ steps) s = run-replay steps _

  All-Keeps :
      (P : ℕ → Borrower → Type 0)
      → ((now i : ℕ) (w : Write)
          → IsIssued w
          → Keeps (λ (b : Borrower). b.id) P (request max_attempts now i w))
      → (steps : List (ℕ × ℕ × Write)) → All (λ st. IsIssued st.2) steps
      → All (Keeps (λ (b : Borrower). b.id) P) (requests steps)
  unfolding requests
  All-Keeps P each [] issued = tt
  All-Keeps P each ((now, i, w) ∷ steps) issued =
      (each now i w issued.0, All-Keeps P each steps issued.1)

  run_keeps :
      (P : ℕ → Borrower → Type 0)
      → ((now i : ℕ) (w : Write)
          → IsIssued w
          → Keeps (λ (b : Borrower). b.id) P (request max_attempts now i w))
      → (s : State) (steps : List (ℕ × ℕ × Write)) → All (λ st. IsIssued st.2) steps
      → ((k : ℕ) (b : Borrower) → find_one s k ≡ some b → P k b)
      → (k : ℕ) (b : Borrower) → find_one (run s steps) k ≡ some b
      → P k b
  run_keeps P each s steps issued start k b found =
      replay-keeps borrowers P (requests steps) s (All-Keeps P each steps issued) start k b
        (ap (λ t. find_one t k) (sym (run-replay steps s)) ∙ found)

  -- After any sequence of reservations, releases and reclaims, a borrower that may still be dialled
  -- has used fewer than MAX_CALL_ATTEMPTS attempts, if this holds at the start.
  pub run-HasAttempts :
      (s : State) (steps : List (ℕ × ℕ × Write))
      → All (λ st. IsIssued st.2) steps
      → ((k : ℕ) (b : Borrower) → find_one s k ≡ some b → HasAttempts max_attempts b)
      → (k : ℕ) (b : Borrower) → find_one (run s steps) k ≡ some b
      → HasAttempts max_attempts b
  run-HasAttempts =
      run_keeps (λ _. HasAttempts max_attempts)
        (λ now i w. request-HasAttempts max_attempts now i w)

  -- A borrower that is CONTACTED, FAILED, EXHAUSTED or DNC keeps that status through any sequence of
  -- them.
  pub run-HasStatus :
      (j : ℕ) (status : BorrowerStatus)
      → is_open status ≡ false
      → (s : State) (steps : List (ℕ × ℕ × Write)) → All (λ st. IsIssued st.2) steps
      → ((b : Borrower) → find_one s j ≡ some b → b.status ≡ status)
      → (b : Borrower) → find_one (run s steps) j ≡ some b
      → b.status ≡ status
  run-HasStatus j status closed s steps issued start b found =
      run_keeps (HasStatus j status)
        (λ now i w. request-HasStatus max_attempts now i j status w closed) s steps issued
        (λ k c here same. start c (ap (λ n. find_one s n) (sym same) ∙ here)) j b found refl

-- The n-th retry, from n = 1, is due after base * 2 ^ (n - 1) seconds, and the wait doubles from one
-- retry to the next.
pub retry_backoff :
    (now later max_attempts base : ℕ) (b : Borrower)
    → let b' = build_retry_update now max_attempts base b in
      let b'' = build_retry_update later max_attempts base b' in
      (b'.next_eligible_at ≡ now + 1000 * (base * 2 ^ b.attempt_count))
      × (b''.next_eligible_at ≡ later + 2 * (1000 * (base * 2 ^ b.attempt_count)))
unfolding build_retry_update
retry_backoff now later max_attempts base b =
    let n = b.attempt_count in
    let first : n + 1 - 1 ≡ n = omega arith in
    let second : n + 1 + 1 - 1 ≡ suc n = omega arith in
    rw (first, second, pow-suc) (grind arith, grind arith)
