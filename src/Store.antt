-- ===== src/Store.antt =====
-- The MongoDB driver (motor, pymongo) as the program uses it: an interface with the documented
-- behaviour of the calls that the repositories of app/repositories make. A collection is keyed by
-- `_id`, or by the fields of a unique index; each call is one atomic operation.
pub mod Memory
pub mod Laws
pub mod History
pub mod Claims
use mathlib.Core.Option
use smart_dialerss.Prelude.{
  ℕ, ◌≤◌, ◌≡◌, ◌≢◌, Bool, true, false, not, ◌&&◌, List, Option, none, some, Eq, All, length,
  is_some, if◌then◌else◌,
}

module _ {D : Type 0} where
  -- What `find_one_and_update` returns with ReturnDocument.AFTER, given the document under the key.
  abbrev pub matched : (D → Bool) → (D → D) → Option D → Option D
  matched p f none = none
  matched p f (some d) = if p d then some (f d) else none

  -- What it leaves under the key.
  abbrev pub modified : (D → Bool) → (D → D) → Option D → Option D
  modified p f o = Option.map (λ d. if p d then f d else d) o

  -- Whether the updated document would clash with another one.
  abbrev pub clashing : (D → D → Bool) → (D → Bool) → (D → D) → D → Option D → Bool
  clashing clash p f c none = false
  clashing clash p f c (some d) = p d && clash (f d) c

-- A collection of documents `D` under keys `K`. `clash d e` says that the two documents agree on the
-- fields of a unique index.
pub record Collection {K D : Type 0} (e : Eq K) (key : D → K) (clash : D → D → Bool) : Type 1 where
  pub State : Type 0
  -- find_one by the key
  pub find_one : State → K → Option D
  -- find_one by another filter
  pub find_one_where : State → (D → Bool) → Option D
  -- find(filter) with a sort that is left open, and limit(n), where limit(0) is no limit
  pub find : State → (D → Bool) → ℕ → List D
  -- The same without a limit
  pub find_unlimited : State → (D → Bool) → List D
  pub count_documents : State → (D → Bool) → ℕ
  -- aggregate with $match and a $group of all documents that adds up an expression
  pub sum_documents : State → (D → Bool) → (D → ℕ) → ℕ
  -- find_one_and_update by the key and a further filter
  pub find_one_and_update : State → K → (D → Bool) → (D → D) → Option D × State
  -- The same where the update writes a field of a unique index: none stands for DuplicateKeyError
  pub find_one_and_update_unique : State → K → (D → Bool) → (D → D) → Option (Option D × State)
  -- insert_one: false stands for DuplicateKeyError
  pub insert_one : State → D → Bool × State
  pub update_result :
      (s : State) (k : K) (p : D → Bool) (f : D → D)
      → (find_one_and_update s k p f).0 ≡ matched p f (find_one s k)
  pub update_stored :
      (s : State) (k : K) (p : D → Bool) (f : D → D)
      → ((d : D) → key (f d) ≡ key d)
      → (j : K)
      → find_one (find_one_and_update s k p f).1 j
        ≡ (if e.beq k j then modified p f (find_one s j) else find_one s j)
  pub update_unique :
      (s : State) (k : K) (p : D → Bool) (f : D → D)
      → find_one_and_update_unique s k p f ≡ (
          if is_some
            (find_one_where s (λ c. not (e.beq (key c) k) && clashing clash p f c (find_one s k)))
          then none
          else some (find_one_and_update s k p f))
  pub find_one_key : (s : State) (k : K) (d : D) → find_one s k ≡ some d → key d ≡ k
  pub find_one_where_some :
      (s : State) (p : D → Bool) (d : D)
      → find_one_where s p ≡ some d
      → (p d ≡ true) × (find_one s (key d) ≡ some d)
  pub find_one_where_none :
      (s : State) (p : D → Bool) (k : K) (d : D)
      → find_one_where s p ≡ none
      → find_one s k ≡ some d
      → p d ≡ false
  pub find_members :
      (s : State) (p : D → Bool) (n : ℕ)
      → All (λ d. (p d ≡ true) × (find_one s (key d) ≡ some d)) (find s p n)
  pub find_unlimited_members :
      (s : State) (p : D → Bool)
      → All (λ d. (p d ≡ true) × (find_one s (key d) ≡ some d)) (find_unlimited s p)
  pub find_limit : (s : State) (p : D → Bool) (n : ℕ) → n ≢ 0 → length (find s p n) ≤ n
  pub find_no_limit : (s : State) (p : D → Bool) → length (find s p 0) ≡ count_documents s p
  pub insert_result :
      (s : State) (d : D) → (insert_one s d).0 ≡ not (is_some (find_one_where s (clash d)))
  pub insert_stored :
      (s : State) (d : D) (j : K)
      → find_one (insert_one s d).1 j
        ≡ (if (insert_one s d).0 && e.beq (key d) j then some d else find_one s j)
