-- ===== src/Store/Memory.antt =====
-- A collection in memory, which shows that the behaviour asked of the driver can be met.
use smart_dialerss.Prelude.{
  ℕ, zero, suc, ◌+◌, ◌≤◌, ◌≡◌, ◌≢◌, refl, Bool, true, false, not, ◌&&◌, List, [], ◌∷◌, Option, none,
  some, arith, Eq, All, length, take, is_some, if◌then◌else◌, Bool-cases, Option-cases, inl, inr,
  contains,
}
use mathlib.Core.Path.{subst}
use mathlib.Core.Option.{some-injective}
use smart_dialerss.Store.{Collection, matched, modified, clashing}

-- The keys that were inserted, and the document under each.
pub record Table (K D : Type 0) : Type 0 where
  pub keys : List K
  pub body : K → Option D

module _ {K D : Type 0} (e : Eq K) (key : D → K) where
  abbrev pub well_keyed : K → Option D → Option D
  well_keyed k none = none
  well_keyed k (some d) = if e.beq (key d) k then some d else none

  unfoldable pub read : Table K D → K → Option D
  read s k = if contains ⦃e = e⦄ k s.keys then well_keyed k (s.body k) else none

  unfoldable pub scan : Table K D → (D → Bool) → List K → List D
  unfolding read
  scan s p [] = []
  scan s p (k ∷ ks) = elim (read s k) [
    | none ↦ scan s p ks
    | some d ↦ if p d then d ∷ scan s p ks else scan s p ks
  ]

  unfoldable pub first : List D → Option D
  first [] = none
  first (d ∷ _) = some d

  unfoldable pub lookup_where : Table K D → (D → Bool) → Option D
  unfolding first scan
  lookup_where s p = first (scan s p s.keys)

  -- limit(n), which is no limit at 0
  abbrev limited : ℕ → List D → List D
  limited zero ds = ds
  limited (suc n) ds = take (suc n) ds

  pub lookup_all : Table K D → (D → Bool) → ℕ → List D
  unfolding scan
  lookup_all s p n = limited n (scan s p s.keys)

  pub lookup_each : Table K D → (D → Bool) → List D
  unfolding scan
  lookup_each s p = scan s p s.keys

  pub tally : Table K D → (D → Bool) → ℕ
  unfolding scan
  tally s p = length (scan s p s.keys)

  abbrev total : (D → ℕ) → List D → ℕ
  total f [] = 0
  total f (d ∷ ds) = f d + total f ds

  pub add_up : Table K D → (D → Bool) → (D → ℕ) → ℕ
  unfolding scan
  add_up s p f = total f (scan s p s.keys)

  unfoldable pub update : Table K D → K → (D → Bool) → (D → D) → Option D × Table K D
  unfolding read
  update s k p f = (
    matched p f (read s k),
    record s { body = λ j. if e.beq k j then modified p f (read s j) else s.body j },
  )

  pub update_unique :
      (D → D → Bool) → Table K D → K → (D → Bool) → (D → D) → Option (Option D × Table K D)
  unfolding lookup_where update
  update_unique clash s k p f =
      if is_some (lookup_where s (λ c. not (e.beq (key c) k) && clashing clash p f c (read s k)))
      then none
      else some (update s k p f)

  pub insert : (D → D → Bool) → Table K D → D → Bool × Table K D
  unfolding lookup_where
  insert clash s d = if is_some (lookup_where s (clash d)) then (false, s) else (
    true,
    record { keys = key d ∷ s.keys; body = λ j. if e.beq (key d) j then some d else s.body j },
  )

  well_keyed-key : (k : K) (o : Option D) (d : D) → well_keyed k o ≡ some d → key d ≡ k
  well_keyed-key k none d h = cc
  well_keyed-key k (some c) d h = ground (arith, e.beq_iff (key c) k)

  pub read-key : (s : Table K D) (k : K) (d : D) → read s k ≡ some d → key d ≡ k
  unfolding read
  read-key s k d h = ground (arith, well_keyed-key k (s.body k) d)

  pub read-contains :
      (s : Table K D) (k : K) (d : D) → read s k ≡ some d → contains ⦃e = e⦄ k s.keys ≡ true
  unfolding read
  read-contains s k d h = ground arith

  beq_comm : (a b : K) → e.beq a b ≡ e.beq b a
  beq_comm a b = ground (arith, e.beq_iff a b, e.beq_iff b a)

  well_keyed-modified :
      (p : D → Bool) (f : D → D)
      → ((d : D) → key (f d) ≡ key d)
      → (k : K) (o : Option D)
      → well_keyed k (modified p f (well_keyed k o)) ≡ modified p f (well_keyed k o)
  well_keyed-modified p f same k none = refl
  well_keyed-modified p f same k (some d) = ground (arith, same d)

  pub update_stored :
      (s : Table K D) (k : K) (p : D → Bool) (f : D → D)
      → ((d : D) → key (f d) ≡ key d)
      → (j : K)
      → read (update s k p f).1 j ≡ (if e.beq k j then modified p f (read s j) else read s j)
  unfolding update
  update_stored s k p f same j = ground (arith, well_keyed-modified p f same j (s.body j))

  pub insert_stored :
      (clash : D → D → Bool) (s : Table K D) (d : D) (j : K)
      → read (insert clash s d).1 j
        ≡ (if (insert clash s d).0 && e.beq (key d) j then some d else read s j)
  unfolding insert
  insert_stored clash s d j = elim (Bool-cases (is_some (lookup_where s (clash d)))) [
    | inl old ↦ rw (old, insert)
    | inr new ↦ rw (new, insert) (ground (arith, beq_comm (key d) j))
  ]

  pub scan-members :
      (s : Table K D) (p : D → Bool) (ks : List K)
      → All (λ d. (p d ≡ true) × (read s (key d) ≡ some d)) (scan s p ks)
  unfolding scan
  scan-members s p [] = tt
  scan-members s p (k ∷ ks) = elim (Option-cases (read s k)) [
    | inl gone ↦ rw (gone, scan) (scan-members s p ks)
    | inr (d, here) ↦
        rw (here, scan)
          (elim (Bool-cases (p d)) [
            | inl hit ↦ rw hit (((hit, rw (read-key s k d here) here), scan-members s p ks))
            | inr miss ↦ rw miss (scan-members s p ks)
          ])
  ]

  pub scan-none :
      (s : Table K D) (p : D → Bool) (k : K) (d : D) (ks : List K)
      → scan s p ks ≡ []
      → contains ⦃e = e⦄ k ks ≡ true
      → read s k ≡ some d
      → p d ≡ false
  unfolding scan
  scan-none s p k d [] h c r = cc
  scan-none s p k d (j ∷ ks) h c r = ground (arith, e.beq_iff k j, scan-none s p k d ks)

  pub take-members : (P : D → Type 0) (n : ℕ) (ds : List D) → All P ds → All P (take n ds)
  take-members P zero ds h = tt
  take-members P (suc n) [] h = tt
  take-members P (suc n) (d ∷ ds) h = (h.0, take-members P n ds h.1)

  pub limited-members : (P : D → Type 0) (n : ℕ) (ds : List D) → All P ds → All P (limited n ds)
  limited-members P zero ds h = h
  limited-members P (suc n) ds h = take-members P (suc n) ds h

  pub length-take-le : (n : ℕ) (ds : List D) → length (take n ds) ≤ n
  length-take-le zero ds = omega arith
  length-take-le (suc n) [] = omega arith
  length-take-le (suc n) (d ∷ ds) = omega (arith, length-take-le n ds)

  pub length-limited-le : (n : ℕ) (ds : List D) → n ≢ 0 → length (limited n ds) ≤ n
  length-limited-le zero ds h = absurd (h refl)
  length-limited-le (suc n) ds h = length-take-le (suc n) ds

  pub first-member : (P : D → Type 0) (ds : List D) (d : D) → All P ds → first ds ≡ some d → P d
  unfolding first
  first-member P [] d h e' = cc
  first-member P (c ∷ ds) d h e' = subst P (some-injective _ _ e') h.0

  pub first-none : (ds : List D) → first ds ≡ none → ds ≡ []
  unfolding first
  first-none [] h = refl
  first-none (d ∷ ds) h = cc

  pub insert_result :
      (clash : D → D → Bool) (s : Table K D) (d : D)
      → (insert clash s d).0 ≡ not (is_some (lookup_where s (clash d)))
  unfolding insert
  insert_result clash s d = ground arith

  unfoldable pub memory : (clash : D → D → Bool) → Collection e key clash
  unfolding read lookup_where lookup_all lookup_each tally add_up update update_unique insert
  memory clash = record {
    State = Table K D;
    find_one = read;
    find_one_where = lookup_where;
    find = lookup_all;
    find_unlimited = lookup_each;
    count_documents = tally;
    sum_documents = add_up;
    find_one_and_update = update;
    find_one_and_update_unique = update_unique clash;
    insert_one = insert clash;
    update_result = λ s k p f. refl;
    update_stored = update_stored;
    update_unique = λ s k p f. refl;
    find_one_key = read-key;
    find_one_where_some = λ s p d.
        first-member (λ c. (p c ≡ true) × (read s (key c) ≡ some c)) (scan s p s.keys) d
          (scan-members s p s.keys);
    find_one_where_none = λ s p k d h r.
        scan-none s p k d s.keys (first-none (scan s p s.keys) h) (read-contains s k d r) r;
    find_members = λ s p n. limited-members _ n _ (scan-members s p s.keys);
    find_unlimited_members = λ s p. scan-members s p s.keys;
    find_limit = λ s p n h. length-limited-le n (scan s p s.keys) h;
    find_no_limit = λ s p. refl;
    insert_result = λ s d. insert_result clash s d;
    insert_stored = insert_stored clash;
  }
