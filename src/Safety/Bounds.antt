-- ===== src/Safety/Bounds.antt =====
-- The number that the constraints approve, and the constraint that is marked as binding.
use mathlib.Core.Path.{subst}
use smart_dialerss.Prelude.{
  ℕ, sym, ◌≡◌, ◌≤◌, ◌<◌, inl, inr, Bool, true, false, List, [], ◌∷◌, All, count, arith, max, min,
  refl, leb, ◌==◌, nat_eq, not, ◌&&◌, ◌||◌, Bool-cases,
}
use smart_dialerss.Floats.{Floats}
use smart_dialerss.SafetyModels.{SafetyConstraintResult}
use smart_dialerss.Constraints.{least, limits, approve, mark_first, mark_binding}

module _ (floats : Floats) where
  abbrev Constraint : Type 0
  Constraint = SafetyConstraintResult floats

  abbrev AtLeast : ℕ → List Constraint → Type 0
  AtLeast n cs = All (λ (c : Constraint). n ≤ c.limit) cs

  AtLeast-le : (a b : ℕ) (cs : List Constraint) → a ≤ b → AtLeast b cs → AtLeast a cs
  AtLeast-le a b [] h all = tt
  AtLeast-le a b (c ∷ cs) h all = (ground arith, AtLeast-le a b cs h all.1)

  least-le : (m : ℕ) (cs : List Constraint) → least m (limits floats cs) ≤ m
  unfolding least limits
  least-le m [] = omega arith
  least-le m (c ∷ cs) = ground (arith, least-le m cs)

  least-AtLeast : (m : ℕ) (cs : List Constraint) → AtLeast (least m (limits floats cs)) cs
  unfolding least limits
  least-AtLeast m [] = tt
  least-AtLeast m (c ∷ cs) = (
    ground arith,
    AtLeast-le _ (least m (limits floats cs)) cs (ground arith) (least-AtLeast m cs),
  )

  least-greatest :
      (m n : ℕ) (cs : List Constraint) → n ≤ m → AtLeast n cs → n ≤ least m (limits floats cs)
  unfolding least limits
  least-greatest m n [] h all = h
  least-greatest m n (c ∷ cs) h all = ground (arith, least-greatest m n cs h all.1)

  -- The number approved is the greatest one that is at most the number requested and at most the limit
  -- of every constraint.
  pub approve-greatest :
      (requested : ℕ) (cs : List Constraint)
      → (approve floats requested cs ≤ requested)
        × AtLeast (approve floats requested cs) cs
        × ((n : ℕ) → n ≤ requested → AtLeast n cs → n ≤ approve floats requested cs)
  unfolding approve
  approve-greatest requested cs = (
    ground (arith, least-le requested cs),
    AtLeast-le _ (least requested (limits floats cs)) cs (ground arith)
        (least-AtLeast requested cs),
    λ n h all. ground (arith, least-greatest requested n cs h all),
  )

  abbrev is_binding : Constraint → Bool
  is_binding c = c.binding

  abbrev reaches : ℕ → Constraint → Bool
  reaches n c = c.limit == n

  mark_first-marked :
      (n : ℕ) (cs : List Constraint) → count is_binding (mark_first floats n true cs) ≡ 0
  unfolding mark_first
  mark_first-marked n [] = refl
  mark_first-marked n (c ∷ cs) = ground (arith, mark_first-marked n cs)

  mark_first-once :
      (n : ℕ) (cs : List Constraint)
      → count is_binding (mark_first floats n false cs) ≡ min 1 (count (reaches n) cs)
  unfolding mark_first
  mark_first-once n [] = omega arith
  mark_first-once n (c ∷ cs) = elim (Bool-cases (c.limit == n)) [
    | inl hit ↦ rw (hit, mark_first) (ground (arith, mark_first-marked n cs))
    | inr miss ↦ rw (miss, mark_first) (ground (arith, mark_first-once n cs))
  ]

  mark_first-limit :
      (n : ℕ) (cs : List Constraint) (marked : Bool)
      → All (λ (c : Constraint). c.binding ≡ true → c.limit ≡ n) (mark_first floats n marked cs)
  unfolding mark_first
  mark_first-limit n [] marked = tt
  mark_first-limit n (c ∷ cs) marked =
      (λ h. ground arith, mark_first-limit n cs (marked || not marked && c.limit == n))

  reached-later :
      (k n : ℕ) (c : Constraint) (cs : List Constraint)
      → k ≡ n
      → 1 ≤ count (reaches n) cs
      → 1 ≤ count (reaches k) (c ∷ cs)
  reached-later k n c cs same h =
      subst (λ i. 1 ≤ count (reaches i) (c ∷ cs)) (sym same) (ground arith)

  least-reached :
      (m : ℕ) (cs : List Constraint)
      → least m (limits floats cs) < m
      → 1 ≤ count (reaches (least m (limits floats cs))) cs
  unfolding least limits
  least-reached m [] h = absurd (ground arith)
  least-reached m (c ∷ cs) h =
      let rest = least m (limits floats cs) in
      elim (Bool-cases (leb c.limit rest)) [
        | inl here ↦ let eq : min c.limit rest ≡ c.limit = ground arith in rw eq (ground arith)
        | inr later ↦ reached-later _ rest c cs (ground arith) (least-reached m cs (ground arith))
      ]

  -- If less is approved than requested, exactly one constraint is marked as binding, and every marked
  -- one has the approved number as its limit.
  pub mark_binding-once :
      (requested : ℕ) (cs : List Constraint)
      → approve floats requested cs < requested
      → let marked = mark_binding floats cs (approve floats requested cs) requested in
        (count is_binding marked ≡ 1)
        × All (λ (c : Constraint). c.binding ≡ true → c.limit ≡ approve floats requested cs) marked
  unfolding mark_binding approve
  mark_binding-once requested cs less =
      let n = least requested (limits floats cs) in
      let test : leb requested (max 0 n) ≡ false = ground arith in
      let same : max 0 n ≡ n = ground arith in
      rw (test, same)
        (
          ground (arith, mark_first-once n cs, least-reached requested cs (rw (← same) less)),
          mark_first-limit n cs false,
        )
