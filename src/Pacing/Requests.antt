-- ===== src/Pacing/Requests.antt =====
-- What the pacing engine requests.
use smart_dialerss.Prelude.{ℕ, ◌-◌, ◌^◌, ◌≤◌, ◌≡◌, refl, inl, inr, none, some, Option-cases, arith}
use smart_dialerss.Floats.{Floats}
use smart_dialerss.Pacing.{
  PacingSnapshot, PacingEngineConfig, free_capacity, effective_answer_rate, request_for, compute,
  compute_request,
}

-- The number up to which every whole number is a float
abbrev pub exact : ℕ
exact = 2 ^ 53

-- What Python's floats promise of whole numbers: products with 1.0 and 0.0, sums with 0.0, a quotient
-- by 1.0, and, up to the bound, differences and rounding down.
pub record FloatLaws (floats : Floats) : Type 0 where
  pub mul_one : (n : ℕ) → floats.mul (floats.of_nat n) (floats.of_nat 1) ≡ floats.of_nat n
  pub add_nothing :
      (m n : ℕ)
      → floats.add (floats.of_nat m) (floats.mul (floats.of_nat n) (floats.of_nat 0))
        ≡ floats.of_nat m
  pub quotient_one :
      (n : ℕ) → floats.quotient (floats.of_nat n) (floats.of_nat 1) ≡ some (floats.of_nat n)
  pub floor_exact : (n : ℕ) → n ≤ exact → floats.floor (floats.of_nat n) ≡ n
  pub floor_difference :
      (m n : ℕ)
      → m ≤ exact
      → n ≤ exact
      → floats.floor
          (floats.fmax (floats.of_nat 0) (floats.sub (floats.of_nat m) (floats.of_nat n)))
        ≡ m - n

module _ (floats : Floats) (snapshot : PacingSnapshot floats)
    (config : PacingEngineConfig floats) where
  -- A request is for no more calls than the configuration allows in a tick, and for none if the answer
  -- rate in use makes the division fail.
  pub compute_request-bounds :
      ((compute_request floats snapshot config).requested ≤ config.max_request_per_tick)
      × (floats.quotient
              (free_capacity floats snapshot config)
              (effective_answer_rate floats snapshot config)
            ≡ none
          → (compute_request floats snapshot config).requested ≡ 0)
  unfolding compute_request compute request_for
  compute_request-bounds = (
    elim (Option-cases (
        floats.quotient (free_capacity floats snapshot config)
          (effective_answer_rate floats snapshot config))) [
            | inl h ↦ rw (h, compute_request, compute) (omega arith)
            | inr (_, h) ↦ rw (h, compute_request, compute) (omega arith)
          ],
    λ h. rw (h, compute_request, compute) refl,
  )
