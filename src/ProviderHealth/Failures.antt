-- ===== src/ProviderHealth/Failures.antt =====
-- What failures at the end of the window do to the health of a provider.
use mathlib.Core.List.{reverse_aux, reverse_aux-append}
use smart_dialerss.Prelude.{
  ℕ, ◌≤◌, ◌+◌, ◌≡◌, refl, ap, ◌∙◌, true, false, List, [], ◌∷◌, ◌++◌, reverse, length, All, arith,
  leb,
}
use smart_dialerss.Enums.{ProviderHealthStatus}
use smart_dialerss.Floats.{Floats}
use smart_dialerss.ProviderHealth.{
  OriginateSample, HealthSettings, HealthManager, trim, leading_failures, count_trailing_failures,
  derive_status, health_of, get_health, should_allow_retry,
}

abbrev pub Failed : OriginateSample → Type 0
Failed s = s.success ≡ false

leading_failures-reverse_aux :
    (ys rest : List OriginateSample)
    → All Failed ys
    → leading_failures (reverse_aux ys rest) ≡ length ys + leading_failures rest
unfolding leading_failures
leading_failures-reverse_aux [] rest failed = omega arith
leading_failures-reverse_aux (y ∷ ys) rest failed =
    leading_failures-reverse_aux ys (y ∷ rest) failed.1
    ∙ rw (failed.0, leading_failures) (omega arith)

count_trailing_failures-append :
    (xs ys : List OriginateSample)
    → All Failed ys
    → count_trailing_failures (xs ++ ys) ≡ length ys + count_trailing_failures xs
unfolding count_trailing_failures
count_trailing_failures-append xs ys failed =
    ap leading_failures (reverse_aux-append xs ys [])
    ∙ leading_failures-reverse_aux ys (reverse xs) failed

module _ (floats : Floats) where
  -- If the samples that are left in the window end in at least UNHEALTHY_CONSECUTIVE_FAILURES failures,
  -- the provider is UNHEALTHY, whatever came before them, and no retry is allowed.
  pub get_health-unhealthy :
      (settings : HealthSettings floats) (m : HealthManager floats) (now provider_name : ℕ)
      (xs ys : List OriginateSample)
      → trim now settings.health_window_seconds (m.samples provider_name) ≡ xs ++ ys
      → All Failed ys
      → settings.unhealthy_consecutive_failures ≤ length ys
      → ((get_health floats settings m now provider_name).0.status ≡ ProviderHealthStatus.unhealthy)
        × ((should_allow_retry floats settings m now provider_name).0 ≡ false)
  unfolding should_allow_retry get_health health_of derive_status
  get_health-unhealthy settings m now provider_name xs ys window failed enough =
      let many : leb settings.unhealthy_consecutive_failures (count_trailing_failures (xs ++ ys))
          ≡ true =
        ground (arith, count_trailing_failures-append xs ys failed) in
      rw (window, get_health, health_of, many) (refl, refl)
