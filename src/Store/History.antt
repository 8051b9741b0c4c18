-- ===== src/Store/History.antt =====
-- A sequence of atomic updates of one collection, as several workers make them in turn, and the rule
-- for what they keep.

use mathlib.Core.Option.{some-injective}
use mathlib.Core.Path.{subst}
use smart_dialerss.Prelude.{
  ◌≡◌, ◌∙◌, refl, sym, Bool, true, List, [], ◌∷◌, Option, none, some, arith, All, Eq, Bool-cases,
  inl, inr,
}
use smart_dialerss.Store.{Collection, modified}

-- The arguments of `find_one_and_update`.
pub record Update (K D : Type 0) : Type 0 where
  pub at : K
  pub filter : D → Bool
  pub change : D → D

-- What an update must do for an invariant: keep it, and the key, where the filter lets it act.
pub record Keeps {K D : Type 0} (key : D → K) (P : K → D → Type 0) (u : Update K D) : Type 0 where
  pub same_key : (d : D) → key (u.change d) ≡ key d
  pub holds_on : (d : D) → u.filter d ≡ true → P u.at d → P u.at (u.change d)

module _ {K D : Type 0} {e : Eq K} {key : D → K} {clash : D → D → Bool}
    (db : Collection e key clash) where
  unfoldable pub apply_update : db.State → Update K D → db.State
  apply_update s u = (db.find_one_and_update s u.at u.filter u.change).1

  unfoldable pub replay : db.State → List (Update K D) → db.State
  unfolding apply_update
  replay s [] = s
  replay s (u ∷ us) = replay (apply_update s u) us

  change_keeps :
      (P : D → Type 0) (filter : D → Bool) (change : D → D)
      → ((d : D) → filter d ≡ true → P d → P (change d))
      → (o : Option D) → ((d : D) → o ≡ some d → P d)
      → (d : D) → modified filter change o ≡ some d
      → P d
  change_keeps P filter change keep none start d h = absurd (ground arith)
  change_keeps P filter change keep (some c) start d h = elim (Bool-cases (filter c)) [
    | inl hit ↦ subst P (some-injective _ _ (rw hit at h)) (keep c hit (start c refl))
    | inr miss ↦ subst P (some-injective _ _ (rw miss at h)) (start c refl)
  ]

  -- What holds of every document and is kept by an update holds after it.
  pub update_keeps :
      (P : K → D → Type 0) (s : db.State) (u : Update K D)
      → Keeps key P u
      → ((k : K) (d : D) → db.find_one s k ≡ some d → P k d)
      → (k : K) (d : D) → db.find_one (apply_update s u) k ≡ some d
      → P k d
  unfolding apply_update
  update_keeps P s u keep start k d h =
      let stored = sym (db.update_stored s u.at u.filter u.change keep.same_key k) ∙ h in
      elim (Bool-cases (e.beq u.at k)) [
        | inl hit ↦
            let same = (e.beq_iff u.at k).0 hit in
            change_keeps (P k) u.filter u.change
              (subst (λ j. (d : D) → u.filter d ≡ true → P j d → P j (u.change d)) same
                keep.holds_on)
              (db.find_one s k) (start k) d (rw hit at stored)
        | inr miss ↦ start k d (rw miss at stored)
      ]

  -- What holds of every document, and is kept by each update, holds after a sequence of updates.
  pub replay-keeps :
      (P : K → D → Type 0) (us : List (Update K D)) (s : db.State)
      → All (Keeps key P) us
      → ((k : K) (d : D) → db.find_one s k ≡ some d → P k d)
      → (k : K) (d : D) → db.find_one (replay s us) k ≡ some d
      → P k d
  unfolding replay
  replay-keeps P [] s keep start = start
  replay-keeps P (u ∷ us) s keep start =
      replay-keeps P us (apply_update s u) keep.1 (update_keeps P s u keep.0 start)
