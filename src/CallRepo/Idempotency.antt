-- ===== src/CallRepo/Idempotency.antt =====
-- A second creation under an idempotency key that is taken.
use mathlib.Core.Option
use smart_dialerss.Prelude.{
  ℕ, ◌≡◌, ◌∙◌, refl, sym, Bool, false, ◌&&◌, some, ◌==◌, if◌then◌else◌, arith, Option-cases, inl,
  inr,
}
use smart_dialerss.Models.{Call, IdempotencyKey, build_idempotency_key, key_eq, same_key_iff}
use smart_dialerss.CallRepo.{CallCollection, call_clash, derive, new_call, create_call}

clash_same_key : (n c : Call) → call_clash n c ≡ false → n.idempotency_key ≡ c.idempotency_key → ⊥
clash_same_key n c h same =
    ground (arith, (same_key_iff n.idempotency_key c.idempotency_key).1 same)

and_false_left : {A : Type 0} (b c : Bool) (x y : A) → b ≡ false → (if b && c then x else y) ≡ y
and_false_left b c x y h = ground arith

module _ (calls : CallCollection) where
  open calls use {State, find_one}

  refused :
      (s : State) (n c : Call)
      → find_one s c.id ≡ some c
      → n.idempotency_key ≡ c.idempotency_key
      → (calls.insert_one s n).0 ≡ false
  refused s n c here same = elim (Option-cases (calls.find_one_where s (call_clash n))) [
    | inl nothing ↦
        absurd
          (clash_same_key n c (calls.find_one_where_none s (call_clash n) c.id c nothing here) same)
    | inr (d, found) ↦ calls.insert_result s n ∙ rw found refl
  ]

  key_found :
      (s : State) (c : Call) (key : IdempotencyKey)
      → find_one s c.id ≡ some c
      → c.idempotency_key ≡ key
      → (d : Call) × (Option.map derive (calls.find_one_where s (λ e. e.idempotency_key == key))
          ≡ some d)
        × (d.idempotency_key ≡ c.idempotency_key)
  unfolding derive
  key_found s c key here same =
      let p = λ (e : Call). e.idempotency_key == key in
      elim (Option-cases (calls.find_one_where s p)) [
        | inl nothing ↦ absurd (
            ground (
              arith,
              calls.find_one_where_none s p c.id c nothing here,
              (same_key_iff c.idempotency_key key).1 same,
            ))
        | inr (d, found) ↦ (
          derive d,
          rw found refl,
          (same_key_iff d.idempotency_key key).0 (calls.find_one_where_some s p d found).0
              ∙ sym same,
        )
      ]

  -- If a stored call has the key, then the creation stores nothing, and returns a call with that key
  -- in place of a new one.
  pub create_call-taken :
      (s : State) (c : Call) (id now campaign_id agent_id borrower_id provider worker attempt : ℕ)
      → find_one s c.id ≡ some c
      → c.idempotency_key ≡ build_idempotency_key campaign_id agent_id borrower_id attempt
      → let r =
          create_call calls s id now campaign_id agent_id borrower_id provider worker attempt in
        ((k : ℕ) → find_one r.1 k ≡ find_one s k)
        × (d : Call) × (r.0 ≡ some d)
        × (d.idempotency_key ≡ c.idempotency_key)
  unfolding create_call
  create_call-taken s c id now campaign_id agent_id borrower_id provider worker attempt here same =
      let n = new_call id now campaign_id agent_id borrower_id provider worker attempt in
      let no = refused s n c here (unfold new_call derive in sym same) in
      let unchanged : (k : ℕ) → find_one (calls.insert_one s n).1 k ≡ find_one s k =
        λ k. calls.insert_stored s n k ∙ and_false_left _ _ _ _ no in
      let (d, found, key) =
        key_found (calls.insert_one s n).1 c n.idempotency_key (unchanged c.id ∙ here)
          (unfold new_call derive in same) in
      rw (no, create_call) ((unchanged, d, found, key))
