-- ===== src/Store/Laws.antt =====
-- What follows for every collection from the behaviour that the interface asks for.
use smart_dialerss.Prelude.{
  ◌≡◌, ◌∙◌, refl, sym, ap, Bool, true, false, Option, none, some, arith, Eq, Bool-cases, inl, inr,
}
use smart_dialerss.Store.{Collection, matched, modified}

module _ {D : Type 0} (p : D → Bool) (f : D → D) where
  matched-some :
      (o : Option D) (d : D)
      → matched p f o ≡ some d
      → (c : D) × (o ≡ some c) × (p c ≡ true) × (d ≡ f c)
  matched-some none d h = absurd (ground arith)
  matched-some (some c) d h = (c, refl, ground arith, ground arith)

  unmodified : (o : Option D) → matched p f o ≡ none → modified p f o ≡ o
  unmodified none h = refl
  unmodified (some d) h = ground arith

  matched-none : (o : Option D) → ((c : D) → o ≡ some c → p c ≡ false) → matched p f o ≡ none
  matched-none none h = refl
  matched-none (some c) h = rw (h c refl)

module _ {K D : Type 0} {e : Eq K} {key : D → K} {clash : D → D → Bool}
    (db : Collection e key clash) (s : db.State) (k : K) (p : D → Bool) (f : D → D) where
  -- An update that returns a document found one that passed the filter, and returns it updated.
  pub update-won :
      (d : D)
      → (db.find_one_and_update s k p f).0 ≡ some d
      → (c : D) × (db.find_one s k ≡ some c) × (p c ≡ true) × (d ≡ f c)
  update-won d h = matched-some p f (db.find_one s k) d (sym (db.update_result s k p f) ∙ h)

  -- It returns none if the document under the key, if any, fails the filter.
  pub update-lost :
      ((c : D) → db.find_one s k ≡ some c → p c ≡ false) → (db.find_one_and_update s k p f).0 ≡ none
  update-lost h = db.update_result s k p f ∙ matched-none p f (db.find_one s k) h

  -- An update that returns none leaves every document as it was.
  pub update-unmatched :
      ((d : D) → key (f d) ≡ key d)
      → (db.find_one_and_update s k p f).0 ≡ none
      → (j : K) → db.find_one (db.find_one_and_update s k p f).1 j ≡ db.find_one s j
  update-unmatched same_key h j = elim (Bool-cases (e.beq k j)) [
    | inr other ↦ db.update_stored s k p f same_key j ∙ rw other refl
    | inl hit ↦
        db.update_stored s k p f same_key j
        ∙ rw hit (
            unmodified p f (db.find_one s j) (
              ap (λ i. matched p f (db.find_one s i)) (sym ((e.beq_iff k j).0 hit))
              ∙ sym (db.update_result s k p f)
              ∙ h))
  ]

  -- What an update returns is what it stores.
  pub update-found :
      ((d : D) → key (f d) ≡ key d)
      → (d : D) → (db.find_one_and_update s k p f).0 ≡ some d
      → db.find_one (db.find_one_and_update s k p f).1 k ≡ some d
  update-found same_key d h =
      let (c, here, passes, is) = update-won d h in
      db.update_stored s k p f same_key k
      ∙ rw ((e.beq_iff k k).1 refl) (ap (modified p f) here ∙ rw passes (ap some (sym is)))

  -- It leaves every document under another key alone.
  pub update-other :
      ((d : D) → key (f d) ≡ key d)
      → (j : K) → e.beq k j ≡ false
      → db.find_one (db.find_one_and_update s k p f).1 j ≡ db.find_one s j
  update-other same_key j other = db.update_stored s k p f same_key j ∙ rw other

  -- An update whose filter the stored document passes returns and stores the changed document.
  pub update-hits :
      (c : D)
      → ((d : D) → key (f d) ≡ key d)
      → db.find_one s k ≡ some c
      → p c ≡ true
      → ((db.find_one_and_update s k p f).0 ≡ some (f c))
        × (db.find_one (db.find_one_and_update s k p f).1 k ≡ some (f c))
  update-hits c same_key here passes =
      let returned = db.update_result s k p f ∙ ap (matched p f) here ∙ rw passes refl in
      (returned, update-found same_key (f c) returned)
