-- ===== src/Store/Claims.antt =====
-- A loop that tries one document after another with `find_one_and_update` until one is returned.
use mathlib.Core.Path.{subst}
use smart_dialerss.Prelude.{◌≡◌, ◌∙◌, sym, ap, Bool, true, false, Option, none, some, Eq}
use smart_dialerss.Store.{Collection}
use smart_dialerss.Store.Laws.{update-unmatched, update-won, update-found, update-other}

module _ {K D : Type 0} {e : Eq K} {key : D → K} {clash : D → D → Bool}
    (db : Collection e key clash) (p : D → Bool) (R : D → D → Type 0) where
  -- From the state `s` to `s'` the loop took nothing, or one document `c` that passed the filter, which
  -- it left as `d` with `R c d`; every other document is as it was.
  abbrev pub Claims : db.State → db.State → Option D → Type 0
  Claims s s' none = (j : K) → db.find_one s' j ≡ db.find_one s j
  Claims s s' (some d) =
      (c : D) × (db.find_one s (key c) ≡ some c)
      × (p c ≡ true)
      × R c d
      × (key d ≡ key c)
      × (db.find_one s' (key d) ≡ some d)
      × ((j : K) → e.beq (key c) j ≡ false → db.find_one s' j ≡ db.find_one s j)

  pub update-misses :
      (s : db.State) (k : K) (f : D → D)
      → ((d : D) → key (f d) ≡ key d)
      → (db.find_one_and_update s k p f).0 ≡ none
      → (j : K) → db.find_one (db.find_one_and_update s k p f).1 j ≡ db.find_one s j
  update-misses s k f same_key missed = update-unmatched db s k p f same_key missed

  pub update-Claims :
      (s : db.State) (k : K) (f : D → D)
      → ((d : D) → key (f d) ≡ key d)
      → ((c : D) → R c (f c))
      → (d : D) → (db.find_one_and_update s k p f).0 ≡ some d
      → Claims s (db.find_one_and_update s k p f).1 (some d)
  update-Claims s k f same_key r d won =
      let (c, here, passes, is) = update-won db s k p f d won in
      let at_key = db.find_one_key s k c here in
      let d_key : key d ≡ key c = ap key is ∙ same_key c in
      (
        c,
        ap (db.find_one s) at_key ∙ here,
        passes,
        subst (R c) (sym is) (r c),
        d_key,
        ap (db.find_one (db.find_one_and_update s k p f).1) (d_key ∙ at_key)
            ∙ update-found db s k p f same_key d won,
        λ j other. update-other db s k p f same_key j (rw (← at_key) other),
      )

  pub Claims-after :
      {s t : db.State} (u : db.State) (o : Option D)
      → ((j : K) → db.find_one t j ≡ db.find_one s j)
      → Claims t u o
      → Claims s u o
  Claims-after u none same h = λ j. h j ∙ same j
  Claims-after u (some d) same (c, here, passes, r, d_key, found, others) =
      (c, sym (same (key c)) ∙ here, passes, r, d_key, found, λ j other. others j other ∙ same j)

-- A filter that passes more may take the filter's place.
pub Claims-weaken :
    {K D : Type 0} {e : Eq K} {key : D → K} {clash : D → D → Bool} (db : Collection e key clash)
    (p q : D → Bool) (R : D → D → Type 0)
    → ((d : D) → p d ≡ true → q d ≡ true)
    → (s t : db.State) (o : Option D) → Claims db p R s t o
    → Claims db q R s t o
Claims-weaken db p q R weaker s t none h = h
Claims-weaken db p q R weaker s t (some d) (c, here, passes, r, same, found, others) =
    (c, here, weaker c passes, r, same, found, others)
