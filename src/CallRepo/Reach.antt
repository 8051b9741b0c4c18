-- ===== src/CallRepo/Reach.antt =====
-- The states of the calls collection that its writes lead to.
use Prim.Native.String.{String}
use smart_dialerss.Prelude.{ℕ, ◌≡◌, ◌∙◌, refl, sym, ap, List, [], ◌∷◌, ◌++◌, Option}
use mathlib.Core.Path.{subst}
use smart_dialerss.Enums.{CallState}
use smart_dialerss.CallRepo.{CallCollection, create_call, transition_call, attach_provider_call_id}
use smart_dialerss.CallRepo.Progress.{Write, creates, transitions, attaches_id, perform, run}

module _ (calls : CallCollection) where
  -- Some sequence of creations, transitions and attachments leads from the one state to the other.
  pub record Reaches (s s' : calls.State) : Type 0 where
    pub steps : List (ℕ × Write)
    pub leads : run calls s steps ≡ s'

  pub Reaches-refl : (s : calls.State) → Reaches s s
  unfolding run
  Reaches-refl s = record { steps = []; leads = refl }

  run-append :
      (steps rest : List (ℕ × Write)) (s : calls.State)
      → run calls s (steps ++ rest) ≡ run calls (run calls s steps) rest
  unfolding run
  run-append [] rest s = refl
  run-append ((now, w) ∷ steps) rest s = run-append steps rest (perform calls s now w)

  pub Reaches-trans : {s t u : calls.State} → Reaches s t → Reaches t u → Reaches s u
  Reaches-trans {s} {t} {u} h k = record {
    steps = h.steps ++ k.steps;
    leads = run-append h.steps k.steps s ∙ ap (λ x. run calls x k.steps) h.leads ∙ k.leads;
  }

  pub Reaches-eq : {s t : calls.State} → t ≡ s → Reaches s t
  Reaches-eq {s} {t} h = subst (Reaches s) (sym h) (Reaches-refl s)

  pub transition_call-Reaches :
      (s : calls.State) (now call_id : ℕ) (target : CallState) (reason : Option String)
      → Reaches s (transition_call calls s now call_id target reason).1
  unfolding run perform
  transition_call-Reaches s now call_id target reason = record {
    steps = (now, transitions call_id target reason) ∷ [];
    leads = refl;
  }

  pub create_call-Reaches :
      (s : calls.State)
      (id now campaign_id agent_id borrower_id provider_name worker_id attempt : ℕ)
      → Reaches s
          (create_call calls s id now campaign_id agent_id borrower_id provider_name worker_id
            attempt).1
  unfolding run perform
  create_call-Reaches s id now campaign_id agent_id borrower_id provider_name worker_id attempt =
      record {
        steps =
            (
              now,
              creates (record {
                id = id;
                campaign_id = campaign_id;
                agent_id = agent_id;
                borrower_id = borrower_id;
                provider_name = provider_name;
                worker_id = worker_id;
                attempt = attempt;
              }),
            )
            ∷ [];
        leads = refl;
      }

  pub attach-Reaches :
      (s : calls.State) (now call_id provider_call_id : ℕ)
      → Reaches s (attach_provider_call_id calls s now call_id provider_call_id).1
  unfolding run perform
  attach-Reaches s now call_id provider_call_id = record {
    steps = (now, attaches_id call_id provider_call_id) ∷ [];
    leads = refl;
  }
