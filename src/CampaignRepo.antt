-- ===== src/CampaignRepo.antt =====
-- app/repositories/campaign_repo.py over the driver's interface. A stored campaign carries the only
-- field of its pacing configuration that the program reads; its name, its statistics and its dates are
-- left out.
use smart_dialerss.Prelude.{ℕ, Bool, true, false, List, Option, some, none, nat_eq, ◌==◌}
use smart_dialerss.Enums.{CampaignStatus, DialingMode, campaign_status_eq}
use smart_dialerss.Models.{Campaign}
use smart_dialerss.Store.{Collection}
use smart_dialerss.Floats.{Floats}

module _ (floats : Floats) where
  pub record StoredCampaign : Type 0 where
    pub campaign : Campaign
    pub baseline_answer_rate : floats.F

  abbrev pub campaign_clash : StoredCampaign → StoredCampaign → Bool
  campaign_clash a b = a.campaign.id == b.campaign.id

  abbrev pub CampaignCollection : Type 1
  CampaignCollection = Collection nat_eq (λ (c : StoredCampaign). c.campaign.id) campaign_clash

  module _ (campaigns : CampaignCollection) where
    open campaigns use {State, find_one, find, find_one_and_update, insert_one}

    unfoldable pub find_by_id : State → ℕ → Option StoredCampaign
    find_by_id s campaign_id = find_one s campaign_id

    unfoldable pub find_running : State → ℕ → List StoredCampaign
    find_running s limit = find s (λ c. c.campaign.status == CampaignStatus.running) limit

    unfoldable pub find_all : State → ℕ → List StoredCampaign
    find_all s limit = find s (λ c. true) limit

    -- None stands for the exception of a campaign that is stored already.
    unfoldable pub insert : State → StoredCampaign → Option StoredCampaign × State
    insert s c =
        let (inserted, s') = insert_one s c in (elim inserted [ true ↦ some c | false ↦ none ], s')

    unfoldable pub update :
        State → ℕ → (StoredCampaign → StoredCampaign) → Option StoredCampaign × State
    update s campaign_id updates = find_one_and_update s campaign_id (λ c. true) updates

    unfoldable pub set_status : State → ℕ → CampaignStatus → Option StoredCampaign × State
    unfolding update
    set_status s campaign_id status =
        update s campaign_id (λ c. record c { campaign = record c.campaign { status = status } })

    unfoldable pub set_dialing_mode : State → ℕ → DialingMode → Option StoredCampaign × State
    unfolding update
    set_dialing_mode s campaign_id mode =
        update s campaign_id
          (λ c. record c { campaign = record c.campaign { dialing_mode = mode } })
