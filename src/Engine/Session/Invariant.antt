-- ===== src/Engine/Session/Invariant.antt =====
-- The invariant of a derived session: what its counters count, and what its commitment fields hold
-- in each state.
pub mod Phase
pub mod Tally
pub mod Counting
use ghost_bazaar.Prelude.{
  ℕ, zero, suc, ◌<◌, String, ◌≡◌, List, [], ◌∷◌, ◌++◌, Option, none, some, ◌⊎◌, length, All, any,
  count, find, true,
}
use ghost_bazaar.Prelude.Dict.{lookup}
use ghost_bazaar.Engine.Types.{
  SessionState, open_state, negotiating, commit_pending, committed, expired, cancelled,
}
use ghost_bazaar.Engine.Session.{
  DerivedSession, RecordedOffer, RecordedCounter, or_zero, has_seller, has_offer_id,
}

-- No quote is being committed.
abbrev pub IsUncommitted : DerivedSession → Type 0
IsUncommitted s =
    (s.selected_seller ≡ none)
    × (s.selected_offer_id ≡ none)
    × (s.unsigned_quote ≡ none)
    × (s.buyer_signature ≡ none)
    × (s.seller_signature ≡ none)
    × (s.commit_pending_at ≡ none)

-- A recorded offer of the selected seller is selected.
abbrev pub HasSelection : DerivedSession → Type 0
HasSelection s =
    (offer_id at : String) × (o : RecordedOffer) × (s.selected_seller ≡ some o.seller)
    × (s.selected_offer_id ≡ some offer_id)
    × (find (has_offer_id offer_id) s.offers ≡ some o)
    × (s.commit_pending_at ≡ some at)

abbrev pub PhaseAt : SessionState → DerivedSession → Type 0
PhaseAt open_state s = IsUncommitted s × (s.offers ≡ []) × (s.counters ≡ [])
PhaseAt negotiating s = IsUncommitted s × (0 < length s.offers)
PhaseAt commit_pending s = HasSelection s × (s.seller_signature ≡ none) × (0 < length s.offers)
PhaseAt committed s = HasSelection s × ((x : String) × (s.seller_signature ≡ some x))
PhaseAt expired s = (IsUncommitted s ⊎ HasSelection s) × (s.seller_signature ≡ none)
PhaseAt cancelled s = IsUncommitted s

-- A counter-offer goes from the buyer to a seller that has an offer.
abbrev pub IsAllowedCounter : DerivedSession → RecordedCounter → Type 0
IsAllowedCounter s c = (c.from ≡ s.rfq.buyer) × (any (has_seller c.to) s.offers ≡ true)

pub record IsCounted (s : DerivedSession) : Type 0 where
  pub offers_counted : s.total_offer_count ≡ length s.offers
  pub accepts_counted : s.total_accept_attempts ≡ s.quote_revision
  pub offers_by_seller :
      (seller : String)
      → or_zero (lookup seller s.offer_count_by_seller) ≡ count (has_seller seller) s.offers
  pub counters_allowed : All (IsAllowedCounter s) s.counters
