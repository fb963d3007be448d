-- ===== src/Engine/Routes/Limits.antt =====
-- The limits of a session: how many offers and accepts it may see, that offer ids are not used twice
-- and that the rounds of the counter-offers rise.
pub mod Events
pub mod Kept
use ghost_bazaar.Prelude.{
  ℕ, zero, suc, max, ◌+◌, ◌<◌, ◌≤◌, ltb, String, ◌===◌, ===_iff, ◌≡◌, refl, sym, ap, ◌∙◌, arith,
  Bool, true, false, List, [], ◌∷◌, ◌++◌, any, any-append, ◌||◌, if◌then◌else◌,
}
use ghost_bazaar.Prelude.Dict.{Dict, lookup}
use ghost_bazaar.Engine.Session.{
  DerivedSession, RecordedOffer, RecordedCounter, or_zero, bump, has_offer_id,
}
use ghost_bazaar.Engine.Session.Invariant.Tally.{lookup-bump}
use ghost_bazaar.Engine.Routes.Offers.{max_offers_per_session, max_offers_per_seller}
use ghost_bazaar.Engine.Routes.Counters.{max_round}
use ghost_bazaar.Engine.Routes.Accept.{max_accepts_per_session, max_accepts_per_seller}

-- No later offer has the id of an earlier one.
abbrev pub HasDistinctIds : List RecordedOffer → Type 0
HasDistinctIds [] = Unit
HasDistinctIds (o ∷ os) = (any (has_offer_id o.offer_id) os ≡ false) × HasDistinctIds os

-- Each round is higher than `n` and the rounds before it.
abbrev pub IsRising : ℕ → List RecordedCounter → Type 0
IsRising n [] = Unit
IsRising n (c ∷ cs) = (n < c.round) × IsRising c.round cs

-- The limits, as a statement about the fields that they are about.
pub record IsWithin (offers : List RecordedOffer) (counters : List RecordedCounter) (total : ℕ)
    (by_seller : Dict ℕ) (accepts : ℕ) (accepts_by_seller : Dict ℕ) : Type 0 where
  pub offers_total : total ≤ max_offers_per_session
  pub offers_each : (seller : String) → or_zero (lookup seller by_seller) ≤ max_offers_per_seller
  pub accepts_total : accepts ≤ max_accepts_per_session
  pub accepts_each :
      (seller : String) → or_zero (lookup seller accepts_by_seller) ≤ max_accepts_per_seller
  pub ids_distinct : HasDistinctIds offers
  pub rounds_rise : IsRising 0 counters

abbrev pub IsWithinLimits : DerivedSession → Type 0
IsWithinLimits s =
    IsWithin s.offers s.counters s.total_offer_count s.offer_count_by_seller s.total_accept_attempts
      s.accept_attempts_by_seller

pub HasDistinctIds-snoc :
    (os : List RecordedOffer) (o : RecordedOffer)
    → HasDistinctIds os
    → any (has_offer_id o.offer_id) os ≡ false
    → HasDistinctIds (os ++ o ∷ [])
unfolding any
HasDistinctIds-snoc [] o h new = (refl, tt)
HasDistinctIds-snoc (p ∷ os) o h new = (
  ground (
    arith,
    h.0,
    any-append (has_offer_id p.offer_id) os (o ∷ []),
    ===_iff p.offer_id o.offer_id,
    ===_iff o.offer_id p.offer_id,
  ),
  HasDistinctIds-snoc os o h.1 (ground arith),
)

pub IsRising-snoc :
    (n : ℕ) (cs : List RecordedCounter) (c : RecordedCounter)
    → IsRising n cs
    → ltb (max_round n cs) c.round ≡ true
    → IsRising n (cs ++ c ∷ [])
unfolding max_round
IsRising-snoc n [] c h higher = (ground arith, tt)
IsRising-snoc n (d ∷ cs) c h higher =
    let highest : max n d.round ≡ d.round = ground (arith, h.0) in
    (h.0, IsRising-snoc d.round cs c h.1 (rw highest at higher))

pub bump-bounded :
    (limit : ℕ) (k : String) (m : Dict ℕ)
    → ltb (or_zero (lookup k m)) limit ≡ true
    → ((j : String) → or_zero (lookup j m) ≤ limit)
    → (j : String) → or_zero (lookup j (bump k m)) ≤ limit
bump-bounded limit k m room h j = ground (arith, lookup-bump k j m, ===_iff k j, room, h j)
