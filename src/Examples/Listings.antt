-- ===== src/Examples/Listings.antt =====
-- A store to which one listing is added twice, its registry id with leading zeros.
use ghost_bazaar.Prelude.{◌≡◌, ◌≤◌, refl, ◌===◌, List, [], ◌∷◌, some, length}
use ghost_bazaar.Prelude.Dict.{lookup, insert}
use ghost_bazaar.Prelude.Text.{is_blank}
use ghost_bazaar.Engine.ListingStore.{
  Listing, add, normalize_listing_for_storage, normalize_agent_id, strip_zeros, all_of_digits,
  is_https_url, find_by_seller_and_id, max_listings,
}
use ghost_bazaar.Engine.ListingStore.Valid.{IsValid, add_all, found_listing-IsValid}
use ghost_bazaar.Examples.World.{world, seller, listing}

abbrev attempts : List Listing
attempts = listing ∷ record listing { registry_agent_id = some "0042" } ∷ []

found_listing-IsValid_example :
    (listing.listing_id ≡ "listing-1")
    × (listing.seller ≡ seller)
    × IsValid world listing
    × (length (add_all world attempts) ≤ max_listings)
unfolding add_all add normalize_listing_for_storage normalize_agent_id strip_zeros all_of_digits
    is_https_url is_blank find_by_seller_and_id lookup insert ◌===◌
found_listing-IsValid_example = found_listing-IsValid world attempts seller "listing-1" listing refl
