-- ===== src/Examples/Streams.antt =====
-- A session of ten sellers' streams, and its buyer.
use ghost_bazaar.Prelude.{
  ℕ, ◌≡◌, ◌≤◌, refl, String, ◌===◌, arith, true, false, find, keep, count, List, [], ◌∷◌, some, All,
}
use ghost_bazaar.Prelude.Dict.{lookup, insert}
use ghost_bazaar.Engine.ConnectionTracker.{
  ConnectionTracker, Request, acquire, add_record, close_record, remove_record, get_record,
  count_for_did, count_for_session, find_oldest_non_buyer, oldest_of, older, release, empty_tracker,
  max_per_did, max_per_session,
}
use ghost_bazaar.Engine.ConnectionTracker.Limits.{
  Usage, acquired, released, use_once, use_all, streams_are_limited,
}
use ghost_bazaar.Engine.ConnectionTracker.Reserved.{
  IsEvicting, IsTrue, buyer_gets_in, evicted_is_oldest,
}

abbrev buyer_of : String → String
buyer_of k = "buyer"

abbrev from : String → Request
from d = record { rfq_id = "r"; caller_did = d; is_buyer = false }

abbrev from_buyer : Request
from_buyer = record { rfq_id = "r"; caller_did = "buyer"; is_buyer = true }

-- Stream 1 has ended, and the first caller has come again.
abbrev usages : List Usage
usages =
    acquired (from "a") 1
    ∷ acquired (from "a") 2
    ∷ acquired (from "a") 3
    ∷ acquired (from "a") 4
    ∷ acquired (from "b") 5
    ∷ acquired (from "b") 6
    ∷ acquired (from "b") 7
    ∷ acquired (from "c") 8
    ∷ acquired (from "c") 9
    ∷ acquired (from "c") 10
    ∷ acquired (from "d") 11
    ∷ released 1
    ∷ acquired (from "a") 12
    ∷ []

abbrev full : ConnectionTracker
full = use_all usages empty_tracker

usages-IsTrue : All (IsTrue buyer_of) usages
unfolding ◌===◌
usages-IsTrue = (
  refl,
  (refl, (refl, (refl, (refl, (refl, (refl, (refl, (refl, (refl, (refl, (tt, (refl, tt)))))))))))),
)

session_is_full : count_for_session "r" full ≡ 10
unfolding count_for_session use_all use_once acquire add_record get_record count_for_did release
    remove_record empty_tracker find keep count lookup insert ◌===◌
session_is_full = refl

streams_are_limited_example :
    (count_for_session "r" full ≤ max_per_session) × (count_for_did "r" "a" full ≤ max_per_did)
streams_are_limited_example = streams_are_limited usages "r" "a"

buyer_gets_in_example : (id : ℕ) × ((acquire from_buyer 20 full).0 ≡ some id)
unfolding count_for_session use_all use_once acquire add_record get_record count_for_did release
    remove_record empty_tracker find keep count lookup insert ◌===◌
buyer_gets_in_example =
    buyer_gets_in buyer_of usages from_buyer 20 usages-IsTrue refl refl (omega arith)

abbrev after : ConnectionTracker
after = (acquire from_buyer 20 full).1

evicted_is_oldest_example : IsEvicting from_buyer full after
unfolding count_for_session use_all use_once acquire add_record get_record count_for_did release
    remove_record close_record find_oldest_non_buyer oldest_of older empty_tracker find keep count
    lookup insert ◌===◌
evicted_is_oldest_example = evicted_is_oldest usages from_buyer 20 12 after (omega arith) refl
