-- ===== src/Engine/ListingStore/Valid.antt =====
-- packages/engine/src/registry/listing-store.ts: what the offer route finds in the store.
use ghost_bazaar.Prelude.{
  String, ◌===◌, ◌==◌, ===_iff, ltb, true, false, ◌&&◌, not, Bool-cases, Option-cases, Result-cases,
  List, [], ◌∷◌, Option, none, some, length, ◌≡◌, refl, sym, ap, ◌∙◌, subst, ◌≤◌, inl, inr, Result,
  ok, err, or_throw, >>=-eq-ok, require-eq-ok, arith,
}
use ghost_bazaar.Prelude.Dict.{Dict, lookup, insert, lookup-insert, length-insert-le}
use ghost_bazaar.Prelude.Text.{codes, is_blank}
use ghost_bazaar.Core.External.{Externals}
use ghost_bazaar.Engine.Session.Inversion.{or_throw-eq-ok}
use ghost_bazaar.Engine.ListingStore.{
  Listing, ListingError, invalid_registry_agent_id, max_listings, is_https_url, strip_zeros,
  all_of_digits, is_nil, normalize_agent_id, normalize_binding, normalize_listing_for_storage,
  is_absent, add, find_by_seller_and_id,
}
use Prim.Native.Char.{code}

strip_zeros-strip_zeros : (s : String) → strip_zeros (strip_zeros s) ≡ strip_zeros s
unfolding strip_zeros
strip_zeros-strip_zeros String.[] = refl
strip_zeros-strip_zeros (String.◌∷◌ c s) = elim (Bool-cases (code c == b'0')) [
  | inl y ↦ rw y (strip_zeros-strip_zeros s)
  | inr n ↦ rw (n, strip_zeros, n) refl
]

all_of_digits-strip_zeros :
    (s : String) → all_of_digits s ≡ true → all_of_digits (strip_zeros s) ≡ true
unfolding strip_zeros all_of_digits
all_of_digits-strip_zeros String.[] h = refl
all_of_digits-strip_zeros (String.◌∷◌ c s) h = elim (Bool-cases (code c == b'0')) [
  | inl y ↦ rw y (all_of_digits-strip_zeros s (ground (arith, h)))
  | inr n ↦ rw n h
]

-- Digits without a leading zero, and at least one of them.
abbrev pub IsNormal : Option String → Type 0
IsNormal none = Unit
IsNormal (some s) = (is_nil s ≡ false) × (all_of_digits s ≡ true) × (strip_zeros s ≡ s)

normalize_agent_id-IsNormal :
    {E : Type 0} (e : E) (s n : String) → normalize_agent_id e s ≡ ok n → IsNormal (some n)
unfolding normalize_agent_id
normalize_agent_id-IsNormal e s n h =
    let (_, h₁) = require-eq-ok (not (is_blank (codes s))) _ _ h in
    let (digits, h₂) = require-eq-ok (not (is_nil s) && all_of_digits s) _ _ h₁ in
    let (positive, h₃) = require-eq-ok (not (is_nil (strip_zeros s))) _ _ h₂ in
    let same : strip_zeros s ≡ n = cc in
    subst (λ i. IsNormal (some i)) same
      (
        ground (arith, positive),
        all_of_digits-strip_zeros s (ground (arith, digits)),
        strip_zeros-strip_zeros s,
      )

module _ (x : Externals) where
  -- What the store asks of a listing.
  pub record IsValid (l : Listing) : Type 0 where
    pub named : (l.listing_id === "") ≡ false
    pub key : String
    pub keyed : x.did_to_public_key l.seller ≡ some key
    pub negotiates : is_https_url l.negotiation_endpoint ≡ true
    pub is_paid : is_https_url l.payment_endpoint ≡ true
    pub serves : (l.service_type === "") ≡ false
    pub bound : IsNormal l.registry_agent_id

  -- The listing with a normal id, and as it was in all else.
  normalize_binding-IsNormal :
      (l : Listing) (o : Option String) (n : Listing)
      → l.registry_agent_id ≡ o
      → normalize_binding l o ≡ ok n
      → (p : Option String) × ((record l { registry_agent_id = p } ≡ n) × IsNormal p)
  normalize_binding-IsNormal l none n e h = (l.registry_agent_id, (cc, subst IsNormal (sym e) tt))
  normalize_binding-IsNormal l (some id) n e h =
      elim (Result-cases (normalize_agent_id invalid_registry_agent_id id)) [
        | inr (f, p) ↦ absurd (let q = rw p at h in cc)
        | inl (i, p) ↦
            let q = rw p at h in
            (some i, (cc, normalize_agent_id-IsNormal invalid_registry_agent_id id i p))
      ]

  normalize-IsValid : (l n : Listing) → normalize_listing_for_storage x l ≡ ok n → IsValid n
  unfolding normalize_listing_for_storage
  normalize-IsValid l n h =
      let (named, h₁) = require-eq-ok (not (l.listing_id === "")) _ _ h in
      let (key, keyed, h₂) = >>=-eq-ok (or_throw (x.did_to_public_key l.seller) _) _ h₁ in
      let (negotiates, h₃) = require-eq-ok (is_https_url l.negotiation_endpoint) _ _ h₂ in
      let (paid, h₄) = require-eq-ok (is_https_url l.payment_endpoint) _ _ h₃ in
      let (serves, h₅) = require-eq-ok (not (l.service_type === "")) _ _ h₄ in
      let (p, (same, bound)) = normalize_binding-IsNormal l l.registry_agent_id n refl h₅ in
      subst IsValid same (record {
        named = ground (arith, named);
        key = key;
        keyed = or_throw-eq-ok _ _ keyed;
        negotiates = negotiates;
        is_paid = paid;
        serves = ground (arith, serves);
        bound = bound;
      })

  -- A store that holds at most `max_listings` valid listings, each under its id.
  abbrev IsStore : Dict Listing → Type 0
  IsStore m =
      (length m ≤ max_listings)
      × ((k : String) (l : Listing) → lookup k m ≡ some l → (l.listing_id ≡ k) × IsValid l)

  add-IsStore : (l : Listing) (m n : Dict Listing) → add x l m ≡ ok n → IsStore m → IsStore n
  unfolding add
  add-IsStore l m n h (few, valid) =
      let (room, h₁) = require-eq-ok (ltb (length m) max_listings) _ _ h in
      let (v, normalized, h₂) = >>=-eq-ok (normalize_listing_for_storage x l) _ h₁ in
      let (_, h₃) = require-eq-ok (is_absent (lookup v.listing_id m)) _ _ h₂ in
      let same : insert v.listing_id v m ≡ n = cc in
      subst IsStore same (
        ground (arith, room, length-insert-le v.listing_id v m),
        λ k c found. elim (Bool-cases (v.listing_id === k)) [
          | inl y ↦
              let at : some v ≡ some c =
                ground (arith, lookup-insert v.listing_id k v m, found, y) in
              let is : v ≡ c = cc in
              subst (λ d. (d.listing_id ≡ k) × IsValid d) is
                ((===_iff v.listing_id k).0 y, normalize-IsValid l v normalized)
          | inr y ↦ valid k c (ground (arith, lookup-insert v.listing_id k v m, found, y))
        ],
      )

  abbrev add_or_keep : Dict Listing → Result ListingError (Dict Listing) → Dict Listing
  add_or_keep m (ok n) = n
  add_or_keep m (err e) = m

  -- The store after attempts to add listings, of which the last is the first of the list.
  unfoldable pub add_all : List Listing → Dict Listing
  unfolding add
  add_all [] = []
  add_all (l ∷ ls) = add_or_keep (add_all ls) (add x l (add_all ls))

  add_all-IsStore : (ls : List Listing) → IsStore (add_all ls)
  unfolding add_all lookup
  add_all-IsStore [] = (omega arith, λ k l e. absurd (cc))
  add_all-IsStore (l ∷ ls) = elim (Result-cases (add x l (add_all ls))) [
    | inl (n, p) ↦ rw (add_all, p) (add-IsStore l (add_all ls) n p (add_all-IsStore ls))
    | inr (e, p) ↦ rw (add_all, p) (add_all-IsStore ls)
  ]

  -- Whatever listings are added to an empty store, some of them refused: what findBySellerAndId
  -- finds has the id and the seller that were asked for, a seller with a public key, HTTPS
  -- endpoints, a service type, and a registry id, if any, of digits without leading zeros; and
  -- the store holds at most 10000 listings.
  pub found_listing-IsValid :
      (ls : List Listing) (seller id : String) (l : Listing)
      → find_by_seller_and_id seller id (add_all ls) ≡ some l
      → (l.listing_id ≡ id) × (l.seller ≡ seller) × IsValid l × (length (add_all ls) ≤ max_listings)
  unfolding find_by_seller_and_id
  found_listing-IsValid ls seller id l h =
      let (few, valid) = add_all-IsStore ls in
      elim (Option-cases (lookup id (add_all ls))) [
        | inl e ↦ absurd (let q = rw (find_by_seller_and_id, e) at h in cc)
        | inr (c, e) ↦ elim (Bool-cases (c.seller === seller)) [
          | inr other ↦ absurd (let q = rw (find_by_seller_and_id, e, other) at h in cc)
          | inl own ↦
              let q : some c ≡ some l = rw (find_by_seller_and_id, e, own) at h in
              let is : c ≡ l = cc in
              let (named, v) = valid id c e in
              (
                ap (λ d. d.listing_id) (sym is) ∙ named,
                ap (λ d. d.seller) (sym is) ∙ (===_iff c.seller seller).0 own,
                subst IsValid is v,
                few,
              )
        ]
      ]
