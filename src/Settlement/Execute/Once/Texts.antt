-- ===== src/Settlement/Execute/Once/Texts.antt =====
-- The set of nonces of packages/settlement/src/nonce.ts, seen as the list of the texts in it.
use ghost_bazaar.Prelude.{
  String, ◌===◌, ===_iff, ===_refl, ◌≡◌, refl, ap, subst, Bool, true, false, ◌||◌, Bool-cases, List,
  [], ◌∷◌, ◌++◌, any, Option, none, some, ◌⊎◌, if_holds, inl, inr, arith, if◌then◌else◌,
}
use ghost_bazaar.Prelude.Json.{Value, null, boolean, num, str, arr, obj, as_string}
use ghost_bazaar.Settlement.{is_nonce_consumed, consume_nonce}

abbrev pub holds : String → List String → Bool
holds id ids = any (λ q. q === id) ids

abbrev pub with_text : String → List String → List String
with_text id ids = if holds id ids then ids else id ∷ ids

-- The ids that are texts.
abbrev pub texts : List (Option Value) → List String
texts [] = []
texts (some (str id) ∷ ids) = id ∷ texts ids
texts (_ ∷ ids) = texts ids

pub texts-append : (vs ws : List (Option Value)) → texts (vs ++ ws) ≡ texts vs ++ texts ws
texts-append [] ws = refl
texts-append (some (str id) ∷ vs) ws = ap (◌∷◌ id) (texts-append vs ws)
texts-append (none ∷ vs) ws = texts-append vs ws
texts-append (some null ∷ vs) ws = texts-append vs ws
texts-append (some (boolean b) ∷ vs) ws = texts-append vs ws
texts-append (some (num n) ∷ vs) ws = texts-append vs ws
texts-append (some (arr xs) ∷ vs) ws = texts-append vs ws
texts-append (some (obj p) ∷ vs) ws = texts-append vs ws

-- A text is in the set if it is among the texts of the set.
pub is_nonce_consumed-holds :
    (id : String) (vs : List (Option Value))
    → is_nonce_consumed (some (str id)) vs ≡ holds id (texts vs)
unfolding is_nonce_consumed any
is_nonce_consumed-holds id [] = refl
is_nonce_consumed-holds id (some (str j) ∷ vs) =
    ap (◌||◌ (j === id)) (is_nonce_consumed-holds id vs)
is_nonce_consumed-holds id (none ∷ vs) = is_nonce_consumed-holds id vs
is_nonce_consumed-holds id (some null ∷ vs) = is_nonce_consumed-holds id vs
is_nonce_consumed-holds id (some (boolean true) ∷ vs) = is_nonce_consumed-holds id vs
is_nonce_consumed-holds id (some (boolean false) ∷ vs) = is_nonce_consumed-holds id vs
is_nonce_consumed-holds id (some (num n) ∷ vs) = is_nonce_consumed-holds id vs
is_nonce_consumed-holds id (some (arr xs) ∷ vs) = is_nonce_consumed-holds id vs
is_nonce_consumed-holds id (some (obj p) ∷ vs) = is_nonce_consumed-holds id vs

pub texts-consume :
    (id : String) (vs : List (Option Value))
    → texts (consume_nonce (some (str id)) vs) ≡ with_text id (texts vs)
unfolding consume_nonce
texts-consume id vs = elim (Bool-cases (holds id (texts vs))) [
  | inl old ↦ rw (is_nonce_consumed-holds id vs, old) refl
  | inr new ↦ rw (is_nonce_consumed-holds id vs, new) refl
]

-- An id that is no text leaves the texts alone.
pub texts-other :
    (v : Option Value) (vs : List (Option Value)) → as_string v ≡ none → texts (v ∷ vs) ≡ texts vs
texts-other none vs h = refl
texts-other (some (str id)) vs h = absurd (cc)
texts-other (some null) vs h = refl
texts-other (some (boolean b)) vs h = refl
texts-other (some (num n)) vs h = refl
texts-other (some (arr xs)) vs h = refl
texts-other (some (obj p)) vs h = refl

pub texts-consume_other :
    (v : Option Value) (vs : List (Option Value))
    → as_string v ≡ none
    → texts (consume_nonce v vs) ≡ texts vs
unfolding consume_nonce
texts-consume_other v vs h =
    if_holds (λ ws. texts ws ≡ texts vs) (is_nonce_consumed v vs) (λ _. refl)
      (λ _. texts-other v vs h)

pub text_or_other :
    (v : Option Value) → ((id : String) × (v ≡ some (str id))) ⊎ (as_string v ≡ none)
text_or_other (some (str id)) = inl (id, refl)
text_or_other none = inr refl
text_or_other (some null) = inr refl
text_or_other (some (boolean b)) = inr refl
text_or_other (some (num n)) = inr refl
text_or_other (some (arr xs)) = inr refl
text_or_other (some (obj p)) = inr refl

-- No text occurs twice.
abbrev pub IsDistinct : List String → Type 0
IsDistinct [] = Unit
IsDistinct (a ∷ rest) = (holds a rest ≡ false) × IsDistinct rest

pub is_consumed-middle :
    (j a : String) (front back : List String)
    → holds j (front ++ a ∷ back) ≡ (a === j || holds j (front ++ back))
unfolding any
is_consumed-middle j a [] back = refl
is_consumed-middle j a (b ∷ front) back = ground (arith, is_consumed-middle j a front back)

pub IsDistinct-middle :
    (a : String) (front back : List String)
    → IsDistinct (front ++ a ∷ back)
    → IsDistinct (front ++ back) × (holds a (front ++ back) ≡ false)
unfolding any
IsDistinct-middle a [] back h = (h.1, h.0)
IsDistinct-middle a (b ∷ front) back (new, h) =
    let (rest, other) = IsDistinct-middle a front back h in
    ground (arith, is_consumed-middle b a front back, ===_iff a b, ===_iff b a)

pub is_consumed-consume :
    (j a : String) (consumed : List String)
    → holds j (with_text a consumed) ≡ (a === j || holds j consumed)
unfolding any
is_consumed-consume j a consumed = elim (Bool-cases (holds a consumed)) [
  | inr new ↦ rw new refl
  | inl old ↦ elim (Bool-cases (a === j)) [
    | inl same ↦
        rw (old, same) (subst (λ i. any (λ q. q === i) consumed ≡ true) ((===_iff a j).0 same) old)
    | inr other ↦ rw (old, other) refl
  ]
]

-- What is completed is consumed, what runs is not, and neither holds an id twice.
pub record AreOnce (consumed running completed : List String) : Type 0 where
  pub done_consumed : (id : String) → holds id consumed ≡ false → holds id completed ≡ false
  pub done_once : IsDistinct completed
  pub running_unused : (id : String) → holds id running ≡ true → holds id consumed ≡ false
  pub running_once : IsDistinct running

pub AreOnce-completed :
    (consumed front back completed : List String) (a : String)
    → AreOnce consumed (front ++ a ∷ back) completed
    → AreOnce (with_text a consumed) (front ++ back) (a ∷ completed)
unfolding any
AreOnce-completed consumed front back completed a o =
    let (rest, alone) = IsDistinct-middle a front back o.running_once in
    let ran : holds a (front ++ a ∷ back) ≡ true =
      rw (is_consumed-middle a a front back, ===_refl a) refl in
    record {
      done_consumed = λ id h. ground (arith, is_consumed-consume id a consumed, o.done_consumed id);
      done_once = (o.done_consumed a (o.running_unused a ran), o.done_once);
      running_unused = λ id h. ground (
        arith,
        is_consumed-consume id a consumed,
        is_consumed-middle id a front back,
        o.running_unused id,
        ===_iff a id,
      );
      running_once = rest;
    }

pub AreOnce-failed :
    (consumed front back completed : List String) (a : String)
    → AreOnce consumed (front ++ a ∷ back) completed
    → AreOnce consumed (front ++ back) completed
AreOnce-failed consumed front back completed a o = record {
  done_consumed = o.done_consumed;
  done_once = o.done_once;
  running_unused = λ id h. ground (arith, is_consumed-middle id a front back, o.running_unused id);
  running_once = (IsDistinct-middle a front back o.running_once).0;
}

pub AreOnce-admitted :
    (consumed running completed : List String) (a : String)
    → holds a running ≡ false
    → holds a consumed ≡ false
    → AreOnce consumed running completed
    → AreOnce consumed (a ∷ running) completed
unfolding any
AreOnce-admitted consumed running completed a alone unused o = record {
  done_consumed = o.done_consumed;
  done_once = o.done_once;
  running_unused = λ id h. ground (arith, o.running_unused id, ===_iff a id);
  running_once = (alone, o.running_once);
}
