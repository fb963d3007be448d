-- ===== src/Engine/Routes/Settle/Recorded.antt =====
-- What the settlement routes do to the manager: nothing, or one step by a settlement event in a log that
-- held none.
use ghost_bazaar.Prelude.{
  ℕ, String, ◌≡◌, refl, sym, ap, ◌∙◌, subst, Bool, true, false, List, [], ◌∷◌, ◌++◌, Option, none,
  some, ◌⊎◌, inl, inr, Result, ok, err, or_throw, >>=-eq-ok, require-eq-ok,
}
use ghost_bazaar.Prelude.Dict.{Dict}
use ghost_bazaar.Prelude.Json.{Value, str, Payload, get, as_string}
use ghost_bazaar.Core.External.{Externals}
use ghost_bazaar.Engine.Types.{NegotiationEvent, settlement_confirmed, is_state, committed}
use ghost_bazaar.Engine.Session.{
  DerivedSession, derive_state, is_selected, open_session, is_rfq_created,
}
use ghost_bazaar.Engine.Session.Replay.{derive_state-eq_ok, derive_state-ne_none}
use ghost_bazaar.Engine.EventStore.{get_all_events}
use ghost_bazaar.Engine.SessionManager.{
  SessionManager, ManagerError, get_session, append_event, enter_lock, leave_lock,
}
use ghost_bazaar.Engine.SessionManager.Soundness.{IsSound, append_event-eq_ok}
use ghost_bazaar.Engine.Http.{Failure, Moment, lift}
use ghost_bazaar.Engine.Http.Locked.{
  Advances, append-Advances, read_under_lock, leave_lock-IsSound, ok-pair,
}
use ghost_bazaar.Engine.ControlEnvelope.{nonempty}
use ghost_bazaar.Settlement.{SettlementError}
use ghost_bazaar.Settlement.Transaction.{Chain}
use ghost_bazaar.Settlement.Execute.{SettlementRequest, VerificationResult, verify_settlement}
use ghost_bazaar.Engine.Routes.Settle.{
  already_settled, settlement_event, append_unless, record_settlement, post_execute,
  post_settle_report, caught, or_answer, check_quote_id, quote_with_signatures,
}

-- The log of `k` is as it was, or it held no settlement and grew by one.
abbrev pub Records : String → SessionManager → SessionManager → Type 0
Records k m m' =
    ((m'.store ≡ m.store) × IsSound m')
    ⊎ ((s s' : DerivedSession) × (e : NegotiationEvent) × (already_settled
            (get_all_events k m.store)
          ≡ false)
        × (e.type ≡ settlement_confirmed)
        × Advances k s e s' m m')

derive_state-eq_none : (es : List NegotiationEvent) → derive_state es ≡ ok none → es ≡ []
derive_state-eq_none [] h = refl
derive_state-eq_none (first ∷ rest) h = absurd (derive_state-ne_none first rest h)

-- A settlement is never the first event of a log.
no_first_settlement :
    (k : String) (e : NegotiationEvent) (now : ℕ) (m m' : SessionManager) (s : DerivedSession)
    → e.type ≡ settlement_confirmed
    → derive_state (get_all_events k m.store) ≡ ok none
    → append_event k e now m ≡ ok (s, m')
    → ⊥
unfolding open_session
no_first_settlement k e now m m' s type empty h =
    let (st, _, dry, _, _) = append_event-eq_ok k e now m m' s h in
    let no_log = derive_state-eq_none (get_all_events k m.store) empty in
    let (s₀, opens, _) =
      derive_state-eq_ok e [] s
        (subst (λ es. derive_state (es ++ e ∷ []) ≡ ok (some s)) no_log dry) in
    let (created, _) = require-eq-ok (is_rfq_created e.type) _ _ opens in
    cc (subst (λ i. is_rfq_created i ≡ true) type created)

append_unless-Records :
    (settled : Bool) (k : String) (e : NegotiationEvent) (now : ℕ) (m m₁ m' : SessionManager)
    (session : Option DerivedSession)
    → e.type ≡ settlement_confirmed
    → m₁.store ≡ m.store
    → derive_state (get_all_events k m.store) ≡ ok session
    → IsSound m₁
    → already_settled (get_all_events k m.store) ≡ settled
    → append_unless settled k e now m₁ ≡ ok m'
    → Records k m m'
unfolding append_unless leave_lock
append_unless-Records true k e now m m₁ m' session type kept before v first h =
    inl (subst (λ n. (n.store ≡ m.store) × IsSound n) (cc) (kept, leave_lock-IsSound k m₁ v))
append_unless-Records false k e now m m₁ m' none type kept before v first h =
    let ((s', m₂), appended, done) = >>=-eq-ok (append_event k e now m₁) _ h in
    absurd (no_first_settlement k e now m₁ m₂ s' type (kept' ∙ before) appended)
  where
    kept' : derive_state (get_all_events k m₁.store) ≡ derive_state (get_all_events k m.store)
    kept' = ap (λ st. derive_state (get_all_events k st)) kept
append_unless-Records false k e now m m₁ m' (some s) type kept before v first h =
    let ((s', m₂), appended, done) = >>=-eq-ok (append_event k e now m₁) _ h in
    inr (
      s,
      s',
      e,
      first,
      type,
      subst (λ n. Advances k s e s' m n) (cc)
          (append-Advances k e now m m₁ m₂ s s' before kept v appended),
    )

pub record_settlement-Records :
    (k : String) (quote_id : Option Value) (r : VerificationResult) (t : Moment)
    (m m' : SessionManager)
    → IsSound m
    → record_settlement k quote_id r t m ≡ ok m'
    → Records k m m'
unfolding record_settlement
record_settlement-Records k quote_id r t m m' v h =
    let ((session, m₁), read, after) = >>=-eq-ok (get_session k t.now (enter_lock k m)) _ h in
    let (kept, before, sound) = read_under_lock k t.now m m₁ session v read in
    append_unless-Records (already_settled (get_all_events k m₁.store)) k
      (settlement_event k quote_id r t) t.now m m₁ m' session refl kept before sound
      (ap (λ st. already_settled (get_all_events k st)) (sym kept)) after

caught-eq_ok {ℓ} :
    {A : Type ℓ} (f : Failure) (r : Result ManagerError A) {a : A} → caught f r ≡ ok a → r ≡ ok a
caught-eq_ok f (ok a) h = cc
caught-eq_ok f (err e) h = absurd (cc)

or_answer-eq_ok {ℓ} :
    {A : Type ℓ} (f : Failure) (r : Result SettlementError A) {a : A}
    → or_answer f r ≡ ok a
    → r ≡ ok a
or_answer-eq_ok f (ok a) h = cc
or_answer-eq_ok f (err e) h = absurd (cc)

module _ (x : Externals) (c : Chain) (decimals : Dict ℕ) (mint : String)
    (cluster : Option String) where
  -- What a route that succeeds has done: it verified a settlement, and ran the section under the lock.
  abbrev pub SettledBy : ℕ → Moment → SessionManager → VerificationResult → SessionManager → Type 0
  SettledBy now t m r m' =
      (request : SettlementRequest) × (k : String) × (id : Option Value) × (verify_settlement x c
          decimals now request
        ≡ ok r)
      × (record_settlement k id r t m ≡ ok m')

  pub post_execute-SettledBy :
      (quote_header payment_signature : Option String) (now : ℕ) (before : SessionManager)
      (t : Moment) (m m' : SessionManager) (r : VerificationResult)
      → post_execute x c decimals mint cluster quote_header payment_signature now before t m
        ≡ ok (r, m')
      → SettledBy now t m r m'
  unfolding post_execute
  post_execute-SettledBy quote_header payment_signature now before t m m' r h =
      let (header, _, h₁) = >>=-eq-ok (or_throw (nonempty quote_header) _) _ h in
      let (signature, _, h₂) = >>=-eq-ok (or_throw (nonempty payment_signature) _) _ h₁ in
      let (r₁, verified, h₃) =
        >>=-eq-ok (or_answer _ (verify_settlement x c decimals now _)) _ h₂ in
      let (k, _, h₄) = >>=-eq-ok (or_throw (as_string (get r₁.quote "rfq_id")) _) _ h₃ in
      let ((session, _), _, h₅) = >>=-eq-ok (caught _ (get_session k now before)) _ h₄ in
      let (s, _, h₆) = >>=-eq-ok (or_throw session _) _ h₅ in
      let (_, h₇) = require-eq-ok (is_state s.state committed) _ _ h₆ in
      let (_, _, h₈) = >>=-eq-ok (check_quote_id s (get r₁.quote "quote_id")) _ h₇ in
      let (m₁, recorded, done) =
        >>=-eq-ok (caught _ (record_settlement k (get r₁.quote "quote_id") r₁ t m)) _ h₈ in
      let (same, managed) = ok-pair done in
      (
        _,
        k,
        get r₁.quote "quote_id",
        or_answer-eq_ok _ _ verified ∙ ap ok same,
        ap (λ r. record_settlement k (get r₁.quote "quote_id") r t m) (sym same)
            ∙ caught-eq_ok _ _ recorded
            ∙ ap ok managed,
      )

  pub post_settle_report-SettledBy :
      (k caller : String) (body : Option Payload) (now : ℕ) (before : SessionManager) (t : Moment)
      (m m' : SessionManager) (r : VerificationResult)
      → post_settle_report x c decimals mint cluster k caller body now before t m ≡ ok (r, m')
      → SettledBy now t m r m'
  unfolding post_settle_report
  post_settle_report-SettledBy k caller body now before t m m' r h =
      let ((session, _), _, h₁) = >>=-eq-ok (lift (get_session k now before)) _ h in
      let (s, _, h₂) = >>=-eq-ok (or_throw session _) _ h₁ in
      let (_, h₃) = require-eq-ok (is_state s.state committed) _ _ h₂ in
      let (_, h₄) = require-eq-ok (is_selected caller s.selected_seller) _ _ h₃ in
      let (b, _, h₅) = >>=-eq-ok (or_throw body _) _ h₄ in
      let (signature, _, h₆) =
        >>=-eq-ok (or_throw (nonempty (as_string (get b "tx_sig"))) _) _ h₅ in
      let (id, _, h₇) = >>=-eq-ok (or_throw (nonempty (as_string (get b "quote_id"))) _) _ h₆ in
      let (_, _, h₈) = >>=-eq-ok (check_quote_id s (some (str id))) _ h₇ in
      let (quote, _, h₉) = >>=-eq-ok (or_throw (quote_with_signatures s) _) _ h₈ in
      let (r₁, verified, rest) =
        >>=-eq-ok (or_answer _ (verify_settlement x c decimals now _)) _ h₉ in
      let (m₁, recorded, done) =
        >>=-eq-ok (caught _ (record_settlement k (some (str id)) r₁ t m)) _ rest in
      let (same, managed) = ok-pair done in
      (
        _,
        k,
        some (str id),
        or_answer-eq_ok _ _ verified ∙ ap ok same,
        ap (λ r. record_settlement k (some (str id)) r t m) (sym same)
            ∙ caught-eq_ok _ _ recorded
            ∙ ap ok managed,
      )
