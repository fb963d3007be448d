-- ===== src/Settlement/Execute/Twice.antt =====
-- packages/settlement/src/execute.ts: requests for a quote that is being executed or was executed.
use ghost_bazaar.Prelude.{
  ℕ, String, ===_refl, ◌≡◌, refl, ap, ◌∙◌, true, false, List, [], ◌∷◌, any, Option, none, some, not,
  >>=-eq-ok, require-eq-ok, ok,
}
use ghost_bazaar.Prelude.Dict.{Dict}
use ghost_bazaar.Prelude.Json.{Value, null, boolean, num, str, arr, obj, Items, Payload, get}
use ghost_bazaar.Core.External.{Externals}
use ghost_bazaar.Core.Schemas.{coerced, is_after, is_nonce}
use ghost_bazaar.Settlement.{is_nonce_consumed, consume_nonce, quote_for_execution}
use ghost_bazaar.Settlement.Transaction.{Chain}
use ghost_bazaar.Settlement.Execute.{
  SettlementRequest, mint_executed, fetch_transaction, check_transfer, check_memo, admit_execution,
  finish_execution, verify_and_execute,
}
use ghost_bazaar.Settlement.Execute.Once.Texts.{
  holds, texts, is_nonce_consumed-holds, texts-consume, is_consumed-consume,
}
use ghost_bazaar.Settlement.Execute.Once.{Executions, quote_id_of, Step, admitted, finished}

module _ (x : Externals) (c : Chain) (decimals : Dict ℕ) where
  -- Whether a request is admitted depends on the set of nonces by its own id only.
  admit_same :
      (now later : ℕ) (consumed others : List (Option Value)) (r : SettlementRequest) (q : Payload)
      → admit_execution x c decimals now later consumed r ≡ ok q
      → is_nonce_consumed (quote_id_of q) others ≡ false
      → admit_execution x c decimals now later others r ≡ ok q
  unfolding admit_execution
  admit_same now later consumed others r q h new =
      let (p, verified, h₁) =
        >>=-eq-ok (quote_for_execution x now (c.decode_header r.quote_header)) _ h in
      let (tx, fetched, h₂) = >>=-eq-ok (fetch_transaction c r.payment_signature) _ h₁ in
      let (_, transferred, h₃) =
        >>=-eq-ok (check_transfer x c decimals (mint_executed r.usdc_mint) r.usdc_mint p tx) _ h₂ in
      let (_, noted, h₄) = >>=-eq-ok (check_memo c p tx) _ h₃ in
      let (format, h₅) = require-eq-ok (is_nonce (coerced x (get p "nonce"))) _ _ h₄ in
      let (_, h₆) = require-eq-ok (not (is_nonce_consumed (quote_id_of p) consumed)) _ _ h₅ in
      let (unexpired, done) =
        require-eq-ok (is_after (x.parse_date (coerced x (get p "expires_at"))) later) _ _ h₆ in
      let same : p ≡ q = cc in
      let still : is_nonce_consumed (quote_id_of p) others ≡ false =
        ap (λ o. is_nonce_consumed (quote_id_of o) others) same ∙ new in
      rw (verified, fetched, transferred, noted, format, still, unexpired) (ap ok same)

  seen_after :
      (id : String) (vs : List (Option Value))
      → is_nonce_consumed (some (str id)) (consume_nonce (some (str id)) vs) ≡ true
  seen_after id vs =
      is_nonce_consumed-holds id (consume_nonce (some (str id)) vs)
      ∙ ap (holds id) (texts-consume id vs)
      ∙ is_consumed-consume id id (texts vs)
      ∙ rw (===_refl id) refl

  -- Two requests with one text as quote id that are admitted before either execution has returned
  -- are both executed with success, although the id is in the set of nonces from the first return
  -- on.
  pub concurrent_requests_execute_twice :
      (s : Executions) (now later now' later' : ℕ) (r r' : SettlementRequest) (q q' : Payload)
      (id : String)
      → admit_execution x c decimals now later s.consumed r ≡ ok q
      → admit_execution x c decimals now' later' s.consumed r' ≡ ok q'
      → quote_id_of q ≡ some (str id)
      → quote_id_of q' ≡ some (str id)
      → (t u v w : Executions) × Step x c decimals s t
        × Step x c decimals t u
        × Step x c decimals u v
        × Step x c decimals v w
        × (is_nonce_consumed (some (str id)) v.consumed ≡ true)
        × (w.completed ≡ some (str id) ∷ some (str id) ∷ s.completed)
  unfolding finish_execution
  concurrent_requests_execute_twice s now later now' later' r r' q q' id h h' named named' =
      let t : Executions = record s { running = q ∷ s.running } in
      let u : Executions = record s { running = q' ∷ q ∷ s.running } in
      (
        t,
        u,
        _,
        _,
        admitted s now later r q h,
        admitted t now' later' r' q' h',
        finished u (q' ∷ []) s.running q true refl,
        finished _ [] s.running q' true refl,
        rw named (seen_after id s.consumed),
        rw (named, named') refl,
      )

  not_found : (xs : Items) (vs : List (Option Value)) → is_nonce_consumed (some (arr xs)) vs ≡ false
  unfolding is_nonce_consumed any
  not_found xs [] = refl
  not_found xs (none ∷ vs) = not_found xs vs
  not_found xs (some null ∷ vs) = not_found xs vs
  not_found xs (some (boolean true) ∷ vs) = not_found xs vs
  not_found xs (some (boolean false) ∷ vs) = not_found xs vs
  not_found xs (some (num n) ∷ vs) = not_found xs vs
  not_found xs (some (str id) ∷ vs) = not_found xs vs
  not_found xs (some (arr ys) ∷ vs) = not_found xs vs
  not_found xs (some (obj p) ∷ vs) = not_found xs vs

  -- A request whose quote has an array for its id, and that is admitted, is admitted again when
  -- it was executed with success: nothing else needs to run at the same time.
  pub array_id_executes_again :
      (now later : ℕ) (consumed : List (Option Value)) (r : SettlementRequest) (q : Payload)
      (xs : Items)
      → admit_execution x c decimals now later consumed r ≡ ok q
      → quote_id_of q ≡ some (arr xs)
      → (verify_and_execute x c decimals now later true consumed r
          ≡ (ok tt, some (arr xs) ∷ consumed))
        × (admit_execution x c decimals now later (some (arr xs) ∷ consumed) r ≡ ok q)
  unfolding verify_and_execute finish_execution consume_nonce
  array_id_executes_again now later consumed r q xs h named = (
    rw (h, verify_and_execute) (rw (named, not_found xs consumed) refl),
    admit_same now later consumed (some (arr xs) ∷ consumed) r q h
        (rw named (not_found xs (some (arr xs) ∷ consumed))),
  )
