-- ===== src/Settlement/Execute/Once.antt =====
-- How often a quote is executed. The check of the nonce and its consumption are apart: the executor is
-- awaited between them, and other requests may be admitted meanwhile.
pub mod Texts
use ghost_bazaar.Prelude.{
  map-append, ℕ, String, ◌===◌, ===_iff, ===_refl, ◌≡◌, refl, ap, ◌∙◌, subst, Bool, true, false,
  ◌||◌, Bool-cases, List, [], ◌∷◌, ◌++◌, map, any, Option, none, some, ◌⊎◌, if_holds, sym, not,
  >>=-eq-ok, require-eq-ok, inl, inr, ok, arith, if◌then◌else◌,
}
use ghost_bazaar.Prelude.Dict.{Dict}
use ghost_bazaar.Prelude.Json.{
  Value, null, boolean, num, str, arr, obj, Items, Payload, get, as_string,
}
use ghost_bazaar.Core.External.{Externals}
use ghost_bazaar.Core.Schemas.{coerced, is_after, is_nonce}
use ghost_bazaar.Settlement.{is_nonce_consumed, consume_nonce, quote_for_execution}
use ghost_bazaar.Settlement.Transaction.{Chain}
use ghost_bazaar.Settlement.Execute.{
  SettlementRequest, mint_executed, fetch_transaction, check_transfer, check_memo, admit_execution,
  finish_execution, verify_and_execute,
}
use ghost_bazaar.Settlement.Execute.Payment.{executed-IsPaid}
use ghost_bazaar.Settlement.Execute.Once.Texts.{
  holds, texts, texts-append, is_nonce_consumed-holds, with_text, texts-consume, texts-other,
  texts-consume_other, text_or_other, IsDistinct, is_consumed-consume, AreOnce, AreOnce-completed,
  AreOnce-failed, AreOnce-admitted,
}

-- The set of nonces, the executions that are awaited, and the ids of those that have succeeded.
pub record Executions : Type 0 where
  pub consumed : List (Option Value)
  pub running : List Payload
  pub completed : List (Option Value)

abbrev pub nothing_executed : Executions
nothing_executed = record { consumed = []; running = []; completed = [] }

-- The value of the quote's id.
abbrev pub quote_id_of : Payload → Option Value
quote_id_of quote = get quote "quote_id"

module _ (x : Externals) (c : Chain) (decimals : Dict ℕ) where
  -- What the server does next: it admits a request, or an executor returns or throws.
  pub data Step : Executions → Executions → Type 0 where
    admitted :
        (s : Executions) (now later : ℕ) (request : SettlementRequest) (quote : Payload)
        → admit_execution x c decimals now later s.consumed request ≡ ok quote
        → Step s (record s { running = quote ∷ s.running })
    finished :
        (s : Executions) (front back : List Payload) (quote : Payload) (succeeds : Bool)
        → s.running ≡ front ++ quote ∷ back
        → Step s (record {
          consumed = (finish_execution x c decimals succeeds quote s.consumed).1;
          running = front ++ back;
          completed = if succeeds then quote_id_of quote ∷ s.completed else s.completed;
        })

  abbrev pub is_running : Payload → Executions → Bool
  is_running quote s = is_nonce_consumed (quote_id_of quote) (map quote_id_of s.running)

  -- The runs in which no quote is admitted while it is being executed.
  pub data Serial : Executions → Type 0 where
    started : Serial nothing_executed
    next :
        (s t : Executions)
        → Serial s
        → Step s t
        → ((quote : Payload) → t.running ≡ quote ∷ s.running → is_running quote s ≡ false)
        → Serial t

  -- The texts among the ids of those that run, with one of them in the middle.
  abbrev ids : List Payload → List String
  ids qs = texts (map quote_id_of qs)

  ids-middle :
      (front back : List Payload) (quote : Payload)
      → ids (front ++ quote ∷ back) ≡ ids front ++ texts (quote_id_of quote ∷ map quote_id_of back)
  ids-middle front back quote =
      ap texts (map-append quote_id_of front (quote ∷ back))
      ∙ texts-append (map quote_id_of front) _

  ids-append : (front back : List Payload) → ids (front ++ back) ≡ ids front ++ ids back
  ids-append front back =
      ap texts (map-append quote_id_of front back)
      ∙ texts-append (map quote_id_of front) (map quote_id_of back)

  abbrev Once : Executions → Type 0
  Once s = AreOnce (texts s.consumed) (ids s.running) (texts s.completed)

  admitted-Once :
      (s : Executions) (quote : Payload)
      → is_running quote s ≡ false
      → is_nonce_consumed (quote_id_of quote) s.consumed ≡ false
      → Once s
      → Once (record s { running = quote ∷ s.running })
  admitted-Once s quote alone unused o = elim (text_or_other (quote_id_of quote)) [
    | inr other ↦ rw (texts-other (quote_id_of quote) (map quote_id_of s.running) other) o
    | inl (id, named) ↦
        let quiet : holds id (ids s.running) ≡ false =
          sym (is_nonce_consumed-holds id (map quote_id_of s.running))
          ∙ subst (λ v. is_nonce_consumed v (map quote_id_of s.running) ≡ false) named alone in
        let new : holds id (texts s.consumed) ≡ false =
          sym (is_nonce_consumed-holds id s.consumed)
          ∙ subst (λ v. is_nonce_consumed v s.consumed ≡ false) named unused in
        rw named
          (AreOnce-admitted (texts s.consumed) (ids s.running) (texts s.completed) id quiet new o)
  ]

  completed-Once :
      (s : Executions) (front back : List Payload) (quote : Payload)
      → s.running ≡ front ++ quote ∷ back
      → Once s
      → Once (record {
        consumed = consume_nonce (quote_id_of quote) s.consumed;
        running = front ++ back;
        completed = quote_id_of quote ∷ s.completed;
      })
  completed-Once s front back quote e o =
      let o' =
        subst (λ r. AreOnce (texts s.consumed) r (texts s.completed))
          (ap ids e ∙ ids-middle front back quote) o in
      elim (text_or_other (quote_id_of quote)) [
        | inr other ↦
            rw
              (
                ids-append front back,
                texts-consume_other (quote_id_of quote) s.consumed other,
                texts-other (quote_id_of quote) s.completed other,
              )
              (subst (λ r. AreOnce (texts s.consumed) (ids front ++ r) (texts s.completed))
                (texts-other (quote_id_of quote) (map quote_id_of back) other) o')
        | inl (id, named) ↦
            rw (ids-append front back, named, texts-consume id s.consumed)
              (AreOnce-completed (texts s.consumed) (ids front) (ids back) (texts s.completed) id (
                subst
                  (λ v.
                    AreOnce (texts s.consumed) (ids front ++ texts (v ∷ map quote_id_of back))
                      (texts s.completed))
                  named o'))
      ]

  failed-Once :
      (s : Executions) (front back : List Payload) (quote : Payload)
      → s.running ≡ front ++ quote ∷ back
      → Once s
      → Once (record s { running = front ++ back })
  failed-Once s front back quote e o =
      let o' =
        subst (λ r. AreOnce (texts s.consumed) r (texts s.completed))
          (ap ids e ∙ ids-middle front back quote) o in
      elim (text_or_other (quote_id_of quote)) [
        | inr other ↦ rw (ids-append front back) (
            subst (λ r. AreOnce (texts s.consumed) (ids front ++ r) (texts s.completed))
              (texts-other (quote_id_of quote) (map quote_id_of back) other) o')
        | inl (id, named) ↦ rw (ids-append front back) (
            AreOnce-failed (texts s.consumed) (ids front) (ids back) (texts s.completed) id (
              subst
                (λ v.
                  AreOnce (texts s.consumed) (ids front ++ texts (v ∷ map quote_id_of back))
                    (texts s.completed))
                named o'))
      ]

  Step-Once :
      (s t : Executions)
      → Step s t
      → ((quote : Payload) → t.running ≡ quote ∷ s.running → is_running quote s ≡ false)
      → Once s
      → Once t
  unfolding finish_execution
  Step-Once s _ (admitted _ now later request quote h) alone o =
      admitted-Once s quote (alone quote refl)
        (executed-IsPaid x c decimals now later s.consumed request quote h).2 o
  Step-Once s _ (finished _ front back quote true e) alone o = completed-Once s front back quote e o
  Step-Once s _ (finished _ front back quote false e) alone o = failed-Once s front back quote e o

  Serial-Once : (s : Executions) → Serial s → Once s
  unfolding any
  Serial-Once _ started = record {
    done_consumed = λ id h. refl;
    done_once = tt;
    running_unused = λ id h. absurd (cc);
    running_once = tt;
  }
  Serial-Once _ (next s t run step alone) = Step-Once s t step alone (Serial-Once s run)

  -- As long as no quote is admitted while one with the same id is being executed, whatever
  -- requests arrive and whichever executors fail, no text is executed with success twice as a
  -- quote id.
  pub executed_once : (s : Executions) → Serial s → IsDistinct (texts s.completed)
  executed_once s run = (Serial-Once s run).done_once
