-- ===== src/Engine/ControlEnvelope/SingleUse.antt =====
-- packages/engine/src/security/control-envelope.ts: how often an envelope is accepted. Its id is
-- remembered for an hour, and after that hour the time at which it was issued is too far back; the id
-- is looked up when a validation begins and recorded when it ends.
pub mod Remembered
use ghost_bazaar.Prelude.{
  ℕ, ◌+◌, ◌≤◌, ◌<◌, ltb, leb, String, ◌===◌, ===_iff, ===_refl, ◌≡◌, ◌≢◌, refl, sym, ap, ◌∙◌, subst,
  arith, true, false, not, ◌&&◌, [], ◌∷◌, All, leb→le, Option, none, some, ◌⊎◌, inl, inr,
  Bool-cases, ok, or_throw, >>=-eq-ok, require-eq-ok, if◌then◌else◌,
}
use ghost_bazaar.Prelude.Dict.{Dict, lookup, insert, remove, lookup-insert, lookup-remove}
use ghost_bazaar.Prelude.Json.{Payload, get, as_string}
use ghost_bazaar.Core.External.{Externals}
use ghost_bazaar.Engine.Session.Inversion.{or_throw-eq-ok}
use ghost_bazaar.Core.Schemas.{says}
use ghost_bazaar.Engine.Http.{http, Reply, pre_check_signature_format, verify_signature}
use ghost_bazaar.Engine.Http.Locked.{ok-pair}
use ghost_bazaar.Engine.ControlEnvelope.{
  malformed, nonempty, as_plain_object, checked_envelope, validate_control_envelope, Tombstones,
  is_used, use_envelope, sweep_from, sweep, before, Envelope, retention_ms, max_issued_age_ms,
  is_some, sooner,
}
use ghost_bazaar.Engine.ControlEnvelope.SingleUse.Remembered.{
  IsRemembered, clash, sweep-IsRemembered, use-IsRemembered, IsLasting, sweep-IsLasting,
  use-IsLasting, unused-IsLasting, use-IsRemembered_now,
}

module _ (x : Externals) where
  -- What an accepted envelope says of the clock and of the tombstones.
  checked_envelope-eq_ok :
      (body : Payload) (action rfq_id signer code : String) (now : ℕ) (t : Tombstones)
      (v : Envelope)
      → checked_envelope x body action rfq_id signer code now t ≡ ok v
      → (id issued_at : String) × (issued : ℕ) × (nonempty (as_string (get body "envelope_id"))
          ≡ some id)
        × (as_string (get body "issued_at") ≡ some issued_at)
        × (x.parse_date issued_at ≡ some issued)
        × (now ≤ issued + max_issued_age_ms)
        × (issued ≤ now + max_issued_age_ms)
        × (is_used id t ≡ false)
        × (v.envelope_id ≡ id)
  unfolding checked_envelope
  checked_envelope-eq_ok body action rfq_id signer code now t v h =
      let (id, has_id, h₁) =
        >>=-eq-ok (or_throw (nonempty (as_string (get body "envelope_id"))) malformed) _ h in
      let (_, h₂) = require-eq-ok (says (get body "action") action) malformed _ h₁ in
      let (_, h₃) =
        require-eq-ok (says (get body "rfq_id") rfq_id) (http 400 "rfq_id_mismatch") _ h₂ in
      let (_, _, h₄) =
        >>=-eq-ok (or_throw (nonempty (as_string (get body "session_revision"))) malformed) _ h₃ in
      let (_, _, h₅) = >>=-eq-ok (or_throw (as_plain_object (get body "payload")) malformed) _ h₄ in
      let (issued_at, has_issued, h₆) =
        >>=-eq-ok (or_throw (as_string (get body "issued_at")) malformed) _ h₅ in
      let (expires_at, _, h₇) =
        >>=-eq-ok (or_throw (as_string (get body "expires_at")) malformed) _ h₆ in
      let (signature, _, h₈) =
        >>=-eq-ok (or_throw (as_string (get body "signature")) malformed) _ h₇ in
      let (issued, parsed, h₉) = >>=-eq-ok (or_throw (x.parse_date issued_at) malformed) _ h₈ in
      let (drift, g₁) =
        require-eq-ok (leb now (issued + max_issued_age_ms) && leb issued (now + max_issued_age_ms))
          malformed _ h₉ in
      let (expires, _, g₂) = >>=-eq-ok (or_throw (x.parse_date expires_at) malformed) _ g₁ in
      let (_, g₃) = require-eq-ok (ltb now expires) malformed _ g₂ in
      let (new, g₄) =
        require-eq-ok (not (is_used id t)) (http 409 "duplicate_control_envelope") _ g₃ in
      let (_, _, g₅) =
        >>=-eq-ok (pre_check_signature_format x (some signature) (some signer)) _ g₄ in
      let (_, _, g₆) = >>=-eq-ok (verify_signature x _ signature signer code) _ g₅ in
      (
        id,
        issued_at,
        issued,
        or_throw-eq-ok _ _ has_id,
        or_throw-eq-ok _ _ has_issued,
        or_throw-eq-ok _ _ parsed,
        ground (arith, drift),
        ground (arith, drift),
        ground (arith, new),
        named g₆,
      )
    where
      named :
          {a b : Envelope} → ◌≡◌ {A = Reply Envelope} (ok a) (ok b) → b.envelope_id ≡ a.envelope_id
      named p = cc

  validate-eq_ok :
      (body : Payload) (action rfq_id signer code : String) (now later : ℕ) (t u u' : Tombstones)
      (v : Envelope)
      → validate_control_envelope x body action rfq_id signer code now t later u ≡ ok (v, u')
      → (checked_envelope x body action rfq_id signer code now t ≡ ok v)
        × (u' ≡ use_envelope v.envelope_id later retention_ms u)
  unfolding validate_control_envelope
  validate-eq_ok body action rfq_id signer code now later t u u' v h =
      let (w, checked, done) =
        >>=-eq-ok (checked_envelope x body action rfq_id signer code now t) _ h in
      let same = ok-pair done in
      (
        checked ∙ ap ok same.0,
        sym same.1 ∙ ap (λ e. use_envelope e.envelope_id later retention_ms u) same.0,
      )

  -- What happens to the tombstones while the clock goes on. A validation that ends may have begun
  -- at any time and on any tombstones.
  pub data Later : ℕ → Tombstones → ℕ → Tombstones → Type 0 where
    at_once : (now : ℕ) (t : Tombstones) → Later now t now t
    swept :
        (n now : ℕ) (t u : Tombstones)
        → Later n t now u
        → (now' : ℕ) → now ≤ now'
        → Later n t now' (sweep now' u)
    other_accepted :
        (n now : ℕ) (t u u' : Tombstones)
        → Later n t now u
        → (now' : ℕ) → now ≤ now'
        → (body : Payload) (action rfq_id signer code : String) (v : Envelope) (begun : ℕ)
          (seen : Tombstones)
        → validate_control_envelope x body action rfq_id signer code begun seen now' u ≡ ok (v, u')
        → Later n t now' u'

  Later-IsRemembered :
      (id : String) (until n now : ℕ) (t u : Tombstones)
      → until ≤ n + retention_ms
      → Later n t now u
      → IsRemembered id until n t
      → (n ≤ now) × IsRemembered id until now u
  Later-IsRemembered id until n now t u within (at_once _ _) r = (omega arith, r)
  Later-IsRemembered id until n _ t _ within (swept _ now _ u l now' le) r =
      let (since, kept) = Later-IsRemembered id until n now t u within l r in
      (omega arith, sweep-IsRemembered id until now now' u le kept)
  Later-IsRemembered id until n _ t u' within
        (other_accepted _ now _ u _ l now' le body action rfq_id signer code v begun seen h) r =
      let (since, kept) = Later-IsRemembered id until n now t u within l r in
      let (_, same) = validate-eq_ok body action rfq_id signer code begun now' seen u u' v h in
      (
        omega arith,
        subst (IsRemembered id until now') (sym same)
            (use-IsRemembered id v.envelope_id until now now' u le (λ p. omega arith) kept),
      )

  Later-IsLasting :
      (id : String) (until n now : ℕ) (t u : Tombstones)
      → until ≤ n + retention_ms
      → Later n t now u
      → IsLasting id until n t
      → (n ≤ now) × IsLasting id until now u
  Later-IsLasting id until n now t u within (at_once _ _) r = (omega arith, r)
  Later-IsLasting id until n _ t _ within (swept _ now _ u l now' le) r =
      let (since, kept) = Later-IsLasting id until n now t u within l r in
      (omega arith, sweep-IsLasting id until now now' u le kept)
  Later-IsLasting id until n _ t u' within
        (other_accepted _ now _ u _ l now' le body action rfq_id signer code v begun seen h) r =
      let (since, kept) = Later-IsLasting id until n now t u within l r in
      let (_, same) = validate-eq_ok body action rfq_id signer code begun now' seen u u' v h in
      (
        omega arith,
        subst (IsLasting id until now') (sym same)
            (use-IsLasting id v.envelope_id until now now' u le (omega arith) kept),
      )

  -- When the validation of a control envelope has accepted it, no validation that begins
  -- afterwards accepts it again, for any route, session or signer, however often the tombstones
  -- are swept and other validations end meanwhile, as long as the clock does not go back.
  pub accepted_once :
      (body : Payload) (action rfq_id signer code : String) (now later : ℕ) (t u t₁ : Tombstones)
      (v : Envelope) (now' : ℕ) (t₂ : Tombstones)
      → Later now t later u
      → validate_control_envelope x body action rfq_id signer code now t later u ≡ ok (v, t₁)
      → Later later t₁ now' t₂
      → (action' rfq_id' signer' code' : String) (later' : ℕ) (u' : Tombstones)
        (r : Envelope × Tombstones)
      → validate_control_envelope x body action' rfq_id' signer' code' now' t₂ later' u' ≢ ok r
  accepted_once body action rfq_id signer code now later t u t₁ v now' t₂ await h l action' rfq_id'
        signer' code' later' u' (v', t₃) again =
      let (checked, same) = validate-eq_ok body action rfq_id signer code now later t u t₁ v h in
      let (checked', _) =
        validate-eq_ok body action' rfq_id' signer' code' now' later' t₂ u' t₃ v' again in
      let (id, at, issued, has_id, has_at, parsed, _, soon, new, named) =
        checked_envelope-eq_ok body action rfq_id signer code now t v checked in
      let (id', at', issued', has_id', has_at', parsed', recent, _, new', _) =
        checked_envelope-eq_ok body action' rfq_id' signer' code' now' t₂ v' checked' in
      let same_at : at ≡ at' = cc in
      let same_time : issued ≡ issued' = cc in
      let same_id : id ≡ id' = cc in
      let until = now + retention_ms in
      let (since, lasting) =
        Later-IsLasting id until now later t u (omega arith) await
          (unused-IsLasting id until now t new) in
      let used =
        use-IsRemembered_now id until later later u (omega arith) (omega (arith, since)) lasting in
      let kept = Later-IsRemembered id until later now' t₁ t₂ (omega (arith, since)) l (
        subst (IsRemembered id until later)
          (sym (same ∙ ap (λ i. use_envelope i later retention_ms u) named)) used) in
      clash id until now' t₂ kept.1 (omega (arith, same_time, recent, soon))
        (subst (λ i. is_used i t₂ ≡ false) (sym same_id) new')

  -- If two validations of one control envelope pass the checks, each on the tombstones that it
  -- found when it began, and then end one after the other, both accept the envelope: the second
  -- one does so although its id is recorded by then.
  pub racing_validations_accept_twice :
      (body : Payload) (action rfq_id signer code : String) (now now' later later' : ℕ)
      (t t' u : Tombstones) (v v' : Envelope)
      → checked_envelope x body action rfq_id signer code now t ≡ ok v
      → checked_envelope x body action rfq_id signer code now' t' ≡ ok v'
      → (u₁ u₂ : Tombstones) × (validate_control_envelope x body action rfq_id signer code now t
            later u
          ≡ ok (v, u₁))
        × (is_used v'.envelope_id u₁ ≡ true)
        × (validate_control_envelope x body action rfq_id signer code now' t' later' u₁
            ≡ ok (v', u₂))
  unfolding validate_control_envelope is_used use_envelope
  racing_validations_accept_twice body action rfq_id signer code now now' later later' t t' u v v' h
        h' =
      let (id, _, _, has_id, _, _, _, _, _, named) =
        checked_envelope-eq_ok body action rfq_id signer code now t v h in
      let (id', _, _, has_id', _, _, _, _, _, named') =
        checked_envelope-eq_ok body action rfq_id signer code now' t' v' h' in
      let same : v.envelope_id ≡ v'.envelope_id = cc in
      (
        use_envelope v.envelope_id later retention_ms u,
        use_envelope v'.envelope_id later' retention_ms
            (use_envelope v.envelope_id later retention_ms u),
        rw h refl,
        ap is_some (lookup-insert v.envelope_id v'.envelope_id (later + retention_ms) u.tombstones)
            ∙ rw ((===_iff _ _).1 same) refl,
        rw h' refl,
      )
