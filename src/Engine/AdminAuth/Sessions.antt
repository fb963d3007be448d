-- ===== src/Engine/AdminAuth/Sessions.antt =====
-- packages/engine/src/middleware/admin-auth.ts: which tokens a call leaves active.
use ghost_bazaar.Prelude.{
  ℕ, String, ◌===◌, ===_iff, ltb, leb, Bool-cases, Option-cases, [], ◌∷◌, Option, none, some,
  length, ◌≡◌, ◌⊎◌, refl, sym, ap, ◌∙◌, ◌+◌, ◌*◌, inl, inr, if_holds, arith,
}
use ghost_bazaar.Prelude.Dict.{Dict, lookup, remove, lookup-insert, lookup-remove-eq_some}
use ghost_bazaar.Engine.AdminAuth.{
  Secrets, AdminAuth, session_max_age, max_active_sessions, sweep_each, sweep_expired_sessions,
  check_login_rate_limit, record_failed_login, clear_login_attempts, reset_global_window,
  count_globally, window_is_over, LoginResult, AuthResult, is_expired, match_cookie, check_token,
  open_session, configured, safe_compare, try_password, login_with, auth_with,
}
use ghost_bazaar.Engine.AdminAuth.Calls.{IsRight}

pub sweep_each-lookup :
    (now : ℕ) (es m : Dict ℕ) (k : String) {v : ℕ}
    → lookup k (sweep_each now es m) ≡ some v
    → lookup k m ≡ some v
unfolding sweep_each
sweep_each-lookup now [] m k e = e
sweep_each-lookup now ((token, expiry) ∷ es) m k e = elim (Bool-cases (ltb expiry now)) [
  | inl y ↦
      (lookup-remove-eq_some token k m
        (sweep_each-lookup now es (remove token m) k (rw (sweep_each, y) at e))).1
  | inr y ↦ sweep_each-lookup now es m k (rw (sweep_each, y) at e)
]

module _ (x : Secrets) where
  -- The tokens that are active were active before, but for the one of a successful login.
  abbrev pub IsFrom : String → ℕ → AdminAuth → AdminAuth → Type 0
  IsFrom token expiry b a =
      lookup token b.active_sessions ≡ some expiry → lookup token a.active_sessions ≡ some expiry

  pub asks-IsFrom :
      (secret : Option String) (cookies : String) (now : ℕ) (token : String) (expiry : ℕ)
      (a : AdminAuth)
      → IsFrom token expiry (auth_with x secret cookies now a).1 a
  unfolding auth_with sweep_expired_sessions check_token
  asks-IsFrom none cookies now token expiry a = λ e. e
  asks-IsFrom (some secret) cookies now token expiry a =
      elim (Option-cases (match_cookie cookies)) [
        | inl n ↦ rw n (λ e. sweep_each-lookup now a.active_sessions a.active_sessions token e)
        | inr (t, y) ↦ rw y (
            if_holds (λ (r : AuthResult × AdminAuth). IsFrom token expiry r.1 a)
              (is_expired (lookup t (sweep_expired_sessions now a).active_sessions) now)
              (λ _ e.
                sweep_each-lookup now a.active_sessions a.active_sessions token
                  (lookup-remove-eq_some t token (sweep_expired_sessions now a).active_sessions
                    e).1)
              (λ _ e. sweep_each-lookup now a.active_sessions a.active_sessions token e))
      ]

  count_globally-sessions :
      (now : ℕ) (a : AdminAuth) → (count_globally now a).active_sessions ≡ a.active_sessions
  count_globally-sessions now a =
      if_holds (λ (b : AdminAuth). b.active_sessions ≡ a.active_sessions)
        (window_is_over a.global_login_window_start now) (λ _. refl) (λ _. refl)

  reset_global_window-sessions :
      (now : ℕ) (a : AdminAuth) → (reset_global_window now a).active_sessions ≡ a.active_sessions
  reset_global_window-sessions now a =
      if_holds (λ (b : AdminAuth). b.active_sessions ≡ a.active_sessions)
        (window_is_over a.global_login_window_start now) (λ _. refl) (λ _. refl)

  -- What a login leaves: the tokens of before, or the new one for the right password.
  abbrev pub IsGiven :
      String → String → ℕ → String → ℕ → AdminAuth → LoginResult × AdminAuth → Type 0
  IsGiven password fresh now token expiry a r =
      lookup token r.1.active_sessions ≡ some expiry
      → (lookup token a.active_sessions ≡ some expiry)
        ⊎ ((fresh ≡ token) × IsRight x password × (expiry ≡ now + session_max_age * 1000))

  open_session-lookup :
      (fresh : String) (now : ℕ) (token : String) (expiry : ℕ) (a : AdminAuth)
      → lookup token (open_session fresh now a).1.active_sessions ≡ some expiry
      → (lookup token a.active_sessions ≡ some expiry)
        ⊎ ((fresh ≡ token) × (expiry ≡ now + session_max_age * 1000))
  unfolding open_session
  open_session-lookup fresh now token expiry a =
      if_holds
        (λ (r : LoginResult × AdminAuth).
          lookup token r.1.active_sessions ≡ some expiry
          → (lookup token a.active_sessions ≡ some expiry)
            ⊎ ((fresh ≡ token) × (expiry ≡ now + session_max_age * 1000)))
        (leb max_active_sessions (length a.active_sessions)) (λ _ e. inl e)
        (λ _ e. elim (Bool-cases (fresh === token)) [
          | inl y ↦ inr (
            (===_iff fresh token).0 y,
            ground (
              arith,
              y,
              lookup-insert fresh token (now + session_max_age * 1000) a.active_sessions,
              e,
            ),
          )
          | inr n ↦ inl (
              ground (
                arith,
                n,
                lookup-insert fresh token (now + session_max_age * 1000) a.active_sessions,
                e,
              ))
        ])

  try_password-IsGiven :
      (secret password ip fresh : String) (now : ℕ) (token : String) (expiry : ℕ) (a : AdminAuth)
      → configured x x.admin_token ≡ some secret
      → IsGiven password fresh now token expiry a (try_password x secret password ip fresh now a)
  unfolding try_password sweep_expired_sessions clear_login_attempts record_failed_login
  try_password-IsGiven secret password ip fresh now token expiry a own =
      if_holds (IsGiven password fresh now token expiry a) (safe_compare x password secret)
        (λ right e.
          elim (open_session-lookup fresh now token expiry
            (sweep_expired_sessions now (clear_login_attempts ip a)) e) [
              | inl old ↦ inl (sweep_each-lookup now a.active_sessions a.active_sessions token old)
              | inr (same, lasting) ↦ inr (same, (secret, own, right), lasting)
            ])
        (λ wrong e. inl (ap (lookup token) (sym (count_globally-sessions now a)) ∙ e))

  pub login_with-IsGiven :
      (o : Option String) (password ip fresh : String) (now : ℕ) (token : String) (expiry : ℕ)
      (a : AdminAuth)
      → configured x x.admin_token ≡ o
      → IsGiven password fresh now token expiry a (login_with x o password ip fresh now a)
  unfolding login_with check_login_rate_limit
  login_with-IsGiven none password ip fresh now token expiry a own = λ e. inl e
  login_with-IsGiven (some secret) password ip fresh now token expiry a own =
      if_holds (IsGiven password fresh now token expiry a) (check_login_rate_limit ip now a).0
        (λ _ e.
          elim (try_password-IsGiven secret password ip fresh now token expiry
            (reset_global_window now a) own e) [
              | inl old ↦ inl (ap (lookup token) (sym (reset_global_window-sessions now a)) ∙ old)
              | inr new ↦ inr new
            ])
        (λ _ e. inl (ap (lookup token) (sym (reset_global_window-sessions now a)) ∙ e))
