-- ===== src/Engine/AdminAuth/Admission.antt =====
-- packages/engine/src/middleware/admin-auth.ts: who is admitted to the admin panel.
use ghost_bazaar.Prelude.{
  ℕ, String, ===_iff, false, Bool-cases, Option-cases, List, [], ◌∷◌, ◌++◌, Option, none, some, All,
  ◌≡◌, refl, sym, ◌≤◌, ◌+◌, ◌*◌, inl, inr, arith,
}
use ghost_bazaar.Prelude.Dict.{lookup, lookup-remove-eq_some}
use ghost_bazaar.Engine.AdminAuth.{
  Secrets, AdminAuth, session_max_age, fresh_auth, sweep_expired_sessions, admitted, is_expired,
  match_cookie, check_token, configured, handle_login, auth_with, require_admin_auth, handle_logout,
}
use ghost_bazaar.Engine.AdminAuth.Calls.{
  AdminCall, logs_in, asks, logs_out, Keeps, serve_call, serve_calls, IsRight,
}
use ghost_bazaar.Engine.AdminAuth.Sessions.{sweep_each-lookup, asks-IsFrom, login_with-IsGiven}

module _ (x : Secrets) where
  -- Among the calls, a login with the right password gave out the token, and no logout took it back.
  pub record IsIssued (token : String) (expiry : ℕ) (calls : List AdminCall) : Type 0 where
    pub password : String
    pub ip : String
    pub now : ℕ
    pub later : List AdminCall
    pub earlier : List AdminCall
    pub place : calls ≡ later ++ logs_in password ip token now ∷ earlier
    pub right : IsRight x password
    pub lasting : expiry ≡ now + session_max_age * 1000
    pub kept : All (Keeps token) later

  later-IsIssued :
      (c : AdminCall) (token : String) (expiry : ℕ) (calls : List AdminCall)
      → Keeps token c
      → IsIssued token expiry calls
      → IsIssued token expiry (c ∷ calls)
  later-IsIssued c token expiry calls k i = record {
    password = i.password;
    ip = i.ip;
    now = i.now;
    later = c ∷ i.later;
    earlier = i.earlier;
    place = rw (sym i.place) refl;
    right = i.right;
    lasting = i.lasting;
    kept = (k, i.kept);
  }

  -- Whatever the calls were, every active token is one that was issued and kept.
  pub active-IsIssued :
      (start : ℕ) (calls : List AdminCall) (token : String) (expiry : ℕ)
      → lookup token (serve_calls x start calls).active_sessions ≡ some expiry
      → IsIssued token expiry calls
  unfolding serve_calls serve_call fresh_auth lookup handle_login require_admin_auth handle_logout
  active-IsIssued start [] token expiry e = absurd (cc)
  active-IsIssued start (logs_in password ip fresh now ∷ cs) token expiry e =
      elim (login_with-IsGiven x (configured x x.admin_token) password ip fresh now token expiry
        (serve_calls x start cs) refl e) [
          | inl old ↦
              later-IsIssued (logs_in password ip fresh now) token expiry cs tt
                (active-IsIssued start cs token expiry old)
          | inr (same, right, lasting) ↦ record {
            password = password;
            ip = ip;
            now = now;
            later = [];
            earlier = cs;
            place = rw same refl;
            right = right;
            lasting = lasting;
            kept = tt;
          }
        ]
  active-IsIssued start (asks cookies now ∷ cs) token expiry e =
      later-IsIssued (asks cookies now) token expiry cs tt (
        active-IsIssued start cs token expiry (
          asks-IsFrom x (configured x x.admin_token) cookies now token expiry
            (serve_calls x start cs) e))
  active-IsIssued start (logs_out cookies ∷ cs) token expiry e =
      elim (Option-cases (match_cookie cookies)) [
        | inl n ↦
            later-IsIssued (logs_out cookies) token expiry cs (λ y. absurd (ground (arith, n, y)))
              (active-IsIssued start cs token expiry (rw n at e))
        | inr (t, y) ↦
            let (other, old) =
              lookup-remove-eq_some t token (serve_calls x start cs).active_sessions (rw y at e) in
            later-IsIssued (logs_out cookies) token expiry cs
              (λ z. absurd (ground (arith, y, z, other, ===_iff t token)))
              (active-IsIssued start cs token expiry old)
      ]

  alive-lookup :
      (o : Option ℕ) (now : ℕ)
      → is_expired o now ≡ false
      → (expiry : ℕ) × ((o ≡ some expiry) × (now ≤ expiry))
  alive-lookup none now e = absurd (cc)
  alive-lookup (some expiry) now e = (expiry, (refl, ground (arith, e)))

  -- Who is admitted carries an active token that has not expired.
  admitted-active :
      (secret : Option String) (cookies : String) (now : ℕ) (a : AdminAuth)
      → (auth_with x secret cookies now a).0 ≡ admitted
      → (token : String) × ((expiry : ℕ) × ((match_cookie cookies ≡ some token)
            × (lookup token a.active_sessions ≡ some expiry)
            × (now ≤ expiry)))
  unfolding auth_with check_token sweep_expired_sessions
  admitted-active none cookies now a e = absurd (cc)
  admitted-active (some secret) cookies now a e = elim (Option-cases (match_cookie cookies)) [
    | inl n ↦ absurd (ground (arith, rw n at e))
    | inr (t, y) ↦
        elim (Bool-cases
          (is_expired (lookup t (sweep_expired_sessions now a).active_sessions) now)) [
            | inl over ↦ absurd (ground (arith, rw (y, over) at e))
            | inr good ↦
                let (expiry, (found, alive)) =
                  alive-lookup (lookup t (sweep_expired_sessions now a).active_sessions) now good in
                (
                  t,
                  (
                    expiry,
                    (y, sweep_each-lookup now a.active_sessions a.active_sessions t found, alive),
                  ),
                )
          ]
  ]

  -- Whatever logins, requests and logouts came before: a request that requireAdminAuth admits
  -- carries a cookie whose token a login with the right password gave out, at most 24 hours ago,
  -- and no logout with that token came after it.
  pub admitted_was_logged_in :
      (start : ℕ) (calls : List AdminCall) (cookies : String) (now : ℕ)
      → (require_admin_auth x cookies now (serve_calls x start calls)).0 ≡ admitted
      → (token : String) × ((expiry : ℕ) × ((match_cookie cookies ≡ some token)
            × (now ≤ expiry)
            × IsIssued token expiry calls))
  unfolding require_admin_auth auth_with
  admitted_was_logged_in start calls cookies now e =
      let (token, (expiry, (carried, active, alive))) =
        admitted-active (configured x x.admin_token) cookies now (serve_calls x start calls) e in
      (token, (expiry, (carried, alive, active-IsIssued start calls token expiry active)))
