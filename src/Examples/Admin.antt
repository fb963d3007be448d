-- ===== src/Examples/Admin.antt =====
-- The admin panel: a wrong password, a login, a request and a logout; the HMAC is the text itself.
use ghost_bazaar.Prelude.{ℕ, String, ◌===◌, ◌≡◌, ◌≤◌, refl, List, [], ◌∷◌, some, length}
use ghost_bazaar.Prelude.Dict.{lookup, insert, remove}
use ghost_bazaar.Engine.AdminAuth.{
  Secrets, require_admin_auth, match_cookie, max_active_sessions, max_login_attempts_per_ip,
  handle_login, login_with, auth_with, check_login_rate_limit, try_password, record_failed_login,
  clear_login_attempts, sweep_expired_sessions, sweep_each, open_session, check_token, safe_compare,
  handle_logout, fresh_auth, forget_over,
}
use ghost_bazaar.Engine.AdminAuth.Calls.{
  AdminCall, logs_in, asks, logs_out, serve_call, serve_calls,
}
use ghost_bazaar.Engine.AdminAuth.Admission.{IsIssued, admitted_was_logged_in}
use ghost_bazaar.Engine.AdminAuth.Limits.{failures, logins_are_limited}

abbrev secrets : Secrets
secrets = record { admin_token = some "secret"; hmac = λ s. s }

abbrev session_token : String
session_token = "0123456789abcdef0123456789abcdef0123456789abcdef0123456789abcdef"

abbrev other_token : String
other_token = "fedcba9876543210fedcba9876543210fedcba9876543210fedcba9876543210"

abbrev carried : String
carried = "a=b; ghost_bazaar_admin=0123456789abcdef0123456789abcdef0123456789abcdef0123456789abcdef"

abbrev other_carried : String
other_carried =
    "ghost_bazaar_admin=fedcba9876543210fedcba9876543210fedcba9876543210fedcba9876543210"

abbrev served : List AdminCall
served =
    logs_out other_carried
    ∷ asks other_carried 400
    ∷ logs_in "secret" "ip2" other_token 300
    ∷ logs_in "secret" "ip" session_token 200
    ∷ logs_in "guess" "ip" "" 100
    ∷ []

admitted_was_logged_in_example :
    (token : String) × ((expiry : ℕ) × ((match_cookie carried ≡ some token)
        × (500 ≤ expiry)
        × IsIssued secrets token expiry served))
unfolding serve_calls serve_call handle_login login_with auth_with check_login_rate_limit
    try_password record_failed_login clear_login_attempts sweep_expired_sessions sweep_each
    open_session check_token safe_compare handle_logout fresh_auth forget_over require_admin_auth
    match_cookie lookup insert remove ◌===◌
admitted_was_logged_in_example = admitted_was_logged_in secrets 0 served carried 500 refl

logins_are_limited_example :
    (length (serve_calls secrets 0 served).active_sessions ≤ max_active_sessions)
    × (failures (lookup "ip" (serve_calls secrets 0 served).login_attempts_by_ip)
        ≤ max_login_attempts_per_ip)
logins_are_limited_example = logins_are_limited secrets 0 served "ip"
