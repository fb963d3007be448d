-- ===== src/Engine/AdminAuth/Limits.antt =====
-- packages/engine/src/middleware/admin-auth.ts: how many sessions and failures there are.
use ghost_bazaar.Prelude.{
  ℕ, String, ◌===◌, ltb, leb, false, Bool-cases, Option-cases, List, [], ◌∷◌, Option, none, some,
  length, ◌≡◌, ◌≤◌, ◌+◌, ◌*◌, inl, inr, if_holds, arith,
}
use ghost_bazaar.Prelude.Dict.{
  Dict, lookup, insert, remove, lookup-insert, length-insert-le, length-remove-le, lookup-remove,
}
use ghost_bazaar.Engine.AdminAuth.{
  Secrets, Attempts, AdminAuth, session_max_age, max_active_sessions, fresh_auth, sweep_each,
  sweep_expired_sessions, check_login_rate_limit, record_failed_login, clear_login_attempts,
  reset_global_window, window_is_over, LoginResult, AuthResult, is_expired, match_cookie,
  check_token, open_session, window_is_over, one_more, has_failed, max_login_attempts_per_ip,
  forget_each, forget_over, max_tracked_ips, configured, safe_compare, try_password, login_with,
  handle_login, auth_with, require_admin_auth, handle_logout,
}
use ghost_bazaar.Engine.AdminAuth.Calls.{
  AdminCall, logs_in, asks, logs_out, serve_call, serve_calls,
}

-- The failures that are counted for an address.
abbrev pub failures : Option Attempts → ℕ
failures none = 0
failures (some entry) = entry.count

sweep_each-le : (now : ℕ) (es m : Dict ℕ) → length (sweep_each now es m) ≤ length m
unfolding sweep_each
sweep_each-le now [] m = omega arith
sweep_each-le now ((token, expiry) ∷ es) m =
    if_holds (λ (n : Dict ℕ). length (sweep_each now es n) ≤ length m) (ltb expiry now)
      (λ _. omega (arith, sweep_each-le now es (remove token m), length-remove-le token m))
      (λ _. sweep_each-le now es m)

remove-failures :
    (k ip : String) (m : Dict Attempts) → failures (lookup ip (remove k m)) ≤ failures (lookup ip m)
remove-failures k ip m = rw (lookup-remove k ip m) (
    if_holds (λ o. failures o ≤ failures (lookup ip m)) (k === ip) (λ _. omega arith)
      (λ _. omega arith))

forget_each-failures :
    (now : ℕ) (es m : Dict Attempts) (ip : String)
    → failures (lookup ip (forget_each now es m)) ≤ failures (lookup ip m)
unfolding forget_each
forget_each-failures now [] m ip = omega arith
forget_each-failures now ((k, entry) ∷ es) m ip =
    if_holds
      (λ (n : Dict Attempts). failures (lookup ip (forget_each now es n)) ≤ failures (lookup ip m))
      (window_is_over entry.window_start now)
      (λ _. omega (arith, forget_each-failures now es (remove k m) ip, remove-failures k ip m))
      (λ _. forget_each-failures now es m ip)

forget_over-failures :
    (now : ℕ) (m : Dict Attempts) (ip : String)
    → failures (lookup ip (forget_over now m)) ≤ failures (lookup ip m)
unfolding forget_over
forget_over-failures now m ip =
    if_holds (λ (n : Dict Attempts). failures (lookup ip n) ≤ failures (lookup ip m))
      (ltb max_tracked_ips (length m)) (λ _. forget_each-failures now m m ip) (λ _. omega arith)

-- At most `max_active_sessions` sessions, and `max_login_attempts_per_ip` failures for an address.
abbrev pub IsCapped : AdminAuth → Type 0
IsCapped a =
    (length a.active_sessions ≤ max_active_sessions)
    × ((ip : String) → failures (lookup ip a.login_attempts_by_ip) ≤ max_login_attempts_per_ip)

abbrev LeavesCapped : LoginResult × AdminAuth → Type 0
LeavesCapped r = IsCapped r.1

one_more-le :
    (o : Option Attempts) (now : ℕ)
    → has_failed max_login_attempts_per_ip o now ≡ false
    → (one_more o now).count ≤ max_login_attempts_per_ip
one_more-le none now h = omega arith
one_more-le (some entry) now h = elim (Bool-cases (window_is_over entry.window_start now)) [
  | inl y ↦ rw y (omega arith)
  | inr n ↦ rw n (ground (arith, n, h))
]

failed-failures :
    (k ip : String) (now : ℕ) (m : Dict Attempts)
    → has_failed max_login_attempts_per_ip (lookup k m) now ≡ false
    → failures (lookup ip m) ≤ max_login_attempts_per_ip
    → failures (lookup ip (insert k (one_more (lookup k m) now) m)) ≤ max_login_attempts_per_ip
failed-failures k ip now m free le = rw (lookup-insert k ip (one_more (lookup k m) now) m) (
    if_holds (λ o. failures o ≤ max_login_attempts_per_ip) (k === ip)
      (λ _. one_more-le (lookup k m) now free) (λ _. le))

recorded-failures :
    (k ip : String) (now : ℕ) (m : Dict Attempts)
    → has_failed max_login_attempts_per_ip (lookup k m) now ≡ false
    → failures (lookup ip m) ≤ max_login_attempts_per_ip
    → failures (lookup ip (forget_over now (insert k (one_more (lookup k m) now) m)))
      ≤ max_login_attempts_per_ip
recorded-failures k ip now m free le = omega (
  arith,
  forget_over-failures now (insert k (one_more (lookup k m) now) m) ip,
  failed-failures k ip now m free le,
)

global-IsCapped : (now : ℕ) (a : AdminAuth) → IsCapped a → IsCapped (reset_global_window now a)
global-IsCapped now a h =
    if_holds IsCapped (window_is_over a.global_login_window_start now) (λ _. h) (λ _. h)

open_session-IsCapped :
    (fresh : String) (now : ℕ) (a : AdminAuth)
    → IsCapped a
    → LeavesCapped (open_session fresh now a)
unfolding open_session
open_session-IsCapped fresh now a h =
    if_holds LeavesCapped (leb max_active_sessions (length a.active_sessions)) (λ _. h)
      (λ room. (
        ground
            (arith, room, length-insert-le fresh (now + session_max_age * 1000) a.active_sessions),
        h.1,
      ))

module _ (x : Secrets) where
  try_password-IsCapped :
      (secret password ip fresh : String) (now : ℕ) (a : AdminAuth)
      → has_failed max_login_attempts_per_ip (lookup ip a.login_attempts_by_ip) now ≡ false
      → IsCapped a
      → LeavesCapped (try_password x secret password ip fresh now a)
  unfolding try_password sweep_expired_sessions clear_login_attempts record_failed_login
  try_password-IsCapped secret password ip fresh now a free (few, capped) =
      if_holds LeavesCapped (safe_compare x password secret)
        (λ _.
          open_session-IsCapped fresh now (sweep_expired_sessions now (clear_login_attempts ip a)) (
            omega (arith, few, sweep_each-le now a.active_sessions a.active_sessions),
            λ k. omega (arith, capped k, remove-failures ip k a.login_attempts_by_ip),
          ))
        (λ _.
          if_holds
            (λ (b : AdminAuth). IsCapped (record b {
              login_attempts_by_ip = forget_over now (
                  insert ip (one_more (lookup ip b.login_attempts_by_ip) now)
                    b.login_attempts_by_ip);
            }))
            (window_is_over a.global_login_window_start now)
            (λ _. (few, λ k. recorded-failures ip k now a.login_attempts_by_ip free (capped k)))
            (λ _. (few, λ k. recorded-failures ip k now a.login_attempts_by_ip free (capped k))))

  login_with-IsCapped :
      (o : Option String) (password ip fresh : String) (now : ℕ) (a : AdminAuth)
      → IsCapped a
      → LeavesCapped (login_with x o password ip fresh now a)
  unfolding login_with check_login_rate_limit
  login_with-IsCapped none password ip fresh now a h = h
  login_with-IsCapped (some secret) password ip fresh now a h =
      if_holds LeavesCapped (check_login_rate_limit ip now a).0
        (λ allowed.
          try_password-IsCapped secret password ip fresh now (reset_global_window now a)
            (ground (arith, allowed)) (global-IsCapped now a h))
        (λ _. global-IsCapped now a h)

  auth_with-IsCapped :
      (o : Option String) (cookies : String) (now : ℕ) (a : AdminAuth)
      → IsCapped a
      → IsCapped (auth_with x o cookies now a).1
  unfolding auth_with sweep_expired_sessions check_token
  auth_with-IsCapped none cookies now a h = h
  auth_with-IsCapped (some secret) cookies now a (few, capped) =
      let swept = sweep_each-le now a.active_sessions a.active_sessions in
      elim (Option-cases (match_cookie cookies)) [
        | inl n ↦ rw n (omega (arith, few, swept), capped)
        | inr (t, y) ↦ rw y (
            if_holds (λ (r : AuthResult × AdminAuth). IsCapped r.1)
              (is_expired (lookup t (sweep_expired_sessions now a).active_sessions) now)
              (λ _. (
                omega (
                  arith,
                  few,
                  swept,
                  length-remove-le t (sweep_each now a.active_sessions a.active_sessions),
                ),
                capped,
              ))
              (λ _. (omega (arith, few, swept), capped)))
      ]

  serve_calls-IsCapped : (start : ℕ) (calls : List AdminCall) → IsCapped (serve_calls x start calls)
  unfolding serve_calls serve_call fresh_auth lookup handle_login require_admin_auth handle_logout
  serve_calls-IsCapped start [] = (omega arith, λ ip. omega arith)
  serve_calls-IsCapped start (logs_in password ip fresh now ∷ cs) =
      login_with-IsCapped (configured x x.admin_token) password ip fresh now
        (serve_calls x start cs) (serve_calls-IsCapped start cs)
  serve_calls-IsCapped start (asks cookies now ∷ cs) =
      auth_with-IsCapped (configured x x.admin_token) cookies now (serve_calls x start cs)
        (serve_calls-IsCapped start cs)
  serve_calls-IsCapped start (logs_out cookies ∷ cs) =
      let (few, capped) = serve_calls-IsCapped start cs in
      elim (Option-cases (match_cookie cookies)) [
        | inl n ↦ rw n (few, capped)
        | inr (t, y) ↦ rw y (
          omega (arith, few, length-remove-le t (serve_calls x start cs).active_sessions),
          capped,
        )
      ]

  -- Whatever logins, requests and logouts are served, at most 50 sessions are active, and at most
  -- 5 failures are counted for an address.
  pub logins_are_limited :
      (start : ℕ) (calls : List AdminCall) (ip : String)
      → (length (serve_calls x start calls).active_sessions ≤ max_active_sessions)
        × (failures (lookup ip (serve_calls x start calls).login_attempts_by_ip)
            ≤ max_login_attempts_per_ip)
  logins_are_limited start calls ip =
      let (few, capped) = serve_calls-IsCapped start calls in (few, capped ip)
