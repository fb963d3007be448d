-- ===== src/Engine/AdminAuth.antt =====
-- packages/engine/src/middleware/admin-auth.ts: the sessions of the admin panel and the limits on logins.
-- The module's variables are the fields of a record. The clock and the random token are arguments.
pub mod Calls
pub mod Sessions
pub mod Admission
pub mod Limits
use ghost_bazaar.Prelude.{
  ℕ, zero, suc, String, ◌===◌, ltb, leb, ◌==◌, Bool, true, false, ◌&&◌, ◌||◌, not, List, [], ◌∷◌,
  Option, none, some, length, if◌then◌else◌, ◌+◌, ◌*◌, ◌-◌,
}
use ghost_bazaar.Prelude.Dict.{Dict, lookup, insert, remove}
use ghost_bazaar.Prelude.Text.{is_hex}
use Prim.Native.Char.{Char, code}

-- `ADMIN_TOKEN` of the environment, and the HMAC of Node's crypto library.
pub record Secrets : Type 0 where
  pub admin_token : Option String
  pub hmac : String → String

pub record Attempts : Type 0 where
  pub count : ℕ
  pub window_start : ℕ

pub record AdminAuth : Type 0 where
  pub active_sessions : Dict ℕ
  pub login_attempts_by_ip : Dict Attempts
  pub global_login_attempts : ℕ
  pub global_login_window_start : ℕ

abbrev pub session_max_age : ℕ
session_max_age = 24 * 60 * 60

abbrev pub max_active_sessions : ℕ
max_active_sessions = 50

abbrev pub login_window_ms : ℕ
login_window_ms = 60000

abbrev pub max_login_attempts_per_ip : ℕ
max_login_attempts_per_ip = 5

abbrev pub max_login_attempts_global : ℕ
max_login_attempts_global = 20

abbrev pub max_tracked_ips : ℕ
max_tracked_ips = 1000

unfoldable pub fresh_auth : ℕ → AdminAuth
fresh_auth now = record {
  active_sessions = [];
  login_attempts_by_ip = [];
  global_login_attempts = 0;
  global_login_window_start = now;
}

-- `now - start > LOGIN_WINDOW_MS`; a clock that went back gives a negative number.
abbrev pub window_is_over : ℕ → ℕ → Bool
window_is_over start now = ltb login_window_ms (now - start)

-- The loop of `sweepExpiredSessions` over the entries.
unfoldable pub sweep_each : ℕ → Dict ℕ → Dict ℕ → Dict ℕ
sweep_each now [] m = m
sweep_each now ((token, expiry) ∷ rest) m =
    sweep_each now rest (if ltb expiry now then remove token m else m)

unfoldable pub sweep_expired_sessions : ℕ → AdminAuth → AdminAuth
unfolding sweep_each
sweep_expired_sessions now a = record a {
  active_sessions = sweep_each now a.active_sessions a.active_sessions;
}

-- Whether the address has this many failures in its window.
abbrev pub has_failed : ℕ → Option Attempts → ℕ → Bool
has_failed n none now = false
has_failed n (some entry) now = not (window_is_over entry.window_start now) && leb n entry.count

abbrev pub reset_global_window : ℕ → AdminAuth → AdminAuth
reset_global_window now a =
    if window_is_over a.global_login_window_start now
    then record a { global_login_attempts = 0; global_login_window_start = now }
    else a

unfoldable pub check_login_rate_limit : String → ℕ → AdminAuth → Bool × AdminAuth
check_login_rate_limit ip now a =
    let b = reset_global_window now a in
    let entry = lookup ip b.login_attempts_by_ip in
    (
      if has_failed max_login_attempts_per_ip entry now
          then false
          else not
              (leb max_login_attempts_global b.global_login_attempts && has_failed 1 entry now),
      b,
    )

abbrev pub count_globally : ℕ → AdminAuth → AdminAuth
count_globally now a =
    if window_is_over a.global_login_window_start now
    then record a { global_login_attempts = 1; global_login_window_start = now }
    else record a { global_login_attempts = suc a.global_login_attempts }

abbrev pub one_more : Option Attempts → ℕ → Attempts
one_more none now = record { count = 1; window_start = now }
one_more (some entry) now =
    if window_is_over entry.window_start now
    then record { count = 1; window_start = now }
    else record entry { count = suc entry.count }

-- The loop that forgets the addresses whose window is over.
unfoldable pub forget_each : ℕ → Dict Attempts → Dict Attempts → Dict Attempts
forget_each now [] m = m
forget_each now ((ip, entry) ∷ rest) m =
    forget_each now rest (if window_is_over entry.window_start now then remove ip m else m)

unfoldable pub forget_over : ℕ → Dict Attempts → Dict Attempts
unfolding forget_each
forget_over now m = if ltb max_tracked_ips (length m) then forget_each now m m else m

unfoldable pub record_failed_login : String → ℕ → AdminAuth → AdminAuth
unfolding forget_over
record_failed_login ip now a =
    let b = count_globally now a in
    record b {
      login_attempts_by_ip =
          forget_over now
            (insert ip (one_more (lookup ip b.login_attempts_by_ip) now) b.login_attempts_by_ip);
    }

unfoldable pub clear_login_attempts : String → AdminAuth → AdminAuth
clear_login_attempts ip a = record a { login_attempts_by_ip = remove ip a.login_attempts_by_ip }

pub data LoginResult : Type 0 where
  cookie : String → LoginResult
  rate_limited refused : LoginResult

-- After the password was right.
unfoldable pub open_session : String → ℕ → AdminAuth → LoginResult × AdminAuth
open_session token now a =
    if leb max_active_sessions (length a.active_sessions) then (refused, a) else (
      cookie token,
      record a { active_sessions = insert token (now + session_max_age * 1000) a.active_sessions },
    )

-- The `match` of COOKIE_RE: at the first place that fits, the name, and 64 hexadecimal digits.
abbrev pub skip : List ℕ → String → Option String
skip [] s = some s
skip (c ∷ cs) String.[] = none
skip (c ∷ cs) (String.◌∷◌ d s) = if c == code d then skip cs s else none

abbrev pub cons_to : Char → Option String → Option String
cons_to d none = none
cons_to d (some s) = some (String.◌∷◌ d s)

abbrev pub take_hex : ℕ → String → Option String
take_hex zero s = some String.[]
take_hex (suc n) String.[] = none
take_hex (suc n) (String.◌∷◌ d s) =
    let rest = take_hex n s in if is_hex (code d) then cons_to d rest else none

abbrev pub cookie_name : List ℕ
cookie_name =
    b'g' ∷ b'h' ∷ b'o' ∷ b's' ∷ b't' ∷ b'_' ∷ b'b' ∷ b'a' ∷ b'z' ∷ b'a' ∷ b'a' ∷ b'r' ∷ b'_' ∷ b'a'
    ∷ b'd' ∷ b'm' ∷ b'i' ∷ b'n' ∷ b'=' ∷ []

abbrev pub token_behind : Option String → Option String
token_behind none = none
token_behind (some s) = take_hex 64 s

abbrev pub or_else : Option String → Option String → Option String
or_else none o = o
or_else (some s) o = some s

unfoldable pub match_cookie : String → Option String
match_cookie String.[] = none
match_cookie (String.◌∷◌ d s) =
    or_else (token_behind (skip cookie_name (String.◌∷◌ d s))) (match_cookie s)

abbrev pub drop_session : Option String → AdminAuth → AdminAuth
drop_session none a = a
drop_session (some token) a = record a { active_sessions = remove token a.active_sessions }

pub data AuthResult : Type 0 where
  admitted not_configured not_logged_in session_expired : AuthResult

-- `if (!expiry || Date.now() > expiry)`
abbrev pub is_expired : Option ℕ → ℕ → Bool
is_expired none now = true
is_expired (some expiry) now = expiry == 0 || ltb expiry now

unfoldable pub check_token : Option String → ℕ → AdminAuth → AuthResult × AdminAuth
check_token none now a = (not_logged_in, a)
check_token (some token) now a =
    if is_expired (lookup token a.active_sessions) now
    then (session_expired, drop_session (some token) a)
    else (admitted, a)

module _ (x : Secrets) where
  unfoldable pub safe_compare : String → String → Bool
  safe_compare a b = x.hmac a === x.hmac b

  -- The environment's token, where the empty text counts as none.
  abbrev pub configured : Option String → Option String
  configured none = none
  configured (some s) = if s === "" then none else some s

  -- `handleLogin` once the limits let the address try.
  unfoldable pub try_password :
      String → String → String → String → ℕ → AdminAuth → LoginResult × AdminAuth
  unfolding safe_compare record_failed_login clear_login_attempts sweep_expired_sessions
      open_session
  try_password secret password ip token now a =
      if safe_compare password secret
      then open_session token now (sweep_expired_sessions now (clear_login_attempts ip a))
      else (refused, record_failed_login ip now a)

  unfoldable pub login_with :
      Option String → String → String → String → ℕ → AdminAuth → LoginResult × AdminAuth
  unfolding check_login_rate_limit try_password
  login_with none password ip token now a = (refused, a)
  login_with (some secret) password ip token now a =
      let (allowed, b) = check_login_rate_limit ip now a in
      if allowed then try_password secret password ip token now b else (rate_limited, b)

  unfoldable pub handle_login : String → String → String → ℕ → AdminAuth → LoginResult × AdminAuth
  unfolding login_with
  handle_login = login_with (configured x.admin_token)

  unfoldable pub auth_with : Option String → String → ℕ → AdminAuth → AuthResult × AdminAuth
  unfolding check_token sweep_expired_sessions match_cookie
  auth_with none cookies now a = (not_configured, a)
  auth_with (some secret) cookies now a =
      check_token (match_cookie cookies) now (sweep_expired_sessions now a)

  unfoldable pub require_admin_auth : String → ℕ → AdminAuth → AuthResult × AdminAuth
  unfolding auth_with
  require_admin_auth = auth_with (configured x.admin_token)

unfoldable pub handle_logout : String → AdminAuth → AdminAuth
unfolding match_cookie
handle_logout cookies a = drop_session (match_cookie cookies) a
