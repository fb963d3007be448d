-- ===== src/Engine/AdminAuth/Calls.antt =====
-- packages/engine/src/middleware/admin-auth.ts: the calls of the admin panel, one after another.
use ghost_bazaar.Prelude.{ℕ, String, true, List, [], ◌∷◌, some, ◌≡◌, ◌≢◌}
use ghost_bazaar.Engine.AdminAuth.{
  Secrets, AdminAuth, fresh_auth, match_cookie, configured, safe_compare, handle_login,
  require_admin_auth, handle_logout,
}

-- The calls of the panel, as the module's exported functions serve them.
pub data AdminCall : Type 0 where
  logs_in : String → String → String → ℕ → AdminCall
  asks : String → ℕ → AdminCall
  logs_out : String → AdminCall

-- The call does not give the token up.
abbrev pub Keeps : String → AdminCall → Type 0
Keeps token (logs_out cookies) = match_cookie cookies ≢ some token
Keeps token _ = Unit

module _ (x : Secrets) where
  unfoldable pub serve_call : AdminCall → AdminAuth → AdminAuth
  unfolding handle_login require_admin_auth handle_logout
  serve_call (logs_in password ip token now) a = (handle_login x password ip token now a).1
  serve_call (asks cookies now) a = (require_admin_auth x cookies now a).1
  serve_call (logs_out cookies) a = handle_logout cookies a

  -- The state after the calls, of which the last is the first of the list.
  unfoldable pub serve_calls : ℕ → List AdminCall → AdminAuth
  unfolding serve_call fresh_auth
  serve_calls start [] = fresh_auth start
  serve_calls start (c ∷ cs) = serve_call c (serve_calls start cs)

  abbrev pub IsRight : String → Type 0
  IsRight password =
      (secret : String) × (configured x x.admin_token ≡ some secret)
      × (safe_compare x password secret ≡ true)
