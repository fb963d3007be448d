-- ===== src/Engine/SessionManager.antt =====
-- packages/engine/src/state/session-manager.ts: sessions read through a cache and extended by events
-- that a dry run has accepted. `now` is `Date.now()`. The locks themselves are in SessionLock; here
-- `active_locks` are the sessions inside a `withLock` callback.
pub mod Soundness
pub mod SessionLock
use ghost_bazaar.Prelude.{
  ℕ, ◌-◌, String, ◌===◌, ◌==◌, ltb, Bool, true, false, not, List, [], ◌∷◌, ◌++◌, Option, none, some,
  any, keep, Result, ok, err, ◌>>=◌, ◌>>◌, require, or_throw, if◌then◌else◌,
}
use ghost_bazaar.Prelude.Dict.{Dict, lookup, insert, remove, keys}
use ghost_bazaar.Engine.Types.{NegotiationEvent}
use ghost_bazaar.Engine.Session.{DerivedSession, DeriveError, derive_state}
use ghost_bazaar.Engine.EventStore.{
  EventStore, StoreError, append, get_all_events, size, list_session_ids,
}

pub record CacheEntry : Type 0 where
  pub event_count : ℕ
  pub session : DerivedSession
  pub last_accessed_at : ℕ

pub record SessionManager : Type 0 where
  pub store : EventStore
  pub active_locks : List String
  pub session_cache : Dict CacheEntry

pub data ManagerError : Type 0 where
  not_locked null_session : ManagerError
  derive_error : DeriveError → ManagerError
  store_error : StoreError → ManagerError

-- An error of a callee passes through.
abbrev pub through {ℓ} :
    {E : Type 0} {A : Type ℓ} → (E → ManagerError) → Result E A → Result ManagerError A
through f (ok a) = ok a
through f (err e) = err (f e)

abbrev pub cache_put : String → CacheEntry → SessionManager → SessionManager
cache_put k c m = record m { session_cache = insert k c m.session_cache }

-- The replay on a cache miss; what it derives goes into the cache.
unfoldable pub load_session :
    String → ℕ → SessionManager → Result ManagerError (Option DerivedSession × SessionManager)
load_session k now m = do
  session ← through derive_error (derive_state (get_all_events k m.store))
  ok (elim session [
    | none ↦ (none, m)
    | some s ↦ (
      some s,
      cache_put k (record { event_count = size k m.store; session = s; last_accessed_at = now }) m,
    )
  ])

unfoldable pub get_session :
    String → ℕ → SessionManager → Result ManagerError (Option DerivedSession × SessionManager)
get_session k now m =
    if size k m.store == 0 then ok (none, m) else elim (lookup k m.session_cache) [
      | none ↦ load_session k now m
      | some c ↦
          if c.event_count == size k m.store
          then ok (some c.session, cache_put k (record c { last_accessed_at = now }) m)
          else load_session k now m
    ]

abbrev pub is_locked : String → SessionManager → Bool
is_locked k m = any (λ j. j === k) m.active_locks

-- The manager once an event is stored.
abbrev pub persisted : String → DerivedSession → ℕ → EventStore → SessionManager → SessionManager
persisted k s now st m =
    cache_put k (record { event_count = size k st; session = s; last_accessed_at = now })
      (record m { store = st })

-- Validate by a dry run, then persist. The observers of `onAppend` cannot change the outcome.
unfoldable pub append_event :
    String
    → NegotiationEvent
    → ℕ
    → SessionManager
    → Result ManagerError (DerivedSession × SessionManager)
append_event k e now m = do
  require (is_locked k m) not_locked
  derived ← through derive_error (derive_state (get_all_events k m.store ++ e ∷ []))
  candidate ← or_throw derived null_session
  st ← through store_error (append k e m.store)
  ok (candidate, persisted k candidate now st m)

unfoldable pub has_session : String → SessionManager → Bool
has_session k m = ltb 0 (size k m.store)

unfoldable pub get_active_session_ids : SessionManager → List String
get_active_session_ids m = list_session_ids m.store

-- The bookkeeping of `withLock` around its callback.
unfoldable pub enter_lock : String → SessionManager → SessionManager
enter_lock k m = record m { active_locks = k ∷ m.active_locks }

unfoldable pub leave_lock : String → SessionManager → SessionManager
leave_lock k m = record m { active_locks = keep (λ j. not (j === k)) m.active_locks }

-- The loop of `evictStaleCache`, over the entries that the cache held when it began.
unfoldable pub evict : ℕ → Dict CacheEntry → Dict CacheEntry → Dict CacheEntry
evict cutoff [] cache = cache
evict cutoff ((k, c) ∷ entries) cache =
    evict cutoff entries (if ltb c.last_accessed_at cutoff then remove k cache else cache)

unfoldable pub evict_stale_cache : ℕ → ℕ → SessionManager → SessionManager
evict_stale_cache now max_age m = record m {
  session_cache = evict (now - max_age) m.session_cache m.session_cache;
}
