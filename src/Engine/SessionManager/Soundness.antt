-- ===== src/Engine/SessionManager/Soundness.antt =====
-- The cache is transparent and no event enters a log that the replay would refuse.
use ghost_bazaar.Prelude.{
  ℕ, ◌-◌, ◌≤◌, ◌==◌, ltb, String, ◌===◌, ===_iff, ===_refl, ◌≡◌, refl, sym, ap, ◌∙◌, subst, true,
  false, List, [], ◌∷◌, ◌++◌, Option, none, some, arith, ok, err, Result, ◌>>=◌, or_throw,
  >>=-eq-ok, require-eq-ok, Bool-cases, Option-cases, inl, inr, if◌then◌else◌, length,
  length-append, ◌⊎◌,
}
use ghost_bazaar.Prelude.Dict.{Dict, lookup, insert, remove, lookup-insert, lookup-remove}
use ghost_bazaar.Engine.Types.{NegotiationEvent}
use ghost_bazaar.Engine.Session.{DerivedSession, DeriveError, derive_state, apply_event}
use ghost_bazaar.Engine.Session.Replay.{derive_state-snoc}
use ghost_bazaar.Engine.Session.Inversion.{or_throw-eq-ok}
use ghost_bazaar.Engine.EventStore.{EventStore, append, get_all_events, size}
use ghost_bazaar.Engine.EventStore.Log.{get_all_events-append}
use ghost_bazaar.Engine.SessionManager.{
  CacheEntry, SessionManager, ManagerError, derive_error, store_error, null_session, through,
  load_session, get_session, append_event, is_locked, evict, evict_stale_cache, cache_put,
  persisted,
}

-- A cached session is that of the log of its length, and the log has not become shorter since.
abbrev pub IsCached : EventStore → String → CacheEntry → Type 0
IsCached st k c =
    (c.event_count ≤ length (get_all_events k st))
    × (c.event_count ≡ length (get_all_events k st)
        → derive_state (get_all_events k st) ≡ ok (some c.session))

pub record IsSound (m : SessionManager) : Type 0 where
  pub valid :
      (k : String)
      → (get_all_events k m.store ≡ [])
        ⊎ ((s : DerivedSession) × (derive_state (get_all_events k m.store) ≡ ok (some s)))
  pub cached :
      (k : String) (c : CacheEntry) → lookup k m.session_cache ≡ some c → IsCached m.store k c

through-eq-ok {ℓ} :
    {E : Type 0} {A : Type ℓ} (f : E → ManagerError) (r : Result E A) {a : A}
    → through f r ≡ ok a
    → r ≡ ok a
through-eq-ok f (ok a) h = cc
through-eq-ok f (err e) h = absurd (cc)

pub size-length : (k : String) (st : EventStore) → size k st ≡ length (get_all_events k st)
unfolding size get_all_events
size-length k st = refl

-- Any correct entry may be cached.
put-IsSound :
    (k : String) (c : CacheEntry) (m : SessionManager)
    → IsCached m.store k c
    → IsSound m
    → IsSound (cache_put k c m)
put-IsSound k c m right v = record {
  valid = v.valid;
  cached = λ j d h. elim (Bool-cases (k === j)) [
    | inl same ↦
        subst (λ i. IsCached m.store i d) ((===_iff k j).0 same)
          (subst (IsCached m.store k) (entry j d h same) right)
    | inr other ↦ v.cached j d (rw other at (sym (lookup-insert k j c m.session_cache) ∙ h))
  ];
}
  where
    entry :
        (j : String) (d : CacheEntry)
        → lookup j (insert k c m.session_cache) ≡ some d
        → (k === j) ≡ true
        → c ≡ d
    entry j d h same = ground (arith, lookup-insert k j c m.session_cache)

nil-derives : (es : List NegotiationEvent) → es ≡ [] → derive_state es ≡ ok none
unfolding derive_state
nil-derives es h = rw h

pub length-eq_zero : (es : List NegotiationEvent) → (length es == 0) ≡ true → es ≡ []
length-eq_zero [] h = refl
length-eq_zero (e ∷ es) h = absurd (ground arith)

-- A successful read: it returns what the log derives and changes nothing but the cache.
abbrev pub Reads :
    String → SessionManager → Result ManagerError (Option DerivedSession × SessionManager) → Type 0
Reads k m r =
    (o : Option DerivedSession) × (m' : SessionManager) × (r ≡ ok (o, m'))
    × (derive_state (get_all_events k m.store) ≡ ok o)
    × (m'.store ≡ m.store)
    × (m'.active_locks ≡ m.active_locks)
    × IsSound m'

load_session-Reads :
    (k : String) (now : ℕ) (m : SessionManager) → IsSound m → Reads k m (load_session k now m)
unfolding load_session
load_session-Reads k now m v = elim (v.valid k) [
  | inl empty ↦
      let derived : derive_state (get_all_events k m.store) ≡ ok none = nil-derives _ empty in
      (none, m, rw (derived, through), derived, refl, refl, v)
  | inr (s, derived) ↦
      let entry : CacheEntry = record {
        event_count = size k m.store;
        session = s;
        last_accessed_at = now;
      } in
      (
        some s,
        cache_put k entry m,
        rw (derived, through),
        derived,
        refl,
        refl,
        put-IsSound k entry m (omega (arith, size-length k m.store), (λ h. derived)) v,
      )
]

-- On a sound manager getSession returns what a replay of the whole log derives, null for an
-- unknown session, whatever the cache holds; it never throws, and it leaves the logs and the
-- locks as they are and the manager sound.
pub get_session-Reads :
    (k : String) (now : ℕ) (m : SessionManager) → IsSound m → Reads k m (get_session k now m)
unfolding get_session
get_session-Reads k now m v = elim (Bool-cases (size k m.store == 0)) [
  | inl none_yet ↦ rw none_yet (
    none,
    m,
    refl,
    nil-derives _ (length-eq_zero _ (rw (size-length k m.store) at none_yet)),
    refl,
    refl,
    v,
  )
  | inr some_events ↦ elim (Option-cases (lookup k m.session_cache)) [
    | inl miss ↦ rw (some_events, miss, get_session) (load_session-Reads k now m v)
    | inr (c, hit) ↦ elim (Bool-cases (c.event_count == size k m.store)) [
      | inl current ↦
          let right = v.cached k c hit in
          rw (some_events, hit, get_session)
            (rw current (
              some c.session,
              cache_put k (record c { last_accessed_at = now }) m,
              refl,
              right.1 (ground (arith, size-length k m.store)),
              refl,
              refl,
              put-IsSound k (record c { last_accessed_at = now }) m right v,
            ))
      | inr stale ↦ rw (some_events, hit, get_session) (rw stale (load_session-Reads k now m v))
    ]
  ]
]

pair-injective {ℓ κ μ} :
    {E : Type ℓ} {A : Type κ} {B : Type μ} {a c : A} {b d : B}
    → ◌≡◌ {A = Result E (A × B)} (ok (a, b)) (ok (c, d))
    → (a ≡ c) × (b ≡ d)
pair-injective h = (cc, cc)

-- What a successful `appendEvent` did: the lock is held, the event passed the dry run, and the store
-- is the old one with the event appended.
pub append_event-eq_ok :
    (k : String) (e : NegotiationEvent) (now : ℕ) (m m' : SessionManager) (s : DerivedSession)
    → append_event k e now m ≡ ok (s, m')
    → (st : EventStore) × (is_locked k m ≡ true)
      × (derive_state (get_all_events k m.store ++ e ∷ []) ≡ ok (some s))
      × (append k e m.store ≡ ok st)
      × (m' ≡ persisted k s now st m)
unfolding append_event
append_event-eq_ok k e now m m' s h =
    let (locked, after) = require-eq-ok (is_locked k m) _ _ h in
    let (derived, dry, rest) = >>=-eq-ok (through derive_error _) _ after in
    let (candidate, found, last) = >>=-eq-ok (or_throw derived null_session) _ rest in
    let (st, stored, done) = >>=-eq-ok (through store_error (append k e m.store)) _ last in
    let (same, manager) = pair-injective done in
    (
      st,
      locked,
      through-eq-ok _ _ dry ∙ ap ok (or_throw-eq-ok _ _ found ∙ ap some same),
      through-eq-ok _ _ stored,
      sym manager ∙ ap (λ c. persisted k c now st m) same,
    )

-- The store and the cache after the append, session by session.
module _ (k : String) (e : NegotiationEvent) (now : ℕ) (m : SessionManager) (st : EventStore)
    (s : DerivedSession) (derived : derive_state (get_all_events k m.store ++ e ∷ []) ≡ ok (some s))
    (stored : append k e m.store ≡ ok st) (v : IsSound m) where
  log_same : get_all_events k st ≡ get_all_events k m.store ++ e ∷ []
  log_same = rw (===_refl k) at (get_all_events-append k k e m.store st stored)

  log_cases :
      (j : String)
      → ((k ≡ j) × (get_all_events j st ≡ get_all_events j m.store ++ e ∷ []))
        ⊎ (((k === j) ≡ false) × (get_all_events j st ≡ get_all_events j m.store))
  log_cases j = elim (Bool-cases (k === j)) [
    | inl same ↦
        inl ((===_iff k j).0 same, rw same at (get_all_events-append k j e m.store st stored))
    | inr other ↦ inr (other, rw other at (get_all_events-append k j e m.store st stored))
  ]

  derived_now : derive_state (get_all_events k st) ≡ ok (some s)
  derived_now = rw log_same derived

  valid-persisted :
      (j : String)
      → (get_all_events j st ≡ [])
        ⊎ ((t : DerivedSession) × (derive_state (get_all_events j st) ≡ ok (some t)))
  valid-persisted j = elim (log_cases j) [
    | inl (same, p) ↦
        inr (s, subst (λ i. derive_state (get_all_events i st) ≡ ok (some s)) same derived_now)
    | inr (_, p) ↦ rw p (v.valid j)
  ]

  -- An old entry of the session is shorter than its log from now on.
  old-IsCached : (j : String) (c : CacheEntry) → IsCached m.store j c → IsCached st j c
  old-IsCached j c right = elim (log_cases j) [
    | inl (_, p) ↦
        let longer = length-append (get_all_events j m.store) (e ∷ []) in
        (
          rw p (omega (arith, longer, right.0)),
          (λ n. absurd (omega (arith, longer, right.0, n, ap length p))),
        )
    | inr (_, p) ↦ rw p right
  ]

  persisted-IsSound : IsSound (persisted k s now st m)
  persisted-IsSound =
      put-IsSound k (record { event_count = size k st; session = s; last_accessed_at = now })
        (record m { store = st }) (omega (arith, size-length k st), (λ n. derived_now))
        (record { valid = valid-persisted; cached = λ j c h. old-IsCached j c (v.cached j c h) })

-- An event that appendEvent accepts leaves every log derivable and the cache right; the log grows
-- by that event, and the session that is returned is one step of the replay on from the session
-- before it.
pub append_event-IsSound :
    (k : String) (e : NegotiationEvent) (now : ℕ) (m m' : SessionManager) (s : DerivedSession)
    → IsSound m
    → append_event k e now m ≡ ok (s, m')
    → IsSound m'
      × (derive_state (get_all_events k m'.store) ≡ ok (some s))
      × (get_all_events k m'.store ≡ get_all_events k m.store ++ e ∷ [])
      × ((before : DerivedSession)
          → derive_state (get_all_events k m.store) ≡ ok (some before)
          → apply_event e before ≡ ok s)
append_event-IsSound k e now m m' s v h =
    let (st, locked, derived, stored, same) = append_event-eq_ok k e now m m' s h in
    rw same (
      persisted-IsSound k e now m st s derived stored v,
      derived_now k e now m st s derived stored v,
      log_same k e now m st s derived stored v,
      λ before b.
          ok-some-injective _
            (sym (derive_state-snoc (get_all_events k m.store) e before b) ∙ derived),
    )
  where
    ok-some-injective :
        (r : Result DeriveError DerivedSession) → (r >>= λ t. ok (some t)) ≡ ok (some s) → r ≡ ok s
    ok-some-injective (ok t) p = ap ok (cc)
    ok-some-injective (err x) p = absurd (cc)

-- Evicting entries cannot make the cache wrong.
lookup-evict :
    (cutoff : ℕ) (k : String) (entries cache : Dict CacheEntry)
    → (lookup k (evict cutoff entries cache) ≡ none)
      ⊎ (lookup k (evict cutoff entries cache) ≡ lookup k cache)
unfolding evict
lookup-evict cutoff k [] cache = inr refl
lookup-evict cutoff k ((j, c) ∷ entries) cache = ground (
  arith,
  lookup-remove j k cache,
  lookup-evict cutoff k entries (if ltb c.last_accessed_at cutoff then remove j cache else cache),
)

-- Evicting the entries that were not read lately leaves the manager sound.
pub evict_stale_cache-IsSound :
    (now max_age : ℕ) (m : SessionManager) → IsSound m → IsSound (evict_stale_cache now max_age m)
unfolding evict_stale_cache
evict_stale_cache-IsSound now max_age m v = record {
  valid = v.valid;
  cached = λ k c h. elim (lookup-evict (now - max_age) k m.session_cache m.session_cache) [
    | inl gone ↦ absurd (lost k c h gone)
    | inr kept ↦ v.cached k c (sym kept ∙ h)
  ];
}
  where
    lost :
        (k : String) (c : CacheEntry)
        → lookup k (evict (now - max_age) m.session_cache m.session_cache) ≡ some c
        → lookup k (evict (now - max_age) m.session_cache m.session_cache) ≡ none
        → ⊥
    lost k c h gone = cc
