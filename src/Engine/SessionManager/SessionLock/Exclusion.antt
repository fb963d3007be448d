-- ===== src/Engine/SessionManager/SessionLock/Exclusion.antt =====
-- One request at a time, in the order of arrival.
use ghost_bazaar.Prelude.{
  ℕ, ◌≤◌, leb, ◌==◌, ◌≡◌, refl, sym, ap, ◌∙◌, subst, arith, true, false, Bool-cases, any, length,
  length-append, List, [], ◌∷◌, ◌++◌, append_assoc, append-nil, ◌⊎◌, inl, inr,
}
use ghost_bazaar.Engine.SessionManager.SessionLock.{
  run, release, release_to, splice, time_out, LockHistory, LockEvent, arrives, finishes, times_out,
  fresh_lock, arrive, hand_over, lock_event, lock_events,
}

-- `xs` is `ys` with some elements left out.
pub data IsSubsequence : List ℕ → List ℕ → Type 0 where
  both_empty : IsSubsequence [] []
  left_out : (y : ℕ) (xs ys : List ℕ) → IsSubsequence xs ys → IsSubsequence xs (y ∷ ys)
  kept : (y : ℕ) (xs ys : List ℕ) → IsSubsequence xs ys → IsSubsequence (y ∷ xs) (y ∷ ys)

IsSubsequence-refl : (xs : List ℕ) → IsSubsequence xs xs
IsSubsequence-refl [] = both_empty
IsSubsequence-refl (x ∷ xs) = kept x xs xs (IsSubsequence-refl xs)

IsSubsequence-trans :
    (xs ys zs : List ℕ) → IsSubsequence xs ys → IsSubsequence ys zs → IsSubsequence xs zs
IsSubsequence-trans xs _ _ p both_empty = p
IsSubsequence-trans xs ys _ p (left_out z _ zs q) =
    left_out z xs zs (IsSubsequence-trans xs ys zs p q)
IsSubsequence-trans xs _ _ (left_out _ _ _ p) (kept z ys zs q) =
    left_out z xs zs (IsSubsequence-trans xs ys zs p q)
IsSubsequence-trans _ _ _ (kept _ xs _ p) (kept z ys zs q) =
    kept z xs zs (IsSubsequence-trans xs ys zs p q)

IsSubsequence-snoc :
    (xs ys : List ℕ) (t : ℕ) → IsSubsequence xs ys → IsSubsequence (xs ++ t ∷ []) (ys ++ t ∷ [])
IsSubsequence-snoc _ _ t both_empty = IsSubsequence-refl (t ∷ [])
IsSubsequence-snoc xs _ t (left_out y _ ys p) =
    left_out y (xs ++ t ∷ []) (ys ++ t ∷ []) (IsSubsequence-snoc xs ys t p)
IsSubsequence-snoc _ _ t (kept y xs ys p) =
    kept y (xs ++ t ∷ []) (ys ++ t ∷ []) (IsSubsequence-snoc xs ys t p)

IsSubsequence-append :
    (zs xs ys : List ℕ) → IsSubsequence xs ys → IsSubsequence (zs ++ xs) (zs ++ ys)
IsSubsequence-append [] xs ys p = p
IsSubsequence-append (z ∷ zs) xs ys p =
    kept z (zs ++ xs) (zs ++ ys) (IsSubsequence-append zs xs ys p)

IsSubsequence-prefix : (xs ys : List ℕ) → IsSubsequence xs (xs ++ ys)
IsSubsequence-prefix [] [] = both_empty
IsSubsequence-prefix [] (y ∷ ys) = left_out y [] ys (IsSubsequence-prefix [] ys)
IsSubsequence-prefix (x ∷ xs) ys = kept x xs (xs ++ ys) (IsSubsequence-prefix xs ys)

splice-IsSubsequence : (t : ℕ) (ws : List ℕ) → IsSubsequence (splice t ws) ws
unfolding splice
splice-IsSubsequence t [] = both_empty
splice-IsSubsequence t (w ∷ ws) = elim (Bool-cases (w == t)) [
  | inl same ↦ rw same (left_out w ws ws (IsSubsequence-refl ws))
  | inr other ↦ rw other (kept w (splice t ws) ws (splice-IsSubsequence t ws))
]

length-splice : (t : ℕ) (ws : List ℕ) → length (splice t ws) ≤ length ws
unfolding splice
length-splice t [] = omega arith
length-splice t (w ∷ ws) = ground (arith, length-splice t ws)

-- Either nobody is inside and nobody waits, or exactly one request is inside.
abbrev pub IsHeldByOne : LockHistory → Type 0
IsHeldByOne h =
    ((h.lock.running ≡ false) × (h.inside ≡ []) × (h.lock.waiters ≡ []))
    ⊎ ((h.lock.running ≡ true) × ((i : ℕ) × (h.inside ≡ i ∷ [])))

pub record IsFair (max : ℕ) (h : LockHistory) : Type 0 where
  pub held : IsHeldByOne h
  pub bounded : length h.lock.waiters ≤ max
  pub limit : h.lock.max_queue_size ≡ max
  pub in_order : IsSubsequence (h.served ++ h.lock.waiters) h.admitted

arrive-IsFair : (max t : ℕ) (h : LockHistory) → IsFair max h → IsFair max (lock_event (arrives t) h)
unfolding lock_event run arrive
arrive-IsFair max t h f = elim (Bool-cases (leb h.lock.max_queue_size (length h.lock.waiters))) [
  | inl full ↦
      rw (full, run)
        (record { held = f.held; bounded = f.bounded; limit = f.limit; in_order = f.in_order })
  | inr room ↦ elim f.held [
    | inl (idle, empty, none_wait) ↦
        rw (room, idle, run)
          (record {
            held = inr (refl, (t, ap (◌++ (t ∷ [])) empty));
            bounded = f.bounded;
            limit = f.limit;
            in_order = enters none_wait;
          })
    | inr (on, (i, one)) ↦
        rw (room, on, run)
          (record {
            held = inr (refl, (i, one));
            bounded = grows room;
            limit = f.limit;
            in_order =
                subst (λ xs. IsSubsequence xs (h.admitted ++ t ∷ []))
                  (append_assoc h.served h.lock.waiters (t ∷ []))
                  (IsSubsequence-snoc (h.served ++ h.lock.waiters) h.admitted t f.in_order);
          })
  ]
]
  where
    grows :
        leb h.lock.max_queue_size (length h.lock.waiters) ≡ false
        → length (h.lock.waiters ++ t ∷ []) ≤ max
    grows room = ground (arith, room, f.limit, length-append h.lock.waiters (t ∷ []))

    enters :
        h.lock.waiters ≡ []
        → IsSubsequence ((h.served ++ t ∷ []) ++ h.lock.waiters) (h.admitted ++ t ∷ [])
    enters none_wait =
        let before : IsSubsequence h.served h.admitted =
          subst (λ xs. IsSubsequence xs h.admitted)
            (ap (h.served ++◌) none_wait ∙ append-nil h.served) f.in_order in
        subst (λ xs. IsSubsequence xs (h.admitted ++ t ∷ []))
          (sym (ap ((h.served ++ t ∷ []) ++◌) none_wait ∙ append-nil (h.served ++ t ∷ [])))
          (IsSubsequence-snoc h.served h.admitted t before)

time_out-IsFair :
    (max t : ℕ) (h : LockHistory) → IsFair max h → IsFair max (lock_event (times_out t) h)
unfolding lock_event time_out
time_out-IsFair max t h f = record {
  held = elim f.held [
    | inl (idle, empty, none_wait) ↦ inl (idle, empty, ap (splice t) none_wait)
    | inr one ↦ inr one
  ];
  bounded = omega (arith, f.bounded, length-splice t h.lock.waiters);
  limit = f.limit;
  in_order =
      IsSubsequence-trans (h.served ++ splice t h.lock.waiters) (h.served ++ h.lock.waiters)
        h.admitted
        (IsSubsequence-append h.served (splice t h.lock.waiters) h.lock.waiters
          (splice-IsSubsequence t h.lock.waiters))
        f.in_order;
}

-- The handover, on the waiters as they are; `left` are those inside once the holder is out.
hand_over-IsFair :
    (max : ℕ) (ws : List ℕ) (h : LockHistory)
    → h.lock.waiters ≡ ws
    → h.lock.running ≡ true
    → IsFair max h
    → IsFair max (hand_over (release_to ws h.lock) (record h { inside = [] }))
unfolding hand_over release_to
hand_over-IsFair max [] h same on f = record {
  held = inl (refl, refl, same);
  bounded = f.bounded;
  limit = f.limit;
  in_order = f.in_order;
}
hand_over-IsFair max (next ∷ rest) h same on f = record {
  held = inr (on, (next, refl));
  bounded = ground (arith, f.bounded, ap length same);
  limit = f.limit;
  in_order =
      subst (λ xs. IsSubsequence xs h.admitted)
        (ap (h.served ++◌) same ∙ sym (append_assoc h.served (next ∷ []) rest)) f.in_order;
}

finish-IsFair :
    (max t : ℕ) (h : LockHistory) → IsFair max h → IsFair max (lock_event (finishes t) h)
unfolding lock_event release splice any
finish-IsFair max t h f = elim (Bool-cases (any (λ i. i == t) h.inside)) [
  | inr absent ↦ rw absent f
  | inl present ↦ elim f.held [
    | inl (_, empty, _) ↦ absurd (nobody empty present)
    | inr (on, (i, one)) ↦
        let alone : splice t h.inside ≡ [] = rw one (ground (arith, present, one)) in
        rw present (
          subst
            (λ xs.
              IsFair max (hand_over (release_to h.lock.waiters h.lock) (record h { inside = xs })))
            (sym alone) (hand_over-IsFair max h.lock.waiters h refl on f))
  ]
]
  where
    nobody : h.inside ≡ [] → any (λ i. i == t) h.inside ≡ true → ⊥
    nobody empty present = ground (arith, empty, present)

lock_event-IsFair :
    (max : ℕ) (e : LockEvent) (h : LockHistory) → IsFair max h → IsFair max (lock_event e h)
lock_event-IsFair max (arrives t) h f = arrive-IsFair max t h f
lock_event-IsFair max (finishes t) h f = finish-IsFair max t h f
lock_event-IsFair max (times_out t) h f = time_out-IsFair max t h f

lock_events-IsFair :
    (max : ℕ) (es : List LockEvent) (h : LockHistory) → IsFair max h → IsFair max (lock_events es h)
unfolding lock_events
lock_events-IsFair max [] h f = f
lock_events-IsFair max (e ∷ es) h f =
    lock_events-IsFair max es (lock_event e h) (lock_event-IsFair max e h f)

fresh-IsFair : (max : ℕ) → IsFair max (fresh_lock max)
unfolding fresh_lock
fresh-IsFair max = record {
  held = inl (refl, refl, refl);
  bounded = omega arith;
  limit = refl;
  in_order = both_empty;
}

at_most_one : (h : LockHistory) → IsHeldByOne h → length h.inside ≤ 1
at_most_one h (inl (_, empty, _)) = rw empty (omega arith)
at_most_one h (inr (_, (i, one))) = rw one (omega arith)

-- Whatever requests arrive, finish and time out at a new lock, and in whatever order: at most one
-- is inside, at most max wait, and those that got in are, in this order, among those that were
-- admitted.
pub lock_is_exclusive :
    (max : ℕ) (es : List LockEvent)
    → (length (lock_events es (fresh_lock max)).inside ≤ 1)
      × (length (lock_events es (fresh_lock max)).lock.waiters ≤ max)
      × IsSubsequence
          (lock_events es (fresh_lock max)).served
          (lock_events es (fresh_lock max)).admitted
lock_is_exclusive max es =
    let h : LockHistory = lock_events es (fresh_lock max) in
    let f = lock_events-IsFair max es (fresh_lock max) (fresh-IsFair max) in
    (
      at_most_one h f.held,
      f.bounded,
      IsSubsequence-trans h.served (h.served ++ h.lock.waiters) h.admitted
          (IsSubsequence-prefix h.served h.lock.waiters) f.in_order,
    )
