-- ===== src/Engine/ControlEnvelope/SingleUse/Remembered.antt =====
-- A tombstone stays in the map until it expires.
use ghost_bazaar.Prelude.{
  ℕ, ◌+◌, ◌≤◌, ◌<◌, leb, String, ◌===◌, ===_iff, ===_refl, ◌≡◌, refl, sym, ap, ◌∙◌, arith, true,
  false, [], ◌∷◌, All, leb→le, Option, none, some, ◌⊎◌, inl, inr, Bool-cases, if◌then◌else◌,
}
use ghost_bazaar.Prelude.Dict.{Dict, lookup, insert, remove, lookup-insert, lookup-remove}
use ghost_bazaar.Engine.ControlEnvelope.{
  Tombstones, is_used, use_envelope, sweep_from, sweep, before, retention_ms, is_some, sooner,
}

-- The entries of `id` expire at `until` or later.
abbrev Lasts : String → ℕ → Dict ℕ → Type 0
Lasts id until m = All (λ p. p.0 ≡ id → until ≤ p.1) m

-- The tombstone of `id` is there until `until`.
abbrev pub IsRemembered : String → ℕ → ℕ → Tombstones → Type 0
IsRemembered id until now t = (until ≤ now) ⊎ (Lasts id until t.tombstones × (is_used id t ≡ true))

unused-Lasts : (id : String) (until : ℕ) (m : Dict ℕ) → lookup id m ≡ none → Lasts id until m
unfolding lookup
unused-Lasts id until [] h = tt
unused-Lasts id until ((j, e) ∷ m) h = elim (Bool-cases (j === id)) [
  | inl same ↦ absurd (some-none (rw same at h))
  | inr other ↦ (
    λ p. absurd (unequal (sym other ∙ (===_iff j id).1 p)),
    unused-Lasts id until m (rw other at h),
  )
]
  where
    some-none : some e ≡ none → ⊥
    some-none p = cc

    unequal : false ≡ true → ⊥
    unequal p = cc

insert-Lasts :
    (id j : String) (until e : ℕ) (m : Dict ℕ)
    → (j ≡ id → until ≤ e)
    → Lasts id until m
    → Lasts id until (insert j e m)
unfolding insert
insert-Lasts id j until e [] late h = (late, tt)
insert-Lasts id j until e ((i, f) ∷ m) late h = elim (Bool-cases (i === j)) [
  | inl same ↦ rw (same) (late, h.1)
  | inr other ↦ rw (other) (h.0, insert-Lasts id j until e m late h.1)
]

remove-Lasts :
    (id j : String) (until : ℕ) (m : Dict ℕ) → Lasts id until m → Lasts id until (remove j m)
unfolding remove
remove-Lasts id j until [] h = tt
remove-Lasts id j until ((i, f) ∷ m) h = elim (Bool-cases (i === j)) [
  | inl same ↦ rw (same) (remove-Lasts id j until m h.1)
  | inr other ↦ rw (other) (h.0, remove-Lasts id j until m h.1)
]

-- A sweep before `until` leaves the tombstone.
sweep_from-Lasts :
    (id : String) (until now : ℕ) (entries map : Dict ℕ) (soonest : Option ℕ)
    → now < until
    → Lasts id until entries
    → Lasts id until map
    → Lasts id until (sweep_from now entries map soonest).0
      × (lookup id (sweep_from now entries map soonest).0 ≡ lookup id map)
unfolding sweep_from
sweep_from-Lasts id until now [] map soonest early h k = (k, refl)
sweep_from-Lasts id until now ((j, e) ∷ entries) map soonest early h k =
    elim (Bool-cases (leb e now)) [
      | inl due ↦
          let (lasts, found) =
            sweep_from-Lasts id until now entries (remove j map) soonest early h.1
              (remove-Lasts id j until map k) in
          rw (due, sweep_from) (lasts, found ∙ lookup-remove j id map ∙ kept due)
      | inr later ↦
          rw (later, sweep_from)
            (sweep_from-Lasts id until now entries map (sooner e soonest) early h.1 k)
    ]
  where
    kept : leb e now ≡ true → (if j === id then none else lookup id map) ≡ lookup id map
    kept due = elim (Bool-cases (j === id)) [
      | inl same ↦ absurd (omega (arith, early, h.0 ((===_iff j id).0 same), leb→le e now due))
      | inr other ↦ rw (other) refl
    ]

pub sweep-IsRemembered :
    (id : String) (until before_now now : ℕ) (t : Tombstones)
    → before_now ≤ now
    → IsRemembered id until before_now t
    → IsRemembered id until now (sweep now t)
unfolding sweep is_used
sweep-IsRemembered id until n now t le (inl over) = inl (omega arith)
sweep-IsRemembered id until n now t le (inr (lasts, used)) = elim (Bool-cases (leb until now)) [
  | inl over ↦ inl (ground arith)
  | inr early ↦ elim (Bool-cases (before now t.next_expiry)) [
    | inl skipped ↦ rw (skipped) (inr (lasts, used))
    | inr swept ↦
        let (l, same) =
          sweep_from-Lasts id until now t.tombstones t.tombstones none (ground arith) lasts lasts in
        rw (swept) (inr (l, ap is_some same ∙ used))
  ]
]

pub use-IsRemembered :
    (id j : String) (until n now : ℕ) (t : Tombstones)
    → n ≤ now
    → (j ≡ id → until ≤ now + retention_ms)
    → IsRemembered id until n t
    → IsRemembered id until now (use_envelope j now retention_ms t)
unfolding use_envelope is_used
use-IsRemembered id j until n now t le late (inl over) = inl (omega arith)
use-IsRemembered id j until n now t le late (inr (lasts, used)) = inr (
  insert-Lasts id j until (now + retention_ms) t.tombstones late lasts,
  ap is_some (lookup-insert j id (now + retention_ms) t.tombstones) ∙ still,
)
  where
    still : is_some (if j === id then some (now + retention_ms) else lookup id t.tombstones) ≡ true
    still = ground arith

-- Whatever tombstones of `id` there are before `until`, they stay until then.
abbrev pub IsLasting : String → ℕ → ℕ → Tombstones → Type 0
IsLasting id until now t = (until ≤ now) ⊎ Lasts id until t.tombstones

pub sweep-IsLasting :
    (id : String) (until before_now now : ℕ) (t : Tombstones)
    → before_now ≤ now
    → IsLasting id until before_now t
    → IsLasting id until now (sweep now t)
unfolding sweep
sweep-IsLasting id until n now t le (inl over) = inl (omega arith)
sweep-IsLasting id until n now t le (inr lasts) = elim (Bool-cases (leb until now)) [
  | inl over ↦ inl (ground arith)
  | inr early ↦ elim (Bool-cases (before now t.next_expiry)) [
    | inl skipped ↦ rw skipped (inr lasts)
    | inr swept ↦
        let (l, _) =
          sweep_from-Lasts id until now t.tombstones t.tombstones none (ground arith) lasts lasts in
        rw swept (inr l)
  ]
]

pub use-IsLasting :
    (id j : String) (until n now : ℕ) (t : Tombstones)
    → n ≤ now
    → until ≤ now + retention_ms
    → IsLasting id until n t
    → IsLasting id until now (use_envelope j now retention_ms t)
unfolding use_envelope
use-IsLasting id j until n now t le late (inl over) = inl (omega arith)
use-IsLasting id j until n now t le late (inr lasts) =
    inr (insert-Lasts id j until (now + retention_ms) t.tombstones (λ p. late) lasts)

-- An unused id has no tombstone.
pub unused-IsLasting :
    (id : String) (until now : ℕ) (t : Tombstones) → is_used id t ≡ false → IsLasting id until now t
unfolding is_used
unused-IsLasting id until now t new =
    inr (unused-Lasts id until t.tombstones (unused (lookup id t.tombstones) new))
  where
    unused : (o : Option ℕ) → is_some o ≡ false → o ≡ none
    unused none p = refl
    unused (some n) p = absurd (cc)

-- An id that is used now is remembered.
pub use-IsRemembered_now :
    (id : String) (until n now : ℕ) (t : Tombstones)
    → n ≤ now
    → until ≤ now + retention_ms
    → IsLasting id until n t
    → IsRemembered id until now (use_envelope id now retention_ms t)
unfolding use_envelope is_used
use-IsRemembered_now id until n now t le late (inl over) = inl (omega arith)
use-IsRemembered_now id until n now t le late (inr lasts) = inr (
  insert-Lasts id id until (now + retention_ms) t.tombstones (λ p. late) lasts,
  ap is_some (lookup-insert id id (now + retention_ms) t.tombstones) ∙ rw (===_refl id) refl,
)

pub clash :
    (id : String) (until now : ℕ) (t : Tombstones)
    → IsRemembered id until now t
    → now < until
    → is_used id t ≡ false
    → ⊥
clash id until now t (inl over) early new = omega arith
clash id until now t (inr (_, used)) early new = cc
