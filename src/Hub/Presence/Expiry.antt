-- ===== src/Hub/Presence/Expiry.antt =====
-- The sweep of stale presence, and what it leaves.
use velm.Base.{ℕ, ◌≤◌, true, false, not, ◌≡◌, refl, sym, arith, Bool-cases, inl, inr}
use velm.Base.{List, [], ◌∷◌, Text, trim, ◌==◌, eq_iff, lookup, keep, null, All, none}
use velm.Base.{HasKeysOnce}
use velm.Hub.Model.{Event, Hub, normalize_table, presence_key}
use velm.Hub.Snapshot.{is_stale}
use velm.Hub.Snapshot.Views.{snapshot-keep}
use velm.Hub.Delivery.{broadcast}
use velm.Hub.Presence.{
  Entries, entries_or_empty, presence_snapshot, fresh_entries, swept, broadcast_all,
  cleanup_stale_presence, sweep_events, cleanup_locked,
}

presence-broadcast_all :
    (events : List Event) (h : Hub) → (broadcast_all events h).presence_by_key ≡ h.presence_by_key
unfolding broadcast_all broadcast
presence-broadcast_all [] h = refl
presence-broadcast_all (event ∷ events) h = presence-broadcast_all events (broadcast event h)

ttl-broadcast_all :
    (events : List Event) (h : Hub) → (broadcast_all events h).presence_ttl ≡ h.presence_ttl
unfolding broadcast_all broadcast
ttl-broadcast_all [] h = refl
ttl-broadcast_all (event ∷ events) h = ttl-broadcast_all events (broadcast event h)

lookup-swept-none :
    (now ttl : ℕ) (k : Text) (m : List (Text × Entries))
    → lookup k m ≡ none
    → lookup k (swept now ttl m) ≡ none
unfolding swept lookup
lookup-swept-none now ttl k [] h = refl
lookup-swept-none now ttl k ((j, entries) ∷ m) h = ground (arith, lookup-swept-none now ttl k m)

null-nil : {A : Type 0} (xs : List A) → null xs ≡ true → xs ≡ []
null-nil [] h = refl
null-nil (x ∷ xs) h = cc

lookup-swept :
    (now ttl : ℕ) (k : Text) (m : List (Text × Entries))
    → HasKeysOnce m
    → entries_or_empty (lookup k (swept now ttl m))
      ≡ fresh_entries now ttl (entries_or_empty (lookup k m))
unfolding swept lookup fresh_entries keep
lookup-swept now ttl k [] h = refl
lookup-swept now ttl k ((j, entries) ∷ m) (once, h) =
    elim (Bool-cases (null (keep (λ e. not (is_stale now ttl (e.1))) entries))) [
      | inl gone ↦ elim (Bool-cases (j == k)) [
        | inl e ↦
            let same : j ≡ k = (eq_iff j k).0 e in
            rw (gone, e, lookup-swept-none now ttl k m (rw same at once)) (sym (null-nil _ gone))
        | inr e ↦ rw (gone, e) (lookup-swept now ttl k m h)
      ]
      | inr left ↦ elim (Bool-cases (j == k)) [
        | inl e ↦ rw (left, e) refl
        | inr e ↦ rw (left, e) (lookup-swept now ttl k m h)
      ]
    ]

-- Sweeping stale presence is invisible: no snapshot at that instant or later changes, of whatever
-- record. The map of presence holds no key twice.
pub presence_snapshot-cleanup :
    (now later : ℕ) (table record_id : Text) (h : Hub)
    → HasKeysOnce h.presence_by_key
    → now ≤ later
    → presence_snapshot later table record_id (cleanup_stale_presence now h)
      ≡ presence_snapshot later table record_id h
unfolding presence_snapshot cleanup_stale_presence cleanup_locked
presence_snapshot-cleanup now later table record_id h once le =
    let key = presence_key (normalize_table table) (trim record_id) in
    rw
      (
        presence-broadcast_all (sweep_events now h.presence_ttl h.presence_by_key)
            (record h { presence_by_key = swept now h.presence_ttl h.presence_by_key }),
        ttl-broadcast_all (sweep_events now h.presence_ttl h.presence_by_key)
            (record h { presence_by_key = swept now h.presence_ttl h.presence_by_key }),
        lookup-swept now h.presence_ttl key h.presence_by_key once,
      )
      (unfold fresh_entries in
        rw
          (snapshot-keep now later h.presence_ttl (entries_or_empty (lookup key h.presence_by_key))
            le)
          refl)

-- After a sweep no record has an empty map of entries, and no entry is stale.
abbrev pub IsSwept : ℕ → ℕ → List (Text × Entries) → Type 0
IsSwept now ttl = All (λ e. (null (e.1) ≡ false) × All (λ p. is_stale now ttl (p.1) ≡ false) (e.1))

fresh_entries-All :
    (now ttl : ℕ) (entries : Entries)
    → All (λ p. is_stale now ttl (p.1) ≡ false) (fresh_entries now ttl entries)
unfolding fresh_entries keep
fresh_entries-All now ttl [] = tt
fresh_entries-All now ttl ((c, entry) ∷ entries) = elim (Bool-cases (is_stale now ttl entry)) [
  | inl e ↦ rw e (fresh_entries-All now ttl entries)
  | inr e ↦ rw e (e, fresh_entries-All now ttl entries)
]

swept-IsSwept : (now ttl : ℕ) (m : List (Text × Entries)) → IsSwept now ttl (swept now ttl m)
unfolding swept
swept-IsSwept now ttl [] = tt
swept-IsSwept now ttl ((k, entries) ∷ m) =
    elim (Bool-cases (null (fresh_entries now ttl entries))) [
      | inl e ↦ rw e (swept-IsSwept now ttl m)
      | inr e ↦ rw e ((e, fresh_entries-All now ttl entries), swept-IsSwept now ttl m)
    ]

-- After a sweep every record that is left in the map of presence has an entry, and no entry is stale.
pub cleanup-IsSwept :
    (now : ℕ) (h : Hub) → IsSwept now h.presence_ttl (cleanup_stale_presence now h).presence_by_key
unfolding cleanup_stale_presence cleanup_locked
cleanup-IsSwept now h =
    rw
      (presence-broadcast_all (sweep_events now h.presence_ttl h.presence_by_key)
        (record h { presence_by_key = swept now h.presence_ttl h.presence_by_key }))
      (swept-IsSwept now h.presence_ttl h.presence_by_key)

pub swept-HasKeysOnce :
    (now ttl : ℕ) (m : List (Text × Entries)) → HasKeysOnce m → HasKeysOnce (swept now ttl m)
unfolding swept
swept-HasKeysOnce now ttl [] h = tt
swept-HasKeysOnce now ttl ((k, entries) ∷ m) (once, h) =
    elim (Bool-cases (null (fresh_entries now ttl entries))) [
      | inl e ↦ rw e (swept-HasKeysOnce now ttl m h)
      | inr e ↦ rw e (lookup-swept-none now ttl k m once, swept-HasKeysOnce now ttl m h)
    ]
