-- ===== src/Hub/Snapshot/Views.antt =====
-- What the loop over the entries collects for each user, in whatever order it goes through them.
use velm.Base.{
  ℕ, ◌≤◌, Bool, true, false, not, ◌&&◌, ◌||◌, ◌≡◌, refl, arith, Bool-cases, inl, inr, if◌then◌else◌,
}
use velm.Base.{List, [], ◌∷◌, Text, txt, ◌==◌, eq_iff, lookup, lookup-insert}
use velm.Base.{Option, none, some, is_some, any, keep}
use velm.Hub.Model.{PresenceView, PresenceEntry, normalize_presence_status}
use velm.Hub.Snapshot.{
  is_stale, user_key, view_of, merge_view, updated, add_view, views_from, snapshot_from_entries,
}

-- The user of a key has a view, and it says that the user is editing.
abbrev pub is_viewed : Text → List (Text × PresenceView) → Bool
is_viewed k m = is_some (lookup k m)

abbrev pub is_editor : Option PresenceView → Bool
is_editor none = false
is_editor (some v) = v.status == txt "editing"

-- An entry is of the user of a key, and it says that the user is editing.
abbrev pub is_of : Text → PresenceEntry → Bool
is_of k entry = user_key entry == k

abbrev pub is_editing : Text → PresenceEntry → Bool
is_editing k entry = is_of k entry && normalize_presence_status entry.status == txt "editing"

status-merge_view :
    (old : PresenceView) (entry : PresenceEntry)
    → ((merge_view old (view_of entry)).status == txt "editing")
      ≡ (old.status == txt "editing" || normalize_presence_status entry.status == txt "editing")
unfolding merge_view view_of
status-merge_view old entry = ground (arith, eq_iff (txt "editing") (txt "editing"))

is_viewed-add_view :
    (k : Text) (m : List (Text × PresenceView)) (entry : PresenceEntry)
    → is_viewed k (add_view m entry) ≡ (is_viewed k m || is_of k entry)
unfolding add_view
is_viewed-add_view k m entry =
    rw (lookup-insert (user_key entry) k (updated (lookup (user_key entry) m) (view_of entry)) m)
      (ground (arith, eq_iff (user_key entry) k))

status-updated :
    (old : Option PresenceView) (entry : PresenceEntry)
    → ((updated old (view_of entry)).status == txt "editing")
      ≡ (is_editor old || normalize_presence_status entry.status == txt "editing")
unfolding view_of
status-updated none entry = refl
status-updated (some v) entry = status-merge_view v entry

is_editor-add_view :
    (k : Text) (m : List (Text × PresenceView)) (entry : PresenceEntry)
    → is_editor (lookup k (add_view m entry)) ≡ (is_editor (lookup k m) || is_editing k entry)
unfolding add_view
is_editor-add_view k m entry =
    rw (lookup-insert (user_key entry) k (updated (lookup (user_key entry) m) (view_of entry)) m)
      (elim (Bool-cases (user_key entry == k)) [
        | inl e ↦
            let same : user_key entry ≡ k = (eq_iff _ _).0 e in
            rw (e, status-updated (lookup (user_key entry) m) entry, same) refl
        | inr e ↦ rw e (ground arith)
      ])

-- An entry that is not stale has a property.
abbrev pub fresh_with : ℕ → ℕ → (PresenceEntry → Bool) → Text × PresenceEntry → Bool
fresh_with now ttl p e = not (is_stale now ttl (e.1)) && p (e.1)

is_viewed-views_from :
    (now ttl : ℕ) (k : Text) (m : List (Text × PresenceView))
    (entries : List (Text × PresenceEntry))
    → is_viewed k (views_from now ttl m entries)
      ≡ (is_viewed k m || any (fresh_with now ttl (is_of k)) entries)
unfolding views_from
is_viewed-views_from now ttl k m [] = ground arith
is_viewed-views_from now ttl k m ((c, entry) ∷ entries) =
    elim (Bool-cases (is_stale now ttl entry)) [
      | inl e ↦ rw (e, is_viewed-views_from now ttl k m entries) refl
      | inr e ↦
          rw
            (
              e,
              is_viewed-views_from now ttl k (add_view m entry) entries,
              is_viewed-add_view k m entry,
            )
            (ground arith)
    ]

is_editor-views_from :
    (now ttl : ℕ) (k : Text) (m : List (Text × PresenceView))
    (entries : List (Text × PresenceEntry))
    → is_editor (lookup k (views_from now ttl m entries))
      ≡ (is_editor (lookup k m) || any (fresh_with now ttl (is_editing k)) entries)
unfolding views_from
is_editor-views_from now ttl k m [] = ground arith
is_editor-views_from now ttl k m ((c, entry) ∷ entries) =
    elim (Bool-cases (is_stale now ttl entry)) [
      | inl e ↦ rw (e, is_editor-views_from now ttl k m entries) refl
      | inr e ↦
          rw
            (
              e,
              is_editor-views_from now ttl k (add_view m entry) entries,
              is_editor-add_view k m entry,
            )
            (ground arith)
    ]

-- A user is in a snapshot exactly if one of the user's entries is not stale, and is shown as editing
-- exactly if one of those entries is editing, in whatever order the map of entries is gone through.
pub views_from_users :
    (now ttl : ℕ) (k : Text) (entries : List (Text × PresenceEntry))
    → (is_viewed k (views_from now ttl [] entries) ≡ any (fresh_with now ttl (is_of k)) entries)
      × (is_editor (lookup k (views_from now ttl [] entries))
          ≡ any (fresh_with now ttl (is_editing k)) entries)
unfolding lookup
views_from_users now ttl k entries =
    (is_viewed-views_from now ttl k [] entries, is_editor-views_from now ttl k [] entries)

-- Entries that are stale at one instant are stale at any later one.
stale_later :
    (now later ttl : ℕ) (entry : PresenceEntry)
    → now ≤ later
    → is_stale now ttl entry ≡ true
    → is_stale later ttl entry ≡ true
stale_later now later ttl entry h s = ground arith

views_from-keep :
    (now later ttl : ℕ) (m : List (Text × PresenceView)) (entries : List (Text × PresenceEntry))
    → now ≤ later
    → views_from later ttl m (keep (λ e. not (is_stale now ttl (e.1))) entries)
      ≡ views_from later ttl m entries
unfolding views_from keep
views_from-keep now later ttl m [] h = refl
views_from-keep now later ttl m ((c, entry) ∷ entries) h =
    elim (Bool-cases (is_stale now ttl entry)) [
      | inl e ↦
          rw (e, stale_later now later ttl entry h e) (views_from-keep now later ttl m entries h)
      | inr e ↦ rw e (
          views_from-keep now later ttl (if is_stale later ttl entry then m else add_view m entry)
            entries h)
    ]

-- Dropping the entries that are stale changes no snapshot from then on.
pub snapshot-keep :
    (now later ttl : ℕ) (entries : List (Text × PresenceEntry))
    → now ≤ later
    → snapshot_from_entries (keep (λ e. not (is_stale now ttl (e.1))) entries) later ttl
      ≡ snapshot_from_entries entries later ttl
unfolding snapshot_from_entries
snapshot-keep now later ttl entries h = rw (views_from-keep now later ttl [] entries h) refl
