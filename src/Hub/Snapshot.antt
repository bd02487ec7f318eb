-- ===== src/Hub/Snapshot.antt =====
-- snapshotFromEntries: the entries of a record, one view for each user, the editors first.
pub mod Views
use velm.Base.{ℕ, ◌-◌, Bool, true, false, not, ◌&&◌, if◌then◌else◌, Option, none, some}
use velm.Base.{List, [], ◌∷◌, ◌++◌, Text, txt, trim, ◌==◌, text_lt, ltb, sort_by, lookup, insert}
use velm.Hub.Model.{PresenceView, PresenceEntry, normalize_presence_status}

-- `now.Sub(entry.LastSeen) > ttl`
abbrev pub is_stale : ℕ → ℕ → PresenceEntry → Bool
is_stale now ttl entry = ltb ttl (now - entry.last_seen)

abbrev pub or_else : Text → Text → Text
or_else s t = if s == [] then t else s

-- the name that stands for an entry
unfoldable pub display_name : PresenceEntry → Text
display_name entry = or_else (trim entry.user_name) (or_else (trim entry.user_id) (txt "Someone"))

-- the key under which the entries of one user meet
unfoldable pub user_key : PresenceEntry → Text
user_key entry = or_else (trim entry.user_id) (txt "name:" ++ display_name entry)

unfoldable pub view_of : PresenceEntry → PresenceView
view_of entry = record {
  user_id = entry.user_id;
  user_name = display_name entry;
  status = normalize_presence_status entry.status;
}

-- the update of a user's view by another entry of the user
unfoldable pub merge_view : PresenceView → PresenceView → PresenceView
merge_view existing view = record {
  user_id =
      if trim existing.user_id == [] && not (trim view.user_id == [])
      then view.user_id
      else existing.user_id;
  user_name =
      if trim existing.user_name == [] && not (trim view.user_name == [])
      then view.user_name
      else existing.user_name;
  status =
      if not (existing.status == txt "editing") && view.status == txt "editing"
      then txt "editing"
      else existing.status;
}

-- the view of a user after another entry
abbrev pub updated : Option PresenceView → PresenceView → PresenceView
updated none view = view
updated (some existing) view = merge_view existing view

-- one round of the loop over the entries that are not stale
unfoldable pub add_view : List (Text × PresenceView) → PresenceEntry → List (Text × PresenceView)
add_view by_user entry =
    insert (user_key entry) (updated (lookup (user_key entry) by_user) (view_of entry)) by_user

unfoldable pub views_from :
    ℕ → ℕ → List (Text × PresenceView) → List (Text × PresenceEntry) → List (Text × PresenceView)
views_from now ttl by_user [] = by_user
views_from now ttl by_user ((client, entry) ∷ entries) =
    views_from now ttl (if is_stale now ttl entry then by_user else add_view by_user entry) entries

-- the order of sort.Slice
unfoldable pub view_less : PresenceView → PresenceView → Bool
view_less a b =
    if not (a.status == b.status)
    then a.status == txt "editing"
    else if not (a.user_name == b.user_name)
    then text_lt a.user_name b.user_name
    else text_lt a.user_id b.user_id

unfoldable pub values : List (Text × PresenceView) → List PresenceView
values [] = []
values ((k, v) ∷ m) = v ∷ values m

-- snapshotFromEntries
unfoldable pub snapshot_from_entries : List (Text × PresenceEntry) → ℕ → ℕ → List PresenceView
snapshot_from_entries entries now ttl = sort_by view_less (values (views_from now ttl [] entries))
