-- ===== src/Task/Scope.antt =====
-- resolveScopeRef, and the inputs that a spawn rule binds.
use velm.Base.{if◌then◌else◌, Option, none, some, [], ◌∷◌, Text, nat_eq}
use velm.Task.Model.{
  Json, null, text, scalar, object, Members, no_members, member, find_member, put_member, as_object,
}

-- strings.SplitN(s, ".", 2)
unfoldable pub cut_dot : Text → Option (Text × Text)
cut_dot [] = none
cut_dot (c ∷ s) =
    let later = cut_dot s in
    if nat_eq c 46 then some ([], s) else elim later [ none ↦ none | some (a, b) ↦ some (c ∷ a, b) ]

abbrev pub in_section : Option Members → Text → Option Json
in_section none key = none
in_section (some m) key = find_member key m

-- a reference after its "$"
unfoldable pub resolve_path : Members → Option (Text × Text) → Option Json
resolve_path scope none = none
resolve_path scope (some (section, key)) = in_section (as_object (find_member section scope)) key

unfoldable pub resolve_text : Members → Text → Option Json
resolve_text scope [] = some (text [])
resolve_text scope (c ∷ s) =
    if nat_eq c 36 then resolve_path scope (cut_dot s) else some (text (c ∷ s))

-- resolveScopeRef
unfoldable pub resolve_scope_ref : Members → Json → Option Json
resolve_scope_ref scope (text s) = resolve_text scope s
resolve_scope_ref scope null = some null
resolve_scope_ref scope (scalar s) = some (scalar s)
resolve_scope_ref scope (object m) = some (object m)

-- the loop over a rule's input mapping
unfoldable pub bind_inputs : Members → Members → Members → Members
bind_inputs scope inputs no_members = inputs
bind_inputs scope inputs (member k source m) =
    bind_inputs scope
      (elim (resolve_scope_ref scope source) [ none ↦ inputs | some v ↦ put_member k v inputs ]) m
