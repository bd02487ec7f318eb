-- ===== src/App/Inheritance/Known.antt =====
-- The tables that a walk can reach are those of the registered apps and of the app where it begins.
use velm.Base.{
  suc, true, ◌≡◌, refl, ap, List, [], ◌∷◌, ◌++◌, Text, length, length-append, All, All-imp, eq_refl,
}
use velm.Security.Model.{member}
use velm.App.Definition.{Table, RegisteredApp}
use velm.App.Registry.{tables_of}
use velm.App.Inheritance.{table_key, all_tables}
use velm.App.Inheritance.Counting.{member-append_left, member-append_right}

abbrev key_list : RegisteredApp → List Table → List Text
key_list a [] = []
key_list a (t ∷ tables) = table_key a t ∷ key_list a tables

abbrev pub all_keys : List RegisteredApp → List Text
all_keys [] = []
all_keys (a ∷ apps) =
    key_list a (tables_of a.definition)
    ++ (key_list a (tables_of a.draft_definition) ++ all_keys apps)

length-key_list :
    (a : RegisteredApp) (tables : List Table) → length (key_list a tables) ≡ length tables
length-key_list a [] = refl
length-key_list a (t ∷ tables) = ap suc (length-key_list a tables)

length-parts :
    (a : RegisteredApp) (d e : List Table) (keys : List Text) (tables : List Table)
    → length keys ≡ length tables
    → length (key_list a d ++ (key_list a e ++ keys)) ≡ length (d ++ (e ++ tables))
length-parts a d e keys tables h =
    rw
      (
        length-append (key_list a d) (key_list a e ++ keys),
        length-append (key_list a e) keys,
        length-append d (e ++ tables),
        length-append e tables,
        length-key_list a d,
        length-key_list a e,
        h,
      )
      refl

pub length-all_keys :
    (apps : List RegisteredApp) → length (all_keys apps) ≡ length (all_tables apps)
length-all_keys [] = refl
length-all_keys (a ∷ apps) =
    length-parts a (tables_of a.definition) (tables_of a.draft_definition) (all_keys apps)
      (all_tables apps) (length-all_keys apps)

-- All the tables of an app have their keys among `keys`.
abbrev pub Listed : List Text → RegisteredApp → Table → Type 0
Listed keys a t = member (table_key a t) keys ≡ true

abbrev pub Known : List Text → RegisteredApp → Type 0
Known keys a =
    All (Listed keys a) (tables_of a.definition)
    × All (Listed keys a) (tables_of a.draft_definition)

key_list-Listed :
    (a : RegisteredApp) (tables : List Table) → All (Listed (key_list a tables) a) tables
unfolding member
key_list-Listed a [] = tt
key_list-Listed a (t ∷ tables) = (
  rw (eq_refl (table_key a t)) refl,
  All-imp (Listed (key_list a tables) a) (Listed (table_key a t ∷ key_list a tables) a)
      (λ u. member-append_right (table_key a u) (table_key a t ∷ []) (key_list a tables)) tables
      (key_list-Listed a tables),
)

Known-append_right :
    (keys more : List Text) (a : RegisteredApp) → Known keys a → Known (more ++ keys) a
Known-append_right keys more a (h, k) = (
  All-imp (Listed keys a) (Listed (more ++ keys) a)
      (λ t. member-append_right (table_key a t) more keys) _ h,
  All-imp (Listed keys a) (Listed (more ++ keys) a)
      (λ t. member-append_right (table_key a t) more keys) _ k,
)

pub all_keys-Known : (apps : List RegisteredApp) → All (Known (all_keys apps)) apps
all_keys-Known [] = tt
all_keys-Known (a ∷ apps) =
    let d = key_list a (tables_of a.definition) in
    let e = key_list a (tables_of a.draft_definition) in
    let first : All (Listed (d ++ (e ++ all_keys apps)) a) (tables_of a.definition) =
      All-imp (Listed d a) (Listed (d ++ (e ++ all_keys apps)) a)
        (λ t. member-append_left (table_key a t) d (e ++ all_keys apps)) _
        (key_list-Listed a (tables_of a.definition)) in
    let second : All (Listed (d ++ (e ++ all_keys apps)) a) (tables_of a.draft_definition) =
      All-imp (Listed e a) (Listed (d ++ (e ++ all_keys apps)) a)
        (λ t h.
          member-append_right (table_key a t) d (e ++ all_keys apps)
            (member-append_left (table_key a t) e (all_keys apps) h))
        _ (key_list-Listed a (tables_of a.draft_definition)) in
    (
      (first, second),
      All-imp (Known (all_keys apps)) (Known (d ++ (e ++ all_keys apps)))
          (λ b h.
            Known-append_right (e ++ all_keys apps) d b (Known-append_right (all_keys apps) e b h))
          apps (all_keys-Known apps),
    )
