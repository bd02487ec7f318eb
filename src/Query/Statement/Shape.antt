-- ===== src/Query/Statement/Shape.antt =====
-- What the text of a filter's WHERE clause depends on: not on the values, but for a star in them.
use velm.Base.{
  suc, ◌||◌, if◌then◌else◌, ◌≡◌, refl, ap, Option, none, some, Result, ok, err, ◌>>=◌, List, [],
  ◌∷◌, ◌++◌, Text, txt, trim, ◌==◌, contains, lookup, length, Bool-cases, inl, inr, arith,
}
use mathlib.Core.Path.{subst}
use velm.Runtime.{GoRuntime}
use velm.Query.Syntax.{
  Condition, Node, condition, both, either, Failure, invalid_time, invalid_number, invalid_boolean,
  not_queryable,
}
use velm.Query.Statement.{
  QueryColumn, lookup_key, Argument, plain_comparison, text_comparison, typed, column_comparison,
  known_column, joined, structured_sql,
}

-- Two conditions that differ in their values only, both with a star or both without.
abbrev SameForm : Condition → Condition → Type 0
SameForm c d =
    (c.column ≡ d.column)
    × (c.operator ≡ d.operator)
    × (contains (trim c.value) (txt "*") ≡ contains (trim d.value) (txt "*"))

-- Two filters of the same structure, whose conditions are such.
unfoldable pub SameShape : Node → Node → Type 0
SameShape (condition c) (condition d) = SameForm c d
SameShape (both l r) (both l' r') = SameShape l l' × SameShape r r'
SameShape (either l r) (either l' r') = SameShape l l' × SameShape r r'
SameShape _ _ = ⊥

module _ (go : GoRuntime) where
  abbrev Built : Type 0
  Built = Result {0, 0} Failure (Text × List (Argument go))

  -- If both are built, the texts are equal, and there are as many arguments.
  abbrev pub Alike : Built → Built → Type 0
  Alike (ok a) (ok b) = (a.0 ≡ b.0) × (length a.1 ≡ length b.1)
  Alike _ _ = Unit

  Alike-err : (r : Built) (e : Failure) → Alike r (err e)
  Alike-err (ok a) e = tt
  Alike-err (err x) e = tt

  length_snoc :
      (a b : List (Argument go)) (v w : Argument go)
      → length a ≡ length b
      → length (a ++ v ∷ []) ≡ length (b ++ w ∷ [])
  length_snoc [] [] v w h = refl
  length_snoc [] (y ∷ b) v w h = absurd (omega arith)
  length_snoc (x ∷ a) [] v w h = absurd (omega arith)
  length_snoc (x ∷ a) (y ∷ b) v w h = ap suc (length_snoc a b v w (omega arith))

  plain-Alike :
      (quoted op : Text) (a b : List (Argument go)) (v w : Argument go)
      → length a ≡ length b
      → Alike (plain_comparison go quoted op v a) (plain_comparison go quoted op w b)
  unfolding plain_comparison
  plain-Alike quoted op a b v w h = (rw h refl, length_snoc a b v w h)

  typed-Alike :
      (failure : Failure) (quoted op : Text) (a b : List (Argument go)) (v w : Option (Argument go))
      → length a ≡ length b
      → Alike
          (typed go failure (λ v. plain_comparison go quoted op v a) v)
          (typed go failure (λ v. plain_comparison go quoted op v b) w)
  typed-Alike failure quoted op a b none none h = tt
  typed-Alike failure quoted op a b none (some w) h = tt
  typed-Alike failure quoted op a b (some v) none h =
      Alike-err (plain_comparison go quoted op v a) failure
  typed-Alike failure quoted op a b (some v) (some w) h = plain-Alike quoted op a b v w h

  text-Alike :
      (quoted op v w : Text) (a b : List (Argument go))
      → contains v (txt "*") ≡ contains w (txt "*")
      → length a ≡ length b
      → Alike (ok (text_comparison go quoted op v a)) (ok (text_comparison go quoted op w b))
  unfolding text_comparison
  text-Alike quoted op v w a b star h = elim (Bool-cases (op == txt "=" || op == txt "!=")) [
    | inl e ↦ elim (Bool-cases (contains w (txt "*"))) [
      | inl f ↦ rw (e, star, f, h) (refl, length_snoc a b _ _ h)
      | inr f ↦ rw (e, star, f, h) (refl, length_snoc a b _ _ h)
    ]
    | inr e ↦ rw (e, h) (refl, length_snoc a b _ _ h)
  ]

  column-Alike :
      (column : QueryColumn) (quoted : Text) (c d : Condition) (a b : List (Argument go))
      → SameForm c d
      → length a ≡ length b
      → Alike (column_comparison go column quoted c a) (column_comparison go column quoted d b)
  unfolding column_comparison
  column-Alike column quoted c d a b (same, op, star) h = elim (Bool-cases column.is_date_like) [
    | inl e ↦ rw (op, e) (typed-Alike (invalid_time column.name) quoted d.operator a b _ _ h)
    | inr e ↦ elim (Bool-cases column.is_number) [
      | inl f ↦ rw (op, e, f) (typed-Alike (invalid_number column.name) quoted d.operator a b _ _ h)
      | inr f ↦ elim (Bool-cases column.is_boolean) [
        | inl g ↦
            rw (op, e, f, g) (typed-Alike (invalid_boolean column.name) quoted d.operator a b _ _ h)
        | inr g ↦
            rw (op, e, f, g) (text-Alike quoted d.operator (trim c.value) (trim d.value) a b star h)
      ]
    ]
  ]

  module _ (columns : List (Text × QueryColumn)) (quoted_columns : List (Text × Text)) where
    known-Alike :
        (c d : Condition) (a b : List (Argument go)) (column : Option QueryColumn)
        → SameForm c d
        → length a ≡ length b
        → Alike
            (known_column go quoted_columns c a column)
            (known_column go quoted_columns d b column)
    known-Alike c d a b none same h = tt
    known-Alike c d a b (some column) same h = go_on (lookup column.name quoted_columns)
      where
        go_on :
            (q : Option Text)
            → Alike
                (elim q [
                  | none ↦ err (not_queryable c.column)
                  | some quoted ↦
                      if quoted == []
                      then err (not_queryable c.column)
                      else column_comparison go column quoted c a
                ])
                (elim q [
                  | none ↦ err (not_queryable d.column)
                  | some quoted ↦
                      if quoted == []
                      then err (not_queryable d.column)
                      else column_comparison go column quoted d b
                ])
        go_on none = tt
        go_on (some quoted) = elim (Bool-cases (quoted == [])) [
          | inl e ↦ rw e tt
          | inr e ↦ rw e (column-Alike column quoted c d a b same h)
        ]

    joined-Alike :
        (word left : Text) (r r' : Built)
        → Alike r r'
        → Alike
            (r >>= joined go columns quoted_columns word left)
            (r' >>= joined go columns quoted_columns word left)
    joined-Alike word left (ok (s, a)) (ok (t, b)) (same, h) = (rw same refl, h)
    joined-Alike word left (ok (s, a)) (err e) h = tt
    joined-Alike word left (err e) r' h = tt

    bind-Alike :
        (l l' : Built) (f f' : Text × List (Argument go) → Built)
        → Alike l l'
        → ((s : Text) (a b : List (Argument go))
            → length a ≡ length b
            → Alike (f (s, a)) (f' (s, b)))
        → Alike (l >>= f) (l' >>= f')
    bind-Alike (ok (s, a)) (ok (t, b)) f f' (same, h) k = rw same (k t a b h)
    bind-Alike (ok (s, a)) (err e) f f' h k = Alike-err (f (s, a)) e
    bind-Alike (err e) l' f f' h k = tt

    pair-Alike :
        (word : Text) (l l' : Built) (r r' : List (Argument go) → Built)
        → Alike l l'
        → ((a b : List (Argument go)) → length a ≡ length b → Alike (r a) (r' b))
        → Alike
            (l >>= (λ left. r left.1 >>= joined go columns quoted_columns word left.0))
            (l' >>= (λ left. r' left.1 >>= joined go columns quoted_columns word left.0))
    pair-Alike word l l' r r' h k =
        bind-Alike l l' _ _ h (λ s a b e. joined-Alike word s (r a) (r' b) (k a b e))

    structured-Alike :
        (m n : Node) (a b : List (Argument go))
        → SameShape m n
        → length a ≡ length b
        → Alike
            (structured_sql go columns quoted_columns m a)
            (structured_sql go columns quoted_columns n b)
    unfolding structured_sql SameShape
    structured-Alike (condition c) (condition d) a b (same, op, star) h =
        known_same (lookup (lookup_key c.column) columns) (lookup (lookup_key d.column) columns)
          (ap (λ k. lookup (lookup_key k) columns) same)
      where
        known_same :
            (x y : Option QueryColumn)
            → x ≡ y
            → Alike (known_column go quoted_columns c a x) (known_column go quoted_columns d b y)
        known_same x y e = rw e (known-Alike c d a b y (same, op, star) h)
    structured-Alike (both l r) (both l' r') a b (same, more) h =
        pair-Alike (txt " AND ") _ _ _ _ (structured-Alike l l' a b same h)
          (λ x y e. structured-Alike r r' x y more e)
    structured-Alike (either l r) (either l' r') a b (same, more) h =
        pair-Alike (txt " OR ") _ _ _ _ (structured-Alike l l' a b same h)
          (λ x y e. structured-Alike r r' x y more e)
    structured-Alike (condition c) (both l' r') a b x h = elim x [ ]
    structured-Alike (condition c) (either l' r') a b x h = elim x [ ]
    structured-Alike (both l r) (condition d) a b x h = elim x [ ]
    structured-Alike (both l r) (either l' r') a b x h = elim x [ ]
    structured-Alike (either l r) (condition d) a b x h = elim x [ ]
    structured-Alike (either l r) (both l' r') a b x h = elim x [ ]

    same_text :
        (x y : Built) (s t : Text) (p q : List (Argument go))
        → Alike x y
        → x ≡ ok (s, p)
        → y ≡ ok (t, q)
        → s ≡ t
    same_text x y s t p q h e f =
        (subst (λ y. Alike (ok (s, p)) y) f (subst (λ x. Alike x y) e h)).0

    -- No value gets into the text of a WHERE clause: two filters of the same structure, columns and
    -- operators, whose values have a star in the same conditions, are built to the same text wherever
    -- both are built, and behind equally many arguments.
    pub structured_sql-text :
        (m n : Node) (a b p q : List (Argument go)) (s t : Text)
        → SameShape m n
        → length a ≡ length b
        → structured_sql go columns quoted_columns m a ≡ ok (s, p)
        → structured_sql go columns quoted_columns n b ≡ ok (t, q)
        → s ≡ t
    structured_sql-text m n a b p q s t same h e f =
        same_text (structured_sql go columns quoted_columns m a)
          (structured_sql go columns quoted_columns n b) s t p q (structured-Alike m n a b same h) e
          f
