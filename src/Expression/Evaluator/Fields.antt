-- ===== src/Expression/Evaluator/Fields.antt =====
-- What the value of a tree depends on.
use mathlib.Core.Path.{◌∙◌}
use velm.Base.{Bool, true, false, not, ◌&&◌, ◌≡◌, refl, ap, if◌then◌else◌}
use velm.Base.{ok, none, some, List, [], Text, txt, trim, lower, ◌==◌, lookup}
use velm.Runtime.{GoRuntime}
use velm.Expression.Syntax.{
  Node, text, numeral, truth, name, unary, binary, call, Args, no_args, arg,
}
use velm.Expression.Values.{string_value}
use velm.Expression.Evaluator.{
  Context, V, eval_name, field_value, or_empty, apply_function, eval, eval_args,
}

if_same :
    {A : Type 0} {x y u v : A}
    → (b : Bool) → x ≡ u
    → y ≡ v
    → (if b then x else y) ≡ (if b then u else v)
if_same true p q = p
if_same false p q = q

-- Two records have the same under a key.
abbrev pub SameAt : List (Text × Text) → List (Text × Text) → Text → Type 0
SameAt a b k = lookup k a ≡ lookup k b

-- Two records have the same under a name, as it stands and normalised.
abbrev pub SameName : List (Text × Text) → List (Text × Text) → Text → Type 0
SameName a b n = SameAt a b (trim n) × SameAt a b (lower (trim (trim n)))

-- Two records have the same under every name in a tree.
module _ {F : Type 0} where
  unfoldable mutual
    pub SameNames : List (Text × Text) → List (Text × Text) → Node F → Type 0
    SameNames a b (text s) = Unit
    SameNames a b (numeral x) = Unit
    SameNames a b (truth t) = Unit
    SameNames a b (name n) = SameName a b n
    SameNames a b (unary op n) = SameNames a b n
    SameNames a b (binary op l r) = SameNames a b l × SameNames a b r
    SameNames a b (call f args) = SameNamesArgs a b args

    pub SameNamesArgs : List (Text × Text) → List (Text × Text) → Args F → Type 0
    SameNamesArgs a b no_args = Unit
    SameNamesArgs a b (arg n args) = SameNames a b n × SameNamesArgs a b args

field_value-same :
    (go : GoRuntime) (a b : List (Text × Text)) (key : Text)
    → SameAt a b key
    → SameAt a b (lower (trim key))
    → field_value go a key ≡ field_value go b key
field_value-same go a b key plain normal =
    (ap
      (λ x. elim x [
        | some v ↦ v
        | none ↦
            if lower (trim key) == []
            then key
            else elim (lookup (lower (trim key)) a) [ some v ↦ v | none ↦ key ]
      ])
      plain)
    ∙ (ap
        (λ y. elim (lookup key b) [
          | some v ↦ v
          | none ↦ if lower (trim key) == [] then key else elim y [ some v ↦ v | none ↦ key ]
        ])
        normal)

module _ (go : GoRuntime) (ctx : Context go) (other : List (Text × Text))
    (current : SameAt ctx.form_data other ctx.current_field) where
  abbrev moved : Context go
  moved = record ctx { form_data = other }

  eval_name-same :
      (n : Text) → SameName ctx.form_data other n → eval_name go ctx n ≡ eval_name go moved n
  unfolding eval_name
  eval_name-same n (plain, normal) =
      if_same (lower (trim n) == txt "value" && not (ctx.current_field == []))
        (ap (λ x. string_value go (or_empty go x)) current)
        (ap (string_value go) (field_value-same go ctx.form_data other (trim n) plain normal))

  apply_function-same :
      (f : Text) (args : List (V go))
      → apply_function go ctx f args ≡ apply_function go moved f args
  unfolding apply_function
  apply_function-same f args = refl

  mutual
    unfolding eval SameNames

    eval-same :
        (n : Node go.Float) → SameNames ctx.form_data other n → eval go ctx n ≡ eval go moved n
    eval-same (text s) h = refl
    eval-same (numeral x) h = refl
    eval-same (truth t) h = refl
    eval-same (name n) h = ap ok (eval_name-same n h)
    eval-same (unary op n) h = rw (eval-same n h) refl
    eval-same (binary op l r) h = rw (eval-same l h.0, eval-same r h.1) refl
    eval-same (call f args) h = rw (eval_args-same args h) refl

    eval_args-same :
        (args : Args go.Float)
        → SameNamesArgs ctx.form_data other args
        → eval_args go ctx args ≡ eval_args go moved args
    eval_args-same no_args h = refl
    eval_args-same (arg n args) h = rw (eval-same n h.0, eval_args-same args h.1) refl

-- The value of a tree is the same over two records that agree on the current field and on every
-- name the tree mentions, as it stands and normalised.
pub eval_reads_names :
    (go : GoRuntime) (ctx : Context go) (other : List (Text × Text)) (n : Node go.Float)
    → SameAt ctx.form_data other ctx.current_field
    → SameNames ctx.form_data other n
    → eval go ctx n ≡ eval go (record ctx { form_data = other }) n
eval_reads_names go ctx other n current same = eval-same go ctx other current n same
