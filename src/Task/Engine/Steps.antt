-- ===== src/Task/Engine/Steps.antt =====
-- The parts of a transaction that succeeded, and what a transaction leaves.
use velm.Base.{◌≡◌, refl}
use velm.Base.{Result, ok, err}
use velm.Task.Model.{Db, Tx, Failure, ◌>>=◌, transaction}

pub snd_path :
    {A : Type 0} {a b : A} {x y : Db}
    → ◌≡◌ {A = Result Failure (A × Db)} (ok (a, x)) (ok (b, y))
    → x ≡ y
snd_path e = cc

-- The two halves of a successful bind.
pub bind_parts :
    {A B : Type 0} (m : Tx A) (f : A → Tx B) (db : Db) (b : B) (after : Db)
    → (m >>= f) db ≡ ok (b, after)
    → (a : A) × (mid : Db) × (m db ≡ ok (a, mid)) × (f a mid ≡ ok (b, after))
bind_parts {A} {B} m f db b after e = go (m db) refl e
  where
    go :
        (r : Result Failure (A × Db))
        → m db ≡ r
        → (elim r [ err x ↦ err x | ok p ↦ f (p.0) (p.1) ]) ≡ ok (b, after)
        → (a : A) × (mid : Db) × (m db ≡ ok (a, mid)) × (f a mid ≡ ok (b, after))
    go (err x) h k = cc
    go (ok (a, mid)) h k = (a, mid, h, k)

pub rolled_back :
    {A : Type 0} (m : Tx A) (db : Db) (e : Failure) → m db ≡ err e → transaction m db ≡ (err e, db)
rolled_back m db e h = rw (h, transaction) refl

pub committed :
    {A : Type 0} (m : Tx A) (db : Db) (a : A) (after : Db)
    → m db ≡ ok (a, after)
    → transaction m db ≡ (ok a, after)
committed m db a after h = rw (h, transaction) refl
