-- ===== src/Store/Keeps.antt =====
-- How a call that consists of parts keeps what its parts keep.
use payment_microservice.Prelude.{◌≡◌, refl, Bool, true, false, Option, none, some, if◌then◌else◌}
use payment_microservice.Store.Monad.{
  Db, Fault, Outcome, ok, err, Action, pure, throw, gets, modify, lift, or_throw, require, throw_if,
  after, rollback_on_error, with_transaction, handle, catch, ◌>>=◌, ◌>>◌,
}

module _ {κ} {A B : Type 0} (Q : Outcome B × Db → Type κ) (k : A → Action B) where
  after_lem :
      (r : Outcome A × Db)
      → ((e : Fault) → r.0 ≡ err e → Q (err e, r.1))
      → ((a : A) → r.0 ≡ ok a → Q (k a r.1))
      → Q (after k r)
  after_lem (ok a, db) thrown went_on = went_on a refl
  after_lem (err e, db) thrown went_on = thrown e refl

  -- What holds of every way in which `m >>= k` can end holds of its end.
  pub bind_lem :
      (m : Action A) (db : Db)
      → ((e : Fault) → (m db).0 ≡ err e → Q (err e, (m db).1))
      → ((a : A) → (m db).0 ≡ ok a → Q (k a (m db).1))
      → Q ((m >>= k) db)
  bind_lem m db = after_lem (m db)

-- `m` keeps `P`, whether it returns or throws.
pub record Keeps {κ} {A : Type 0} (P : Db → Type κ) (m : Action A) : Type κ where
  pub at : (db : Db) → P db → P (m db).1

module _ {κ} {A : Type 0} {P : Db → Type κ} where
  pub Keeps-pure : (a : A) → Keeps P (pure a)
  Keeps-pure a = record { at = λ db p. p }

  pub Keeps-throw : (e : Fault) → Keeps P (throw {A = A} e)
  Keeps-throw e = record { at = λ db p. p }

  pub Keeps-gets : (f : Db → A) → Keeps P (gets f)
  Keeps-gets f = record { at = λ db p. p }

  pub Keeps-lift : (r : Outcome A) → Keeps P (lift r)
  Keeps-lift r = record { at = λ db p. p }

  pub Keeps-or_throw : (o : Option A) (e : Fault) → Keeps P (or_throw o e)
  Keeps-or_throw none e = record { at = λ db p. p }
  Keeps-or_throw (some a) e = record { at = λ db p. p }

  pub Keeps-require : (o : Option A) → Keeps P (require o)
  Keeps-require none = record { at = λ db p. p }
  Keeps-require (some a) = record { at = λ db p. p }

  pub Keeps-if : (b : Bool) (m n : Action A) → Keeps P m → Keeps P n → Keeps P (if b then m else n)
  Keeps-if true m n km kn = km
  Keeps-if false m n km kn = kn

module _ {κ} {P : Db → Type κ} where
  pub Keeps-throw_if : (b : Bool) (e : Fault) → Keeps P (throw_if b e)
  Keeps-throw_if true e = record { at = λ db p. p }
  Keeps-throw_if false e = record { at = λ db p. p }

  pub Keeps-modify : (f : Db → Db) → ((db : Db) → P db → P (f db)) → Keeps P (modify f)
  Keeps-modify f h = record { at = h }

module _ {κ} {A B : Type 0} {P : Db → Type κ} where
  pub Keeps-bind :
      (m : Action A) (k : A → Action B) → Keeps P m → ((a : A) → Keeps P (k a)) → Keeps P (m >>= k)
  Keeps-bind m k hm hk = record {
    at = λ db p. bind_lem (λ r. P r.1) k m db (λ e h. hm.at db p) (λ a h. (hk a).at _ (hm.at db p));
  }

  pub Keeps-then : (m : Action A) (k : Action B) → Keeps P m → Keeps P k → Keeps P (m >> k)
  Keeps-then m k hm hk = Keeps-bind m (λ _. k) hm (λ _. hk)

rolled_back {κ} :
    {A : Type 0} (P : Db → Type κ) (db : Db) (r : Outcome A × Db)
    → P db
    → P r.1
    → P (rollback_on_error db r).1
rolled_back P db (ok a, db') before later = later
rolled_back P db (err e, db') before later = before

module _ {κ} {A : Type 0} {P : Db → Type κ} where
  pub Keeps-with_transaction : (m : Action A) → Keeps P m → Keeps P (with_transaction m)
  Keeps-with_transaction m h = record { at = λ db p. rolled_back P db (m db) p (h.at db p) }

  handled_lem :
      (h : Fault → Action A) (r : Outcome A × Db)
      → ((e : Fault) → Keeps P (h e))
      → P r.1
      → P (handle h r).1
  handled_lem h (ok a, db) kh p = p
  handled_lem h (err e, db) kh p = (kh e).at db p

  pub Keeps-catch :
      (m : Action A) (h : Fault → Action A)
      → Keeps P m
      → ((e : Fault) → Keeps P (h e))
      → Keeps P (catch m h)
  Keeps-catch m h km kh = record { at = λ db p. handled_lem h (m db) kh (km.at db p) }

pub ruleset keeps_rules = (
  Keeps-pure, Keeps-throw, Keeps-gets, Keeps-lift, Keeps-or_throw, Keeps-if, Keeps-throw_if,
  Keeps-then, Keeps-bind, Keeps-require, Keeps-with_transaction, Keeps-catch,
)
