-- ===== src/Service/Base.antt =====
-- Calls that may fail or panic, without a state of their own.
use sub_archive.Prelude.{
  Option, none, some, Result, ok, err, Outcome, returned, panicked, ◌≡◌, refl, arith,
}

-- `sc_service::Error`, without its texts.
pub data ServiceError : Type 0 where
  other : ServiceError
  client : ServiceError
  consensus : ServiceError
  network : ServiceError
  telemetry : ServiceError
  task_executor : ServiceError

abbrev pub Fallible {ℓ} : Type ℓ → Type ℓ → Type ℓ
Fallible E A = Outcome (Result E A)

module _ {ℓ} {E A B : Type ℓ} where
  infixl 5 ◌>>=◌
  abbrev pub ◌>>=◌ : Fallible E A → (A → Fallible E B) → Fallible E B
  returned (ok a) >>= f = f a
  returned (err e) >>= f = returned (err e)
  panicked >>= f = panicked

abbrev pub pure {ℓ} : {E A : Type ℓ} → A → Fallible E A
pure a = returned (ok a)

-- `Option::unwrap`, and `unwrap` of a result
abbrev pub unwrap {ℓ} : {E A : Type ℓ} → Option A → Fallible E A
unwrap none = panicked
unwrap (some a) = returned (ok a)

abbrev pub unwrap_ok {ℓ} : {D E A : Type ℓ} → Fallible D A → Fallible E A
unwrap_ok panicked = panicked
unwrap_ok (returned (err e)) = panicked
unwrap_ok (returned (ok a)) = returned (ok a)

-- A chain that succeeds has succeeded step by step.
pub bind-ok :
    {E A B : Type 0} (m : Fallible E A) (f : A → Fallible E B) (b : B)
    → (m >>= f) ≡ returned (ok b)
    → (a : A) × ((m ≡ returned (ok a)) × (f a ≡ returned (ok b)))
bind-ok (returned (ok a)) f b e = (a, (refl, e))
bind-ok (returned (err x)) f b e = absurd (ground (arith, e))
bind-ok panicked f b e = absurd (ground (arith, e))

pub unwrap-ok :
    {E A : Type 0} (o : Option A) (a : A) → unwrap {E = E} o ≡ returned (ok a) → o ≡ some a
unwrap-ok none a e = absurd (ground (arith, e))
unwrap-ok (some b) a e = ground (arith, e)
