-- ===== src/Prelude/Panic.antt =====
-- Chains of calls that may panic.
use sub_archive.Prelude.Results.{Result, ok, err, Outcome, returned, panicked}

infixl 5 ◌>>=◌
abbrev pub ◌>>=◌ {ℓ κ} : {A : Type ℓ} {B : Type κ} → Outcome A → (A → Outcome B) → Outcome B
returned a >>= f = f a
panicked >>= f = panicked

-- `Result::unwrap`
abbrev pub unwrap {ℓ} : {E A : Type ℓ} → Result E A → Outcome A
unwrap (ok a) = returned a
unwrap (err e) = panicked
