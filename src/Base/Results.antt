-- ===== src/Base/Results.antt =====
-- Rust's `Result`, with `?` as bind, and `?` on an `Option`.
use mathlib.Core.Option.{Option, none, some}

pub data Result {ℓ κ} (E : Type ℓ) (A : Type κ) : Type (ℓ ⊔ κ) where
  ok : A → Result E A
  err : E → Result E A

module _ {ℓ κ} {E : Type ℓ} {A : Type κ} where
  -- `Option::ok_or`
  abbrev pub ok_or : Option A → E → Result E A
  ok_or none e = err e
  ok_or (some a) e = ok a

module _ {ℓ κ μ} {E : Type ℓ} {A : Type κ} {B : Type μ} where
  infixl 5 ◌>>=◌
  abbrev pub ◌>>=◌ : Result E A → (A → Result E B) → Result E B
  ok a >>= f = f a
  err e >>= f = err e

module _ {ℓ κ μ} {E : Type ℓ} {F : Type μ} {A : Type κ} where
  -- `Result::map_err`, which `?` calls to convert an error
  abbrev pub map_err : (E → F) → Result E A → Result F A
  map_err f (ok a) = ok a
  map_err f (err e) = err (f e)

-- `?` on what a call returns and the state it leaves; a call with no result has none.
unfoldable pub tried :
    {E A B S : Type 0}
    → Result E A × S
    → (A → S → Option (Result E B × S))
    → Option (Result E B × S)
tried (err e, s) next = some (err e, s)
tried (ok a, s) next = next a s
