-- ===== src/Base/Results.antt =====
-- Code that returns, or stops the machine by `panic` with its message.
use Prim.Native.String.{String}

pub data Outcome {ℓ} (A : Type ℓ) : Type ℓ where
  ok : A → Outcome A
  panic : String → Outcome A

infixl 5 ◌>>=◌
abbrev pub ◌>>=◌ {ℓ κ} : {A : Type ℓ} {B : Type κ} → Outcome A → (A → Outcome B) → Outcome B
ok a >>= f = f a
panic m >>= f = panic m

abbrev pub ok_of {ℓ} : {A : Type ℓ} → Outcome A → A → A
ok_of (ok a) d = a
ok_of (panic m) d = d
