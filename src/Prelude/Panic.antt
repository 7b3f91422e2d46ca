-- ===== src/Prelude/Panic.antt =====
-- Calls that may panic. A panic's message is what the program passes to `panic`.
use Prim.Native.String.{String}

pub data Run {ℓ} (A : Type ℓ) : Type ℓ where
  done : A → Run A
  panic : String → Run A

infixl 10 ◌>>=◌
abbrev pub ◌>>=◌ {ℓ κ} : {A : Type ℓ} {B : Type κ} → Run A → (A → Run B) → Run B
done a >>= f = f a
panic s >>= f = panic s

-- The state after a call whose panic is recovered by its caller: a panic has changed nothing.
abbrev pub recover_to {ℓ} : {A : Type ℓ} → A → Run A → A
recover_to a (done b) = b
recover_to a (panic s) = a
