-- ===== src/Common/Optional.antt =====
-- Sequencing of code that gives a value or none.
use arduino_q_plugin.Common.{Option, none, some}

infixl 5 ◌>>=◌
abbrev pub ◌>>=◌ {ℓ κ} : {A : Type ℓ} {B : Type κ} → Option A → (A → Option B) → Option B
none >>= f = none
some a >>= f = f a
