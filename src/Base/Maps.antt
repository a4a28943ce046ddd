-- ===== src/Base/Maps.antt =====
-- Go maps as functions from keys to optional values, over keys with a decidable equality.

use mathlib.Core.Logic.{ite}
use mathlib.Core.Option.{Option}

abbrev pub GoMap {ℓ κ} : Type ℓ → Type κ → Type (ℓ ⊔ κ)
GoMap K V = K → Option V

module _ {ℓ κ} {K : Type ℓ} {V : Type κ} (dec : Discrete K) where
  -- m[k] = v, and delete(m, k) where the value is none
  abbrev pub update : GoMap K V → K → Option V → GoMap K V
  update m k v j = ite (dec j k) v (m j)
