-- ===== src/Prelude/Options.antt =====
-- Results that are there or not.
use mathlib.Core.Path.{◌≡◌, ap, subst}
use mathlib.Core.Option.{none, some}

pub some-injective {ℓ} : {A : Type ℓ} {x y : A} → some x ≡ some y → x ≡ y
some-injective {x = x} h = ap (λ o. elim o [ none ↦ x | some z ↦ z ]) h

pub none-some {ℓ} : {A : Type ℓ} {x : A} → none ≡ some x → ⊥
none-some h = subst (λ o. elim o [ none ↦ Unit {0} | some z ↦ ⊥ ]) h tt
