-- ===== src/Prelude/Exec.antt =====
-- Methods that change an object and may raise: the state comes back beside an error too, since
-- what was written before the raise stays written.

pub data Result {ℓ} (E A : Type ℓ) : Type ℓ where
  ok : A → Result E A
  err : E → Result E A

abbrev pub Exec {ℓ} : Type ℓ → Type ℓ → Type ℓ → Type ℓ
Exec E S A = S → Result E A × S
