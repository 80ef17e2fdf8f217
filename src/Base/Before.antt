-- ===== src/Base/Before.antt =====
-- The order of strings.
use mathlib.Core.Path.{◌≡◌, refl}
use mathlib.Core.Logic.{inl, inr}
use mathlib.Core.Bool.{true, false}
use mathlib.Core.List.{[], ◌∷◌}
use native.Mathlib.Omega.{arith}
use simple_http_server.Base.Tests.{Bool-cases}
use simple_http_server.Base.Bytes.{Bytes, before, same, same_iff}

pub before_asym : (a b : Bytes) → before a b ≡ true → before b a ≡ false
unfolding before
before_asym a [] h = ground (arith, h)
before_asym [] (y ∷ b) h = refl
before_asym (x ∷ a) (y ∷ b) h = ground (arith, h, before_asym a b)

pub before-same : (a b : Bytes) → before a b ≡ true → same a b ≡ false
before-same a b h = elim (Bool-cases (same a b)) [
  | inr e ↦ e
  | inl e ↦
      let h' : before b b ≡ true = rw ((same_iff a b).0 e) at h in
      ground (arith, h', before_asym b b)
]

pub before_trans : (a b c : Bytes) → before a b ≡ true → before b c ≡ true → before a c ≡ true
unfolding before
before_trans a b [] h k = ground (arith, k)
before_trans [] b (z ∷ c) h k = refl
before_trans (x ∷ a) [] (z ∷ c) h k = ground (arith, h)
before_trans (x ∷ a) (y ∷ b) (z ∷ c) h k = ground (arith, h, k, before_trans a b c)
