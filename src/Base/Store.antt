-- ===== src/Base/Store.antt =====
-- A store of objects at addresses: a write, and what is read back.
use Prim.Native.Nat.{ℕ}
use mathlib.Core.Path.{◌≡◌, refl}
use mathlib.Core.Logic.{◌≢◌}
use lapis.Base.Tests.{◌==◌, if◌then◌else◌, test_ne}

module _ {ℓ} {A : Type ℓ} where
  unfoldable pub put : (ℕ → A) → ℕ → A → ℕ → A
  put st p v q = if q == p then v else st q

  pub put_lem : (st : ℕ → A) (p : ℕ) (v : A) (q : ℕ) → put st p v q ≡ (if q == p then v else st q)
  unfolding put
  put_lem st p v q = refl

  pub put-ne : (st : ℕ → A) (p : ℕ) (v : A) (q : ℕ) → q ≢ p → put st p v q ≡ st q
  unfolding put
  put-ne st p v q ne = rw (test_ne q p ne)
