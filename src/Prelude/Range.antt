-- ===== src/Prelude/Range.antt =====
-- Checks of every value below a bound, and iteration of a function.
use Prim.Native.Nat.{ℕ, zero, suc, ◌+◌, ◌<◌}
use mathlib.Core.Path.{◌≡◌, refl, ap, ◌∙◌}
use mathlib.Core.Bool.{Bool, true, ◌&&◌}
use native.Mathlib.Omega.{arith}

-- Does `test` hold of each number below the bound?
unfoldable pub all_below : (bound : ℕ) → (ℕ → Bool) → Bool
all_below zero test = true
all_below (suc m) test = all_below m test && test m

pub all_below_sound :
    (bound : ℕ) (test : ℕ → Bool) (i : ℕ) → all_below bound test ≡ true → i < bound → test i ≡ true
unfolding all_below
all_below_sound zero test i checked below = absurd (omega arith)
all_below_sound (suc m) test i checked below = ground (arith, all_below_sound m test i)

module _ {ℓ} {A : Type ℓ} (f : A → A) where
  unfoldable pub iter : ℕ → A → A
  iter zero x = x
  iter (suc n) x = f (iter n x)

  pub iter-suc : (n : ℕ) (x : A) → iter n (f x) ≡ f (iter n x)
  unfolding iter
  iter-suc zero x = refl
  iter-suc (suc n) x = ap f (iter-suc n x)

  pub iter-add : (m n : ℕ) (x : A) → iter (m + n) x ≡ iter m (iter n x)
  unfolding iter
  iter-add zero n x = ap (λ (k : ℕ). iter k x) (omega arith)
  iter-add (suc m) n x =
      ap (λ (k : ℕ). iter k x) {x = suc m + n} {y = suc (m + n)} (omega arith)
      ∙ ap f (iter-add m n x)
