-- ===== src/Billing/Proportion.antt =====
-- The credits of a reversed payment, `_cumulative_reversal` of
-- backend/app/services/product_billing.py.
use mathlib.Core.Path.{subst, sym}
use native.Mathlib.Nat.{le-div_iff_mul-le, div-mul-le_self, mul-le-mul_left, div-eq_of_lt-le}
use qatth.Base.{ℕ, suc, ◌+◌, ◌-◌, ◌*◌, ◌/◌, ◌≤◌, ◌≡◌, arith}
use qatth.Base.Int.{pos, ◌+ℤ◌, ◌-ℤ◌, ◌*ℤ◌, int_laws}
use qatth.Db.{ok}
use qatth.Billing.Reversals.{proportion, cumulative_reversal}

*ℤ_pos : (a b : ℕ) → pos a *ℤ pos b ≡ pos (a * b)
unfolding ◌*ℤ◌
*ℤ_pos a b = ground arith

+ℤ_pos : (a b : ℕ) → pos a +ℤ pos b ≡ pos (a + b)
+ℤ_pos a b = omega int_laws

-ℤ_pos : (a b : ℕ) → b ≤ a → pos a -ℤ pos b ≡ pos (a - b)
-ℤ_pos a b h = omega int_laws

-- The credits that go with an amount `c` of a payment of `o + 1` for `g` credits: the proportion,
-- rounded up to a whole credit.
abbrev pub due : ℕ → ℕ → ℕ → ℕ
due o g c = (g * c + o) / suc o

div_mono : (k : ℕ) {a b : ℕ} → a ≤ b → a / suc k ≤ b / suc k
div_mono k {a} {b} h =
    (le-div_iff_mul-le {k = suc k} {x = a / suc k} {y = b} (omega arith)).1
      (omega (arith, div-mul-le_self a (suc k)))

due_mono : (o g : ℕ) {c d : ℕ} → c ≤ d → due o g c ≤ due o g d
due_mono o g {c} {d} h = div_mono o (omega (arith, mul-le-mul_left g h))

due_all : (o g : ℕ) → due o g (suc o) ≡ g
due_all o g = div-eq_of_lt-le {k = g} (suc o) (omega arith) (grind arith)

proportion_pos :
    (o g c : ℕ) → c ≤ suc o → proportion (pos (suc o)) (pos g) (pos c) ≡ pos (due o g c)
unfolding proportion
proportion_pos o g c h =
    let most : due o g c ≤ g = omega (arith, due_mono o g h, due_all o g) in
    let same : g * c + suc o - 1 ≡ g * c + o = omega arith in
    rw (*ℤ_pos g c, +ℤ_pos (g * c) (suc o), -ℤ_pos (g * c + suc o) 1 (ground arith))
      (rw same (ground arith))

-- A reversal of a part of a payment that leaves something of it, or all of it, to reverse always
-- goes through. The amounts add up; the credits reversed so far are the proportion of the amount
-- reversed so far, rounded up; they never fall, never exceed the credits granted, and are all of
-- them when the whole payment has been reversed.
pub cumulative_reversal-due :
    (o g r v : ℕ)
    → 1 ≤ g
    → 1 ≤ v
    → r + v ≤ suc o
    → (cumulative_reversal (pos (suc o)) (pos g) (pos r) (pos (due o g r)) (pos v)
        ≡ ok (pos (r + v), pos (due o g (r + v)), pos (due o g (r + v) - due o g r)))
      × (due o g r ≤ due o g (r + v))
      × (due o g (r + v) ≤ g)
      × (r + v ≡ suc o → due o g (r + v) ≡ g)
unfolding cumulative_reversal
cumulative_reversal-due o g r v gp vp h =
    let grows : due o g r ≤ due o g (r + v) = due_mono o g (omega arith) in
    let most : due o g (r + v) ≤ g = omega (arith, due_mono o g h, due_all o g) in
    (
      rw (+ℤ_pos r v, proportion_pos o g (r + v) h)
          (ground (arith, -ℤ_pos (due o g (r + v)) (due o g r) grows)),
      grows,
      most,
      λ e. subst (λ c. due o g c ≡ g) (sym e) (due_all o g),
    )
