-- ===== src/Rules/Shares.antt =====
-- EC-08 of src/rules/rules.service.ts against the shares that rule-engine.service.ts computes.
use native.Mathlib.Nat.{mul_comm, mul-add, div-mul-le_self, mul-le-mul_right}
use accountos.Rules.Release.{share_of}
use accountos.World.{ok, World}
use accountos.Rules.RuleSets.{enforce_percentage_sum, percentage_of, RuleInput, total_percentage}
use accountos.Prelude.{
  arith, ap, refl, ◌+◌, ◌∙◌, ◌/◌, neg_part, ◌*◌, scale, ℤ, [], pos_part, ℕ, ◌+ℤ◌, ◌≤◌, List, ◌∷◌,
  pos, ◌≡◌, ◌≤ℤ◌,
}

add_mul : (m n k : ℕ) → (m + n) * k ≡ m * k + n * k
add_mul m n k = rw (mul_comm (m + n) k, mul-add k m n, mul_comm k m, mul_comm k n) refl

-- What the rules with a percentage release of an inflow.
abbrev pub total_share : List RuleInput → ℤ → ℤ
total_share [] amount = pos 0
total_share (r ∷ rs) amount =
    share_of (percentage_of r.action r.payload) amount +ℤ total_share rs amount

share_of-pos : (p a : ℕ) → share_of p (pos a) ≡ pos (p * 100 * a / 10000)
unfolding scale
share_of-pos p a = ground arith

-- A number that is not negative, and whose 10000-fold is at most `n`.
abbrev IsWithin : ℤ → ℕ → Type 0
IsWithin x n = (neg_part x ≡ 0) × (pos_part x * 10000 ≤ n)

IsWithin-add : (x y : ℤ) (m n : ℕ) → IsWithin x m → IsWithin y n → IsWithin (x +ℤ y) (m + n)
unfolding ◌+ℤ◌
IsWithin-add x y m n h k = (ground (arith, h.0, h.1, k.0, k.1), ground (arith, h.0, h.1, k.0, k.1))

share_of-IsWithin : (p a : ℕ) → IsWithin (share_of p (pos a)) (p * 100 * a)
share_of-IsWithin p a = rw (share_of-pos p a) (refl, div-mul-le_self (p * 100 * a) 10000)

total_share-bound :
    (rs : List RuleInput) (a : ℕ)
    → IsWithin (total_share rs (pos a)) (total_percentage rs * 100 * a)
unfolding total_percentage
total_share-bound [] a = (refl, omega arith)
total_share-bound (r ∷ rs) a =
    let p = percentage_of r.action r.payload in
    let sum : (p + total_percentage rs) * 100 * a ≡ p * 100 * a + total_percentage rs * 100 * a =
      ap (λ n. n * a) (add_mul p (total_percentage rs) 100)
      ∙ add_mul (p * 100) (total_percentage rs * 100) a in
    rw sum (
      IsWithin-add (share_of p (pos a)) (total_share rs (pos a)) (p * 100 * a)
        (total_percentage rs * 100 * a) (share_of-IsWithin p a) (total_share-bound rs a))

-- When `enforcePercentageSum` lets a rule set pass, the shares that its rules release of an inflow,
-- each rounded down, come to no more than the inflow.
pub enforce_percentage_sum-total_share :
    (rs : List RuleInput) (a : ℕ) (w w' : World) {u : Unit {0}}
    → enforce_percentage_sum rs w ≡ (ok u, w')
    → total_share rs (pos a) ≤ℤ pos a
unfolding enforce_percentage_sum
enforce_percentage_sum-total_share rs a w w' h =
    let within : total_percentage rs ≤ 100 = ground arith in
    let bound = total_share-bound rs a in
    omega (arith, bound.0, bound.1, mul-le-mul_right a (mul-le-mul_right 100 within))
