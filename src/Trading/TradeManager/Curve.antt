-- ===== src/Trading/TradeManager/Curve.antt =====
-- Curves of equity: their highest point and their deepest drop, and the scan over a curve that
-- `TradeManager::updateDrawdown` (source/run/trading/tradeManager.cppm) makes.
use backtesting_engine_cpp.Prelude.{◌≡◌, refl, List, [], ◌∷◌, arith}
use backtesting_engine_cpp.Prelude.{ℤ, pos, ◌-ℤ◌, ◌≤ℤ◌, max_ℤ, max_ℤ_bounds, int_laws, parts}

-- The greatest value of a curve, and the deepest drop from a value to a later one (0 if it never
-- falls).
unfoldable pub highest : ℤ → List ℤ → ℤ
highest x [] = x
highest x (y ∷ ys) = max_ℤ x (highest y ys)

unfoldable pub drop_from : ℤ → List ℤ → ℤ
drop_from x [] = pos 0
drop_from x (y ∷ ys) = max_ℤ (x -ℤ y) (drop_from x ys)

unfoldable pub deepest_drop : List ℤ → ℤ
deepest_drop [] = pos 0
deepest_drop (x ∷ xs) = max_ℤ (drop_from x xs) (deepest_drop xs)

-- What `updateDrawdown` does along a curve.
unfoldable pub scan_drawdown : ℤ → ℤ → List ℤ → ℤ
scan_drawdown peak deepest [] = deepest
scan_drawdown peak deepest (e ∷ es) =
    scan_drawdown (max_ℤ peak e) (max_ℤ deepest (max_ℤ peak e -ℤ e)) es

drop_from-max :
    (p e : ℤ) (xs : List ℤ) → drop_from (max_ℤ p e) xs ≡ max_ℤ (drop_from p xs) (drop_from e xs)
unfolding drop_from
drop_from-max p e [] = omega (int_laws, max_ℤ_bounds)
drop_from-max p e (x ∷ xs) = omega (int_laws, max_ℤ_bounds, parts (drop_from-max p e xs))

pub drop_nonneg : (p : ℤ) (xs : List ℤ) → pos 0 ≤ℤ drop_from p xs
unfolding drop_from
drop_nonneg p [] = omega arith
drop_nonneg p (x ∷ xs) = omega (int_laws, max_ℤ_bounds, drop_nonneg p xs)

pub scan_drawdown-eq :
    (xs : List ℤ) (peak deepest : ℤ)
    → pos 0 ≤ℤ deepest
    → scan_drawdown peak deepest xs ≡ max_ℤ deepest (max_ℤ (drop_from peak xs) (deepest_drop xs))
unfolding scan_drawdown drop_from deepest_drop
scan_drawdown-eq [] peak deepest h = omega (int_laws, max_ℤ_bounds)
scan_drawdown-eq (e ∷ es) peak deepest h =
    let ih =
      scan_drawdown-eq es (max_ℤ peak e) (max_ℤ deepest (max_ℤ peak e -ℤ e))
        (omega (int_laws, max_ℤ_bounds)) in
    omega (int_laws, max_ℤ_bounds, parts ih, parts (drop_from-max peak e es), drop_nonneg peak es)

pub highest-max : (p e : ℤ) (l : List ℤ) → highest (max_ℤ p e) l ≡ max_ℤ p (highest e l)
unfolding highest
highest-max p e [] = refl
highest-max p e (x ∷ l) = omega (int_laws, max_ℤ_bounds)
