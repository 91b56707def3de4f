-- ===== src/Sweep/Count.antt =====
-- The size of a grid of source/load/sweep/parameterGenerator.cppm.
use native.Mathlib.Nat.{mul-suc, mul-zero, suc-mul, zero-mul, mod-add-mod, add-mod-mod}
use backtesting_engine_cpp.Prelude.{
  ℕ, zero, suc, ◌+◌, ◌*◌, ◌%◌, ◌^◌, ◌≡◌, refl, sym, ap, ◌∙◌, List, [], ◌∷◌, map, String, length,
  length-append, length-map, arith,
}
use backtesting_engine_cpp.Sweep.{
  Combination, Ranges, set, expand, expand_all, generate_all_combinations, multiply_counts,
  combination_count,
}

mod_mul : (a b m : ℕ) → (a % m) * b % m ≡ a * b % m
mod_mul a zero m = ap (λ x. x % m) (mul-zero (a % m) ∙ sym (mul-zero a))
mod_mul a (suc b) m =
    ap (λ x. x % m) (mul-suc (a % m) b)
    ∙ add-mod-mod ((a % m) * b) a m
    ∙ sym (mod-add-mod ((a % m) * b) m a)
    ∙ ap (λ x. (x + a) % m) (mod_mul a b m)
    ∙ mod-add-mod (a * b) m a
    ∙ ap (λ x. x % m) (sym (mul-suc a b))

module _ {A : Type 0} where
  length-expand :
      (n : String) (vs : List A) (bases : List (Combination A))
      → length (expand n vs bases) ≡ length bases * length vs
  unfolding expand
  length-expand n vs [] = sym (zero-mul (length vs))
  length-expand n vs (b ∷ bases) =
      let first = map (λ v. set n v b) vs in
      omega (
        arith,
        length-append first (expand n vs bases),
        length-map (λ v. set n v b) vs,
        length-expand n vs bases,
        suc-mul (length bases) (length vs),
      )

  multiply_counts-length :
      (rs : Ranges A) (result : List (Combination A)) (count : ℕ)
      → count ≡ length result % 2 ^ 64
      → multiply_counts count rs ≡ length (expand_all rs result) % 2 ^ 64
  unfolding multiply_counts expand_all
  multiply_counts-length [] result count e = e
  multiply_counts-length ((n, vs) ∷ rs) result count e =
      multiply_counts-length rs (expand n vs result) (count * length vs % 2 ^ 64) (
        ap (λ c. c * length vs % 2 ^ 64) e
        ∙ mod_mul (length result) (length vs) (2 ^ 64)
        ∙ ap (λ l. l % 2 ^ 64) (sym (length-expand n vs result)))

  -- The count is the number of combinations of the expansion, reduced to 64 bits.
  pub combination_count-length :
      (rs : Ranges A) → combination_count rs ≡ length (generate_all_combinations rs) % 2 ^ 64
  unfolding combination_count generate_all_combinations
  combination_count-length rs = multiply_counts-length rs ([] ∷ []) 1 refl
