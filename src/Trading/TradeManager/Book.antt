-- ===== src/Trading/TradeManager/Book.antt =====
-- The map of open trades of source/run/trading/tradeManager.cppm: what `find`, `erase` and `replace`
-- do to each other, to the sum of the floating PnL and to the properties of its entries.
use backtesting_engine_cpp.Prelude.{
  suc, ◌≡◌, refl, inl, inr, false, none, some, [], ◌∷◌, String, str_eq, eq_iff, length, arith,
  Bool-cases,
}
use backtesting_engine_cpp.Prelude.{ℤ, pos, ◌+ℤ◌, ◌-ℤ◌, int_laws, parts}
use backtesting_engine_cpp.Trading.Models.{Trade}
use backtesting_engine_cpp.Trading.TradeManager.{Book, find, erase, replace}

abbrev pub floating_sum : Book → ℤ
floating_sum [] = pos 0
floating_sum ((k, t) ∷ b) = t.floating_pnl +ℤ floating_sum b

-- No symbol has two open trades.
abbrev pub Distinct : Book → Type 0
Distinct [] = Unit {0}
Distinct ((k, t) ∷ b) = (find k b ≡ none) × Distinct b

pub find-erase_ne : (s j : String) (b : Book) → str_eq s j ≡ false → find j (erase s b) ≡ find j b
unfolding find erase
find-erase_ne s j [] h = refl
find-erase_ne s j ((k, t) ∷ b) h =
    ground (arith, eq_iff s j, eq_iff k s, eq_iff k j, find-erase_ne s j b h)

pub find-replace_ne :
    (s j : String) (u : Trade) (b : Book) → str_eq s j ≡ false → find j (replace s u b) ≡ find j b
unfolding find replace
find-replace_ne s j u [] h = refl
find-replace_ne s j u ((k, t) ∷ b) h =
    ground (arith, eq_iff s j, eq_iff k s, eq_iff k j, find-replace_ne s j u b h)

pub find-replace_self :
    (s : String) (u t : Trade) (b : Book) → find s b ≡ some t → find s (replace s u b) ≡ some u
unfolding find replace
find-replace_self s u t [] h = absurd (ground arith)
find-replace_self s u t ((k, v) ∷ b) h = ground (arith, find-replace_self s u t b)

pub find-erase_self : (s : String) (b : Book) → Distinct b → find s (erase s b) ≡ none
unfolding find erase
find-erase_self s [] d = refl
find-erase_self s ((k, t) ∷ b) d = ground (arith, eq_iff k s, find-erase_self s b d.1)

pub erase-Distinct : (s : String) (b : Book) → Distinct b → Distinct (erase s b)
unfolding erase find
erase-Distinct s [] d = tt
erase-Distinct s ((k, t) ∷ b) d =
    ground (arith, eq_iff s k, eq_iff k s, find-erase_ne s k b, erase-Distinct s b d.1)

pub replace-Distinct : (s : String) (u : Trade) (b : Book) → Distinct b → Distinct (replace s u b)
unfolding replace find
replace-Distinct s u [] d = tt
replace-Distinct s u ((k, t) ∷ b) d =
    ground (arith, eq_iff s k, eq_iff k s, find-replace_ne s k u b, replace-Distinct s u b d.1)

pub floating_sum-erase :
    (s : String) (b : Book) (t : Trade)
    → find s b ≡ some t
    → floating_sum b ≡ t.floating_pnl +ℤ floating_sum (erase s b)
unfolding find erase
floating_sum-erase s [] t h = absurd (ground arith)
floating_sum-erase s ((k, v) ∷ b) t h = elim (Bool-cases (str_eq k s)) [
  | inl hit ↦ ground arith
  | inr miss ↦
      let ih = floating_sum-erase s b t (ground arith) in rw miss (omega (int_laws, parts ih))
]

pub floating_sum-replace :
    (s : String) (u : Trade) (b : Book) (t : Trade)
    → find s b ≡ some t
    → floating_sum (replace s u b) ≡ floating_sum b +ℤ (u.floating_pnl -ℤ t.floating_pnl)
unfolding find replace
floating_sum-replace s u [] t h = absurd (ground arith)
floating_sum-replace s u ((k, v) ∷ b) t h = elim (Bool-cases (str_eq k s)) [
  | inl hit ↦ let e : v ≡ t = ground arith in rw (hit, e) (omega int_laws)
  | inr miss ↦
      let ih = floating_sum-replace s u b t (ground arith) in rw miss (omega (int_laws, parts ih))
]

pub length-erase :
    (s : String) (b : Book) (t : Trade) → find s b ≡ some t → length b ≡ suc (length (erase s b))
unfolding find erase
length-erase s [] t h = absurd (ground arith)
length-erase s ((k, v) ∷ b) t h = ground (arith, length-erase s b t)

pub length-replace : (s : String) (u : Trade) (b : Book) → length (replace s u b) ≡ length b
unfolding replace
length-replace s u [] = refl
length-replace s u ((k, v) ∷ b) = ground (arith, length-replace s u b)

-- A property of the entries, kept by the updates.
module _ (P : String → Trade → Type 0) where
  abbrev pub Entries : Book → Type 0
  Entries [] = Unit {0}
  Entries ((k, t) ∷ b) = P k t × Entries b

  pub erase-Entries : (s : String) (b : Book) → Entries b → Entries (erase s b)
  unfolding erase
  erase-Entries s [] h = tt
  erase-Entries s ((k, t) ∷ b) h = elim (Bool-cases (str_eq k s)) [
    | inl hit ↦ rw hit h.1
    | inr miss ↦ rw miss (h.0, erase-Entries s b h.1)
  ]

  pub replace-Entries :
      (s : String) (u : Trade) (b : Book) → P s u → Entries b → Entries (replace s u b)
  unfolding replace
  replace-Entries s u [] p h = tt
  replace-Entries s u ((k, t) ∷ b) p h = elim (Bool-cases (str_eq k s)) [
    | inl hit ↦ rw hit (rw ((eq_iff k s).0 hit) p, h.1)
    | inr miss ↦ rw miss (h.0, replace-Entries s u b p h.1)
  ]

  pub find-Entries : (s : String) (b : Book) (t : Trade) → Entries b → find s b ≡ some t → P s t
  unfolding find
  find-Entries s [] t h e = absurd (ground arith)
  find-Entries s ((k, v) ∷ b) t h e = elim (Bool-cases (str_eq k s)) [
    | inl hit ↦ let same : v ≡ t = ground arith in rw (← (eq_iff k s).0 hit, ← same) h.0
    | inr miss ↦ find-Entries s b t h.1 (ground arith)
  ]
