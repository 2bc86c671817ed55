-- ===== src/Mcp/Money/Scale.antt =====
-- tools/orders.py: which amounts pass `_enforce_money_scale`.
use arush_adabala_tax_liabil.Prelude.{
  ℕ, zero, suc, ◌+◌, ◌*◌, ◌/◌, ◌≤◌, ◌<◌, ◌≡◌, refl, sym, ◌↔◌, true, arith, length, ok, string_eq,
  nat_eq, list_eq,
}
use Prim.Native.Nat.{◌^◌}
use native.Mathlib.Nat.{pow-suc, mul-add-div, div-eq_of_lt}
use arush_adabala_tax_liabil.Prelude.Int.{ℤ, pos, negsuc}
use arush_adabala_tax_liabil.Prelude.Text.Decimal.{decimal}
use arush_adabala_tax_liabil.Mcp.Money.{
  Decimal, precision, quantized, shrink, shrink_exact, scale_exact, fits, enforce_money_scale,
}

-- The value with the coefficient `c` and that exponent is `n` hundredths.
abbrev pub IsCents : ℕ → ℕ → ℤ → Type 0
IsCents n c (pos e) = n ≡ c * 10 ^ (e + 2)
IsCents n c (negsuc k) = n * 10 ^ suc k ≡ c * 100

pub pow_pos : (j : ℕ) → 0 < 10 ^ j
pow_pos zero = omega arith
pow_pos (suc j) = rw (pow-suc 10 j) (omega (arith, pow_pos j))

half_up_exact : (n m : ℕ) → 0 < m → (2 * (n * m) + m) / (2 * m) ≡ n
half_up_exact n m h =
    let e : 2 * (n * m) + m ≡ 2 * m * n + m = grind arith in
    rw
      (e, mul-add-div {m = 2 * m} (omega arith) n m, div-eq_of_lt {n = m} {m = 2 * m} (omega arith))
      (omega arith)

hundreds : (n m c : ℕ) → n * (m * 10 * 10) ≡ c * 100 → c ≡ n * m
hundreds n m c h = let e : n * (m * 10 * 10) ≡ n * m * 100 = grind arith in omega arith

-- The rounded coefficient of a whole number of cents is that number, and the scale is exact.
shrink-cents : (n c k : ℕ) → n * 10 ^ suc k ≡ c * 100 → (shrink c k ≡ n) × (shrink_exact c k ≡ true)
unfolding shrink shrink_exact
shrink-cents n c zero h = (omega arith, refl)
shrink-cents n c (suc j) h =
    let h' : n * (10 ^ j * 10 * 10) ≡ c * 100 = rw (← pow-suc 10 j, ← pow-suc 10 (suc j)) h in
    let e : c ≡ n * 10 ^ j = hundreds n (10 ^ j) c h' in
    let q : shrink c (suc j) ≡ n = rw e (half_up_exact n (10 ^ j) (pow_pos j)) in
    (q, rw q ((nat_eq.beq_iff c (n * 10 ^ j)).1 e))

exact-cents : (c k : ℕ) → shrink_exact c k ≡ true → shrink c k * 10 ^ suc k ≡ c * 100
unfolding shrink shrink_exact
exact-cents c zero h = omega arith
exact-cents c (suc j) h =
    let e : c ≡ shrink c (suc j) * 10 ^ j = (nat_eq.beq_iff _ _).0 h in
    rw (pow-suc 10 (suc j), pow-suc 10 j) (grind arith)

cents_quantized : (n c : ℕ) (e : ℤ) → IsCents n c e → (quantized c e ≡ n) × (scale_exact c e ≡ true)
unfolding quantized scale_exact
cents_quantized n c (pos e) h = (sym h, refl)
cents_quantized n c (negsuc k) h = shrink-cents n c k h

quantized-IsCents : (c : ℕ) (e : ℤ) → scale_exact c e ≡ true → IsCents (quantized c e) c e
unfolding quantized scale_exact
quantized-IsCents c (pos e) h = refl
quantized-IsCents c (negsuc k) h = exact-cents c k h

-- An amount passes exactly if it is a whole number of cents of at most 28 digits, and then unchanged.
pub enforce_money_scale_iff :
    (d w : Decimal)
    → (enforce_money_scale d ≡ ok w) ↔ (
        (w ≡ d) × ((n : ℕ) × IsCents n d.coefficient d.exponent × (length (decimal n) ≤ precision)))
unfolding enforce_money_scale fits
enforce_money_scale_iff d w = (accepted, λ (e, (n, h, few)). passes n e h few)
  where
    q : ℕ
    q = quantized d.coefficient d.exponent

    accepted :
        (enforce_money_scale d ≡ ok w)
        → (w ≡ d)
          × ((n : ℕ) × IsCents n d.coefficient d.exponent × (length (decimal n) ≤ precision))
    accepted h =
        let exact : scale_exact d.coefficient d.exponent ≡ true = ground arith in
        (ground arith, (q, quantized-IsCents d.coefficient d.exponent exact, ground arith))

    passes :
        (n : ℕ)
        → w ≡ d
        → IsCents n d.coefficient d.exponent
        → length (decimal n) ≤ precision
        → enforce_money_scale d ≡ ok w
    passes n e h few =
        let (size, exact) = cents_quantized n d.coefficient d.exponent h in
        rw (size, exact, e) (ground arith)
