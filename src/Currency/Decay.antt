-- ===== src/Currency/Decay.antt =====
-- What demurrage leaves of a balance (components/currency/currency.c).
use native.Mathlib.Nat.{
  mul-le-mul_left, mul-le-mul_right, mul_assoc, mul_right_comm, pow-le-pow_left, pow-zero, pow-suc,
}
use meshpay_v.Base.{
  ℕ, zero, suc, ◌+◌, ◌*◌, ◌/◌, ◌-◌, ◌^◌, ◌≤◌, ◌≡◌, refl, sym, ap, ◌∙◌, inl, inr, false, not, ◌||◌,
  arith, leb, ◌==◌, if◌then◌else◌, Bool-cases,
}
use meshpay_v.Currency.{Config, bps_scale, decay, apply_demurrage}

tick_le : (factor x : ℕ) → factor ≤ bps_scale → x * factor / bps_scale ≤ x
tick_le factor x h = let m : x * factor ≤ x * bps_scale = mul-le-mul_left x h in omega arith

decay_zero : (ticks factor : ℕ) → decay ticks factor 0 ≡ 0
unfolding decay
decay_zero zero factor = refl
decay_zero (suc ticks) factor = refl

decay-suc :
    (ticks factor x : ℕ) → decay (suc ticks) factor x ≡ decay ticks factor (x * factor / bps_scale)
unfolding decay
decay-suc ticks factor zero = sym (
    ap (decay ticks factor) {x = 0 * factor / bps_scale} {y = 0} (omega arith)
    ∙ decay_zero ticks factor)
decay-suc ticks factor (suc x) =
    let positive : (suc x == 0) ≡ false = ground arith in rw (positive, decay) refl

decay_le : (ticks factor x : ℕ) → factor ≤ bps_scale → decay ticks factor x ≤ x
unfolding decay
decay_le zero factor x h = omega arith
decay_le (suc ticks) factor x h = omega (
  arith,
  decay-suc ticks factor x,
  decay_le ticks factor (x * factor / bps_scale) h,
  tick_le factor x h,
)

ticks_zero : (factor x : ℕ) → decay 0 factor x ≡ x
unfolding decay
ticks_zero factor x = refl

suc_times : (a p : ℕ) → (a + 1) * p ≡ a * p + p
suc_times a p = omega arith

-- One tick by a factor `f` of a scale `s`, of what the powers `g` and `p` of them bracket already.
bracket_above : (r y z p g s : ℕ) → r * p ≤ y * g → y * s ≤ z → r * (p * s) ≤ z * g
bracket_above r y z p g s h tick =
    let more : r * p * s ≤ y * g * s = mul-le-mul_right s h in
    let less : y * s * g ≤ z * g = mul-le-mul_right g tick in
    let left : r * p * s ≡ r * (p * s) = mul_assoc r p s in
    let right : y * g * s ≡ y * s * g = mul_right_comm y g s in omega arith

bracket_below :
    (r y z n p g s : ℕ)
    → y * g ≤ (r + n) * p
    → z ≤ (y + 1) * s
    → g ≤ p
    → z * g ≤ (r + n + 1) * (p * s)
bracket_below r y z n p g s h tick below =
    let less : z * g ≤ (y + 1) * s * g = mul-le-mul_right g tick in
    let turned : (y + 1) * s * g ≡ (y + 1) * g * s = mul_right_comm (y + 1) s g in
    let one : (y + 1) * g ≡ y * g + g = suc_times y g in
    let other : (r + n + 1) * p ≡ (r + n) * p + p = suc_times (r + n) p in
    let more : (y + 1) * g * s ≤ (r + n + 1) * p * s = mul-le-mul_right s (omega arith) in
    let right : (r + n + 1) * p * s ≡ (r + n + 1) * (p * s) = mul_assoc (r + n + 1) p s in
    omega arith

decay-brackets :
    (ticks factor x : ℕ)
    → factor ≤ bps_scale
    → (decay ticks factor x * bps_scale ^ ticks ≤ x * factor ^ ticks)
      × (x * factor ^ ticks ≤ (decay ticks factor x + ticks) * bps_scale ^ ticks)
unfolding decay
decay-brackets zero factor x h =
    rw (pow-zero factor, pow-zero bps_scale, ticks_zero factor x) (omega arith, omega arith)
decay-brackets (suc ticks) factor x h =
    let y : ℕ = x * factor / bps_scale in
    let r : ℕ = decay ticks factor y in
    let turned : x * (factor ^ ticks * factor) ≡ x * factor * factor ^ ticks = grind arith in
    let count : r + suc ticks ≡ r + ticks + 1 = omega arith in
    let (above, below) = decay-brackets ticks factor y h in
    rw (decay-suc ticks factor x, pow-suc factor ticks, pow-suc bps_scale ticks, turned, count)
      (
        bracket_above r y (x * factor) _ _ bps_scale above (omega arith),
        bracket_below r y (x * factor) ticks _ _ bps_scale below (omega arith)
            (pow-le-pow_left h ticks),
      )

decay_whole : (ticks x : ℕ) → decay ticks bps_scale x ≡ x
decay_whole zero x = ticks_zero bps_scale x
decay_whole (suc ticks) x =
    let same : x * bps_scale / bps_scale ≡ x = omega arith in
    rw (decay-suc ticks bps_scale x, same) (decay_whole ticks x)

decay_all : (ticks x : ℕ) → decay (suc ticks) 0 x ≡ 0
decay_all ticks x =
    let none_left : x * 0 / bps_scale ≡ 0 = omega arith in
    rw (decay-suc ticks 0 x, none_left) (decay_zero ticks 0)

-- The part of a balance, in `bps_scale`-ths, that one tick leaves.
abbrev pub kept : Config → ℕ
kept c = if c.demurrage_enabled then bps_scale - c.demurrage_bps else bps_scale

-- Without the early returns for no ticks and no balance.
apply_demurrage_cases :
    (c : Config) (balance ticks : ℕ)
    → apply_demurrage c balance ticks ≡ (
        if not c.demurrage_enabled || c.demurrage_bps == 0
        then balance
        else if ticks == 0
        then balance
        else if leb bps_scale c.demurrage_bps
        then 0
        else decay ticks (bps_scale - c.demurrage_bps) balance)
unfolding apply_demurrage
apply_demurrage_cases c balance ticks =
    ground (arith, decay_zero ticks (bps_scale - c.demurrage_bps))

kept-le : (c : Config) → kept c ≤ bps_scale
kept-le c = ground arith

-- Every early return is what the loop gives.
apply_demurrage-decay :
    (c : Config) (balance ticks : ℕ)
    → apply_demurrage c balance ticks ≡ decay ticks (kept c) balance
apply_demurrage-decay c balance zero =
    ground (arith, apply_demurrage_cases c balance 0, ticks_zero (kept c) balance)
apply_demurrage-decay c balance (suc ticks) =
    elim (Bool-cases (not c.demurrage_enabled || c.demurrage_bps == 0)) [
      | inl off ↦
          let whole : kept c ≡ bps_scale = ground arith in
          rw (whole, decay_whole (suc ticks) balance)
            (ground (arith, apply_demurrage_cases c balance (suc ticks)))
      | inr on ↦ elim (Bool-cases (leb bps_scale c.demurrage_bps)) [
        | inl all ↦
            let nothing : kept c ≡ 0 = ground arith in
            rw (nothing, decay_all ticks balance)
              (ground (arith, apply_demurrage_cases c balance (suc ticks)))
        | inr part ↦
            let rest : kept c ≡ bps_scale - c.demurrage_bps = ground arith in
            rw rest (ground (arith, apply_demurrage_cases c balance (suc ticks)))
      ]
    ]

-- Demurrage leaves at most what the exact rule leaves, `balance` times the `ticks`-th power of the
-- part `kept` that one tick keeps, and less than that by at most one unit for each tick; it is never
-- more than the balance.
pub apply_demurrage-brackets :
    (c : Config) (balance ticks : ℕ)
    → (apply_demurrage c balance ticks ≤ balance)
      × (apply_demurrage c balance ticks * bps_scale ^ ticks ≤ balance * kept c ^ ticks)
      × (balance * kept c ^ ticks ≤ (apply_demurrage c balance ticks + ticks) * bps_scale ^ ticks)
apply_demurrage-brackets c balance ticks =
    let (above, below) = decay-brackets ticks (kept c) balance (kept-le c) in
    rw (apply_demurrage-decay c balance ticks)
      (decay_le ticks (kept c) balance (kept-le c), above, below)
