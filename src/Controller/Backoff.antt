-- ===== src/Controller/Backoff.antt =====
-- internal/controller/run_controller.go, `retryDelay`: how long a failed step waits.
use native.Mathlib.Nat.{pow-suc}
use native.Mathlib.Numerals.{add-one}
use Prim.Native.Nat.{◌^◌, min}
use fusion_wizard.Prelude.{
  ℕ, zero, suc, ◌+◌, ◌-◌, ◌*◌, ◌≤◌, ◌<◌, ◌≡◌, ltb, if◌then◌else◌, arith, Bool-cases, inl, inr, ap,
  false,
}

-- one minute, in seconds
abbrev pub max_retry_delay : ℕ
max_retry_delay = 60

-- the loop, over the rounds that are left
delay_loop : ℕ → ℕ → ℕ
delay_loop zero d = d
delay_loop (suc n) d = let rest = delay_loop n (d * 2) in if ltb d max_retry_delay then rest else d

unfoldable pub retry_delay : ℕ → ℕ
unfolding delay_loop
retry_delay failures =
    let d = delay_loop (failures - 1) 2 in if ltb max_retry_delay d then max_retry_delay else d

ltb-false : (a b : ℕ) → ltb a b ≡ false → b ≤ a
ltb-false a b h = ground arith

ltb-min : (d : ℕ) → (if ltb max_retry_delay d then max_retry_delay else d) ≡ min d max_retry_delay
ltb-min d = ground arith

delay_pred : (n : ℕ) → delay_loop (suc n - 1) 2 ≡ delay_loop n 2
delay_pred n = ap (λ k. delay_loop k 2) (omega arith)

le-mul-pow : (n d : ℕ) → d ≤ d * 2 ^ n
le-mul-pow zero d = omega arith
le-mul-pow (suc n) d = rw pow-suc (omega (arith, le-mul-pow n d))

delay_loop-min : (n d : ℕ) → min (delay_loop n d) max_retry_delay ≡ min (d * 2 ^ n) max_retry_delay
unfolding delay_loop
delay_loop-min zero d = omega arith
delay_loop-min (suc n) d = elim (Bool-cases (ltb d max_retry_delay)) [
  | inl below ↦ rw (below, pow-suc) (omega (arith, delay_loop-min n (d * 2)))
  | inr above ↦ rw above (omega (arith, le-mul-pow (suc n) d, ltb-false d max_retry_delay above))
]

-- After `n` failures in a row, of at least one, a step waits 2 ^ n seconds, at most a minute.
pub retry_delay_lem : (n : ℕ) → retry_delay (suc n) ≡ min (2 ^ suc n) max_retry_delay
unfolding retry_delay
retry_delay_lem n =
    rw (ltb-min (delay_loop (suc n - 1) 2))
      (omega (arith, delay_loop-min n 2, delay_pred n, pow-suc 2 n))

min-pos : (a b : ℕ) → 0 < a → 0 < b → 0 < min a b
min-pos a b h k = omega arith

pow-pos : (n : ℕ) → 0 < 2 ^ n
pow-pos zero = omega arith
pow-pos (suc n) = rw pow-suc (omega (arith, pow-pos n))

pub retry_delay-pos : (n : ℕ) → 0 < retry_delay (n + 1)
retry_delay-pos n =
    rw (add-one, retry_delay_lem)
      (min-pos (2 ^ suc n) max_retry_delay (pow-pos (suc n)) (omega arith))
