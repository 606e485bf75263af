-- ===== src/Queue/Delay.antt =====
-- The constructor's checks and the back-off of `compute_retry_delay`.
use native.Mathlib.Nat.{pow-succ'}
use it_outsourcing_knowledge.Base.{ℕ, zero, suc, ◌-◌, ◌*◌, ◌^◌, ◌≤◌, ◌<◌, ◌≡◌, min, arith, ◌⊎◌}
use it_outsourcing_knowledge.Base.Int.{pos}
use it_outsourcing_knowledge.Base.Exec.{Result, ok, err, overflow_error}
use it_outsourcing_knowledge.Queue.{compute_retry_delay}

delay_of : ℕ → ℕ → ℕ → ℕ
delay_of n b m = min (b * 2 ^ (n - 1)) m

-- Attempts whose power of two a float holds.
delay_pos : (n b m : ℕ) → n ≤ 1024 → compute_retry_delay n (pos b) (pos m) ≡ ok (delay_of n b m)
unfolding compute_retry_delay delay_of
delay_pos n zero m h = ground arith
delay_pos n (suc b) m h = ground (arith, h)

delay_doubles : (n b m : ℕ) → delay_of (suc (suc n)) b m ≡ min (2 * delay_of (suc n) b m) m
unfolding delay_of
delay_doubles n b m =
    let e : suc (suc n) - 1 ≡ suc n = omega arith in
    let e' : suc n - 1 ≡ n = omega arith in rw (e, e') (rw (pow-succ' 2 n) (grind arith))

-- Each further attempt, up to the attempt 1024, doubles the delay, up to the maximum.
pub retry_delay_doubles :
    (n b m d : ℕ)
    → suc (suc n) ≤ 1024
    → compute_retry_delay (suc n) (pos b) (pos m) ≡ ok d
    → compute_retry_delay (suc (suc n)) (pos b) (pos m) ≡ ok (min (2 * d) m)
retry_delay_doubles n b m d small h =
    let same : delay_of (suc n) b m ≡ d = cc (delay_pos (suc n) b m (omega (arith, small)), h) in
    rw (delay_pos (suc (suc n)) b m small) (rw (delay_doubles n b m) (rw same))

-- What becomes of the delay of an attempt.
abbrev pub DelayCases : ℕ → ℕ → ℕ → Result ℕ → Type 0
DelayCases n b m r =
    ((n ≤ 1024) × (d : ℕ) × (r ≡ ok d) × (min b m ≤ d) × (d ≤ m))
    ⊎ ((1024 < n) × (r ≡ err overflow_error))
    ⊎ ((b ≡ 0) × (r ≡ ok 0))
