-- ===== src/Ftp/Retrying.antt =====
-- What `withRetry` does: it stops at the first success, at the last attempt, or at the context.
use mathlib.Core.Path.{subst}
use loxbak.Base.{
  ℕ, zero, suc, ◌+◌, ◌-◌, ◌*◌, ◌^◌, ◌≤◌, ◌<◌, ◌≡◌, refl, ap, ◌∙◌, ◌⊎◌, inl, inr, Bool, true, false,
  arith, Error, Result, ok, err,
}
use loxbak.Ftp.{max_retries, retry_base_delay, context_error, retry_loop, with_retry}

module _ {W A : Type 0} (wait : ℕ → W → Bool × W) (fn : W → Result A × W) where
  -- `n` attempts have failed, from the retry of number `first` on, and each delay behind them
  -- passed: 500 ms, and twice as long each time.
  pub data Failing : ℕ → ℕ → W → W → Type 0 where
    none_yet : {first : ℕ} {w : W} → Failing first zero w w
    one_more :
        {first n : ℕ} {w w' : W} (e : Error)
        → (fn w).0 ≡ err e
        → (wait (retry_base_delay * 2 ^ first) (fn w).1).0 ≡ true
        → Failing (suc first) n (wait (retry_base_delay * 2 ^ first) (fn w).1).1 w'
        → Failing first (suc n) w w'

  retry_loop-success :
      (left : ℕ) (w : W) (a : A) → (fn w).0 ≡ ok a → retry_loop wait fn left w ≡ fn w
  unfolding retry_loop
  retry_loop-success zero w a e = refl
  retry_loop-success (suc left) w a e = rw (e, retry_loop) refl

  -- The state behind a failed attempt and the delay of the retry number `first`.
  abbrev delayed : ℕ → W → Bool × W
  delayed first w = wait (retry_base_delay * 2 ^ first) (fn w).1

  retry_loop-failure_at :
      (left : ℕ) (w : W) (e : Error)
      → (fn w).0 ≡ err e
      → (delayed (max_retries - suc left) w).0 ≡ true
      → retry_loop wait fn (suc left) w
        ≡ retry_loop wait fn left (delayed (max_retries - suc left) w).1
  unfolding retry_loop
  retry_loop-failure_at left w e failed passed = rw (failed, passed, retry_loop) refl

  retry_loop-failure :
      (left first : ℕ) (w : W) (e : Error)
      → first + suc left ≡ max_retries
      → (fn w).0 ≡ err e
      → (delayed first w).0 ≡ true
      → retry_loop wait fn (suc left) w ≡ retry_loop wait fn left (delayed first w).1
  retry_loop-failure left first w e s failed =
      let k : max_retries - suc left ≡ first = omega arith in
      subst
        (λ n.
          (delayed n w).0 ≡ true
          → retry_loop wait fn (suc left) w ≡ retry_loop wait fn left (delayed n w).1)
        k (retry_loop-failure_at left w e failed)

  retry_loop-Failing :
      (left : ℕ) {first n : ℕ} {w w' : W}
      → first + left ≡ max_retries
      → n ≤ left
      → Failing first n w w'
      → (n ≡ left) ⊎ ((a : A) × ((fn w').0 ≡ ok a))
      → retry_loop wait fn left w ≡ fn w'
  retry_loop-Failing zero s h none_yet stop = unfold retry_loop in refl
  retry_loop-Failing zero s h (one_more e failed passed f) stop = absurd (omega arith)
  retry_loop-Failing (suc left) s h none_yet (inl none_left) = absurd (omega arith)
  retry_loop-Failing (suc left) {w} s h none_yet (inr (a, done)) =
      retry_loop-success (suc left) w a done
  retry_loop-Failing (suc left) {first} {w} s h (one_more {n} {w'} e failed passed f) stop =
      retry_loop-failure left first w e s failed passed
      ∙ retry_loop-Failing left (omega arith) (omega arith) f (earlier stop)
    where
      earlier :
          (suc n ≡ suc left) ⊎ ((a : A) × ((fn w').0 ≡ ok a))
          → (n ≡ left) ⊎ ((a : A) × ((fn w').0 ≡ ok a))
      earlier (inl q) = inl (omega arith)
      earlier (inr q) = inr q

  -- If `n` attempts fail, each delay passes, and the next attempt is the sixth or succeeds, then
  -- that attempt's outcome is the outcome, and no attempt is made behind it.
  pub with_retry-Failing :
      (n : ℕ) {w w' : W}
      → n ≤ max_retries
      → Failing 0 n w w'
      → (n ≡ max_retries) ⊎ ((a : A) × ((fn w').0 ≡ ok a))
      → with_retry wait fn w ≡ fn w'
  unfolding with_retry
  with_retry-Failing n h f stop = retry_loop-Failing max_retries (omega arith) h f stop

  retry_loop-cancelled :
      (left : ℕ) {first n : ℕ} {w w' : W} (e : Error)
      → first + left ≡ max_retries
      → n < left
      → Failing first n w w'
      → (fn w').0 ≡ err e
      → (wait (retry_base_delay * 2 ^ (first + n)) (fn w').1).0 ≡ false
      → (retry_loop wait fn left w).0 ≡ err context_error
  retry_loop-cancelled zero e s h f failed over = absurd (omega arith)
  retry_loop-cancelled (suc left) {first} {n = zero} {w} e s h none_yet failed over =
      let k : max_retries - suc left ≡ first + zero = omega arith in
      unfold retry_loop in rw (failed, k, over, retry_loop) refl
  retry_loop-cancelled (suc left) {first} {n = suc n} {w} {w'} e s h (one_more x bad passed f)
        failed over =
      let k : first + suc n ≡ suc first + n = omega arith in
      ap (λ (r : Result A × W). r.0) (retry_loop-failure left first w x s bad passed)
      ∙ retry_loop-cancelled left e (omega arith) (omega arith) f failed (rw (← k) over)

  -- If the context is done during the delay behind a failed attempt, the context's error is the
  -- outcome.
  pub with_retry_cancelled :
      (n : ℕ) {w w' : W} (e : Error)
      → n < max_retries
      → Failing 0 n w w'
      → (fn w').0 ≡ err e
      → (wait (retry_base_delay * 2 ^ n) (fn w').1).0 ≡ false
      → (with_retry wait fn w).0 ≡ err context_error
  unfolding with_retry
  with_retry_cancelled n {w'} e h f failed over =
      let k : 0 + n ≡ n = omega arith in
      retry_loop-cancelled max_retries e (omega arith) h f failed (rw k over)
