-- ===== src/Workspace/Laws.antt =====
-- The wait before another attempt: `workspaceRetryBackoff` of internal/workspace/runner.go.
use gpu_rental_platform.Common.{zero, refl, ◌+◌, ◌<◌, ◌≡◌, ℕ, suc, ◌*◌, arith}
use gpu_rental_platform.Common.Int.{pos, negsuc}
use gpu_rental_platform.Workspace.{second, retry_backoff}

-- The wait is one second after the first attempt or before it, doubles with each of the next five
-- attempts, and stays at 32 seconds from the sixth on.
pub retry_backoff_doubles :
    (n : ℕ)
    → (retry_backoff (negsuc n) ≡ second)
      × (retry_backoff (pos 0) ≡ second)
      × (retry_backoff (pos 1) ≡ second)
      × (n < 5 → retry_backoff (pos (n + 2)) ≡ 2 * retry_backoff (pos (n + 1)))
      × (retry_backoff (pos (n + 6)) ≡ 32 * second)
unfolding retry_backoff
retry_backoff_doubles n = (ground arith, refl, refl, below n, above)
  where
    below : (m : ℕ) → m < 5 → retry_backoff (pos (m + 2)) ≡ 2 * retry_backoff (pos (m + 1))
    below zero h = refl
    below (suc zero) h = refl
    below (suc (suc zero)) h = refl
    below (suc (suc (suc zero))) h = refl
    below (suc (suc (suc (suc zero)))) h = refl
    below (suc (suc (suc (suc (suc m))))) h = absurd (omega arith)

    above : retry_backoff (pos (n + 6)) ≡ 32 * second
    above = ground arith
