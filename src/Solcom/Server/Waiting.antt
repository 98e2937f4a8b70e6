-- ===== src/Solcom/Server/Waiting.antt =====
-- The loop of `SolConnClient::postMsg` that waits until the buffer is free.
use cpp_linux_learn.Common.{
  ℕ, zero, suc, ◌+◌, ◌<◌, ◌≡◌, ap, ◌∙◌, Bool, true, false, none, some, arith, ltb, lt→ltb,
  if◌then◌else◌,
}
use cpp_linux_learn.Solcom.Server.{wait_free}

-- While the buffer is in use the loop goes on, whatever the timeout: no number of rounds ends it
-- before the buffer is free, and it ends in the first round that finds it free.
pub wait_free_lem :
    (pending : ℕ → Bool) (timeout k fuel t : ℕ)
    → 0 < timeout
    → ((i : ℕ) → i < k → pending (t + i) ≡ true)
    → pending (t + k) ≡ false
    → wait_free pending timeout 0 fuel t ≡ (if ltb k fuel then some (t + k) else none)
unfolding wait_free
wait_free_lem pending timeout k zero t h busy free = ground arith
wait_free_lem pending timeout zero (suc fuel) t h busy free =
    let now : pending t ≡ false = ap pending (omega arith) ∙ free in rw now (ground arith)
wait_free_lem pending timeout (suc k) (suc fuel) t h busy free =
    let now : pending t ≡ true = ap pending (omega arith) ∙ busy 0 (omega arith) in
    rw (now, lt→ltb 0 timeout h)
      (wait_free_lem pending timeout k fuel (t + 1) h
          (λ i l. ap pending (omega arith) ∙ busy (suc i) (omega arith))
          (ap pending (omega arith) ∙ free)
        ∙ ground arith)
