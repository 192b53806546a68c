-- ===== src/Signal/Handlers.antt =====
-- The table of handlers of src/signal.c.
use c_lite.Base.{ℕ, suc, ◌<◌, ◌≡◌, ◌≢◌, refl, none, some, ne→==, ==_refl}
use c_lite.Base.Int.{pos}
use c_lite.Signal.Sets.{bit_of-suc}
use c_lite.Signal.{Handler, Handlers, nsig, signal, sigaction}

-- For a signal below 32, signal returns the handler that was in the table, and sigaction then reports
-- the new one; the handler of another signal stays as it was.
pub sigaction-signal :
    (handlers : Handlers) (k : ℕ) (h : Handler)
    → suc k < nsig
    → let (old, handlers') = signal handlers (pos (suc k)) h in
      (old ≡ handlers (suc k))
      × (sigaction handlers' (pos (suc k)) none
          ≡ (pos 0, some (record { handler = h; mask = 0; flags = 0 }), handlers'))
      × ((i : ℕ) → i ≢ suc k → handlers' i ≡ handlers i)
unfolding signal sigaction
sigaction-signal handlers k h valid =
    rw (bit_of-suc k valid)
      (refl, rw (==_refl (suc k)) refl, λ i other. rw (ne→== i (suc k) other) refl)
