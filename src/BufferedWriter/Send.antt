-- ===== src/BufferedWriter/Send.antt =====
-- What the loop around ::write sends, and how often the descriptor takes bytes.
use ob_preliminary.Common.{
  ℕ, zero, suc, ◌≤◌, ◌<◌, ◌≡◌, refl, false, List, [], ◌∷◌, ◌==◌, length, min, arith,
}
use ob_preliminary.Common.System.{good, WriteResult, wrote, again, fails}
use ob_preliminary.BufferedWriter.{Sent, sent, failed, waiting, send}

-- Some bytes of those offered are sent, and a result of ::write at least is used up.
abbrev pub IsSent : List WriteResult → ℕ → Sent → Type 0
IsSent future offered (sent n rest) =
    (0 < n) × (n ≤ offered) × (length rest < length future) × (good future ≤ suc (good rest))
IsSent future offered (failed rest) = good future ≡ 0
IsSent future offered waiting = good future ≡ 0

later :
    (result : WriteResult) (future : List WriteResult) (offered : ℕ) (s : Sent)
    → good (result ∷ future) ≡ good future
    → IsSent future offered s
    → IsSent (result ∷ future) offered s
later result future offered (sent n rest) e h =
    (h.0, h.1, omega (arith, h.2), omega (arith, e, h.3))
later result future offered (failed rest) e h = omega (arith, e, h)
later result future offered waiting e h = omega (arith, e, h)

pub send_lem :
    (future : List WriteResult) (offered : ℕ)
    → 0 < offered
    → IsSent future offered (send future offered)
unfolding send
send_lem [] offered h = refl
send_lem (again ∷ future) offered h =
    later again future offered (send future offered) refl (send_lem future offered h)
send_lem (fails ∷ future) offered h = refl
send_lem (wrote zero ∷ future) offered h =
    let none_taken : min 0 offered ≡ 0 = omega arith in
    rw none_taken
      (later (wrote zero) future offered (send future offered) refl (send_lem future offered h))
send_lem (wrote (suc k) ∷ future) offered h =
    let some_taken : (min (suc k) offered == 0) ≡ false = ground arith in
    rw some_taken (omega arith, omega arith, omega arith, omega arith)
