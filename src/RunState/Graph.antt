-- ===== src/RunState/Graph.antt =====
-- The transition graph of state_machine.py: what a Run can reach and in how many transitions.
use top.Base.{ℕ, suc, ◌+◌, ◌≤◌, ◌≡◌, refl, ◌↔◌, true, false, arith}
use top.Contracts.{RunStatus}
use top.RunState.{allowed, is_terminal, is_in_flight}

-- A history of `n` transitions, each of which `require_run_transition` accepts.
pub data History (a : RunStatus) : RunStatus → ℕ → Type 0 where
  start : History a a 0
  next : {b c : RunStatus} {n : ℕ} → History a b n → allowed b c ≡ true → History a c (suc n)

-- How far along a status is; every allowed transition raises it.
pub depth : RunStatus → ℕ
depth RunStatus.queued = 0
depth RunStatus.preparing = 1
depth RunStatus.running = 2
depth _ = 3

pub depth-le : (a : RunStatus) → depth a ≤ 3
unfolding depth
depth-le RunStatus.queued = omega arith
depth-le _ = omega arith

allowed-depth : (a b : RunStatus) → allowed a b ≡ true → depth a + 1 ≤ depth b
unfolding allowed depth
allowed-depth a b h = ground arith

History-depth : {a b : RunStatus} {n : ℕ} → History a b n → depth a + n ≤ depth b
History-depth start = omega arith
History-depth (next {b} {c} h e) = omega (arith, History-depth h, allowed-depth b c e)

-- A history never takes more than three transitions, so no Run cycles between statuses.
pub History-bounded : {a b : RunStatus} {n : ℕ} → History a b n → n ≤ 3
History-bounded {b} h = omega (arith, History-depth h, depth-le b)

-- A status has no successor exactly when it is terminal.
pub terminal_iff_final :
    (a : RunStatus) → (is_terminal a ≡ true) ↔ ((b : RunStatus) → allowed a b ≡ false)
unfolding is_terminal allowed
terminal_iff_final a = (λ h b. ground arith, λ f. ground (arith, f RunStatus.canceled))

-- A Run is either in flight or terminal.
pub in_flight_iff_not-terminal : (a : RunStatus) → (is_in_flight a ≡ true) ↔ (is_terminal a ≡ false)
unfolding is_terminal is_in_flight
in_flight_iff_not-terminal a = (λ h. ground arith, λ h. ground arith)

-- A terminal status is the last of its history.
pub History-final : {a b : RunStatus} {n : ℕ} → History a b n → is_terminal a ≡ true → b ≡ a
unfolding allowed is_terminal
History-final start h = refl
History-final {a} (next {b} {c} p e) h =
    let same : b ≡ a = History-final p h in ground (arith, same)
