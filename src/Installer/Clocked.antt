-- ===== src/Installer/Clocked.antt =====
-- `waitForState` of sentinel/src/installer/installer.go on a clock: it ends, since each round sleeps.
use remote_pc_controller.Prelude.{
  ℕ, zero, suc, ◌+◌, ◌*◌, ◌≤◌, false, Option, none, some, List, [], ◌∷◌, ◌++◌, ◌≡◌, refl, ◌==◌, ltb,
  Bool-cases, inl, inr, if◌then◌else◌, arith,
}
use remote_pc_controller.Prelude.Text.{Text, codes}
use remote_pc_controller.Installer.{State, Answer, state, failed, state_string, wait_for_state}

-- 300 * time.Millisecond
abbrev pub poll_sleep : ℕ
poll_sleep = 300000000

-- What a wait meets: the answer to its query in each round, and how long the round takes beside the
-- sleep, in nanoseconds.
pub record Polling : Type 0 where
  pub answer : ℕ → Answer
  pub cost : ℕ → ℕ

-- A round, on the answer to its query and on what the rounds behind it return.
round : State → Answer → Option (Option Text) → Option (Option Text)
round desired (failed e) later = some (some (codes "query service state: " ++ e))
round desired (state s) later = if s == desired then some none else later

-- The loop of `waitForState`, from round `k` on, with the clock at `now`; `none` is a loop that has
-- not ended when the fuel has run out.
unfoldable pub wait_loop : ℕ → Polling → State → ℕ → ℕ → ℕ → Option (Option Text)
unfolding round state_string
wait_loop zero p desired deadline now k = none
wait_loop (suc fuel) p desired deadline now k =
    let later = wait_loop fuel p desired deadline (now + p.cost k + poll_sleep) (suc k) in
    if ltb now deadline
    then round desired (p.answer k) later
    else some (some (codes "timed out waiting for service to reach state " ++ state_string desired))

-- The answers to the queries that start before the deadline, in `n` rounds at most.
unfoldable pub answers_before : ℕ → Polling → ℕ → ℕ → ℕ → List Answer
answers_before zero p deadline now k = []
answers_before (suc n) p deadline now k =
    let later = answers_before n p deadline (now + p.cost k + poll_sleep) (suc k) in
    if ltb now deadline then p.answer k ∷ later else []

round-wait_for_state :
    (desired : State) (a : Answer) (rest : List Answer)
    → round desired a (some (wait_for_state desired rest))
      ≡ some (wait_for_state desired (a ∷ rest))
unfolding round wait_for_state
round-wait_for_state desired (failed e) rest = refl
round-wait_for_state desired (state s) rest = ground arith

-- The loop of `waitForState` ends after as many rounds as sleeps of 300 milliseconds fit before
-- its deadline, rounded up, and one more, however long its queries take, with the result for the
-- answers to the queries that start before the deadline.
pub wait_loop-ends :
    (fuel : ℕ) (p : Polling) (desired : State) (deadline now k : ℕ)
    → deadline ≤ now + fuel * poll_sleep
    → wait_loop (suc fuel) p desired deadline now k
      ≡ some (wait_for_state desired (answers_before (suc fuel) p deadline now k))
unfolding wait_loop answers_before
wait_loop-ends zero p desired deadline now k enough =
    let late : ltb now deadline ≡ false = ground (arith, enough) in
    rw late (unfold wait_for_state in refl)
wait_loop-ends (suc fuel) p desired deadline now k enough =
    let next = now + p.cost k + poll_sleep in
    let later = wait_loop-ends fuel p desired deadline next (suc k) (omega (arith, enough)) in
    elim (Bool-cases (ltb now deadline)) [
      | inr late ↦ rw (wait_loop, answers_before, late) (unfold wait_for_state in refl)
      | inl early ↦
          rw (wait_loop, answers_before, early)
            (rw later (round-wait_for_state desired (p.answer k) _))
    ]
