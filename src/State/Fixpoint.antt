-- ===== src/State/Fixpoint.antt =====
-- The loop of `_fire_state_triggered_transitions` (h11/_state.py), and its rounds.
use h.Prelude.{ℕ, suc, ◌≡◌, true, arith, Bool-cases, inl, inr}
use h.State.Table.{States, states_eq}
use h.State.Defs.{ConnectionState, fire_round, fire_loop, fire_state_triggered_transitions}

-- A second round changes nothing.
pub round-round : (m : ConnectionState) → fire_round (fire_round m) ≡ fire_round m
unfolding fire_round
round-round m = ground arith

states_eq_refl : (s : States) → states_eq s s ≡ true
states_eq_refl s = ground arith

-- The test at the end of a round tells states apart.
round_of_same :
    (m : ConnectionState) → states_eq (fire_round m).states m.states ≡ true → fire_round m ≡ m
unfolding fire_round
round_of_same m h = ground arith

fire_loop_again : (n : ℕ) (m : ConnectionState) → fire_loop (suc n) (fire_round m) ≡ fire_round m
unfolding fire_loop
fire_loop_again n m = rw (round-round m, states_eq_refl (fire_round m).states)

pub fire_loop-eq-round : (n : ℕ) (m : ConnectionState) → fire_loop (suc (suc n)) m ≡ fire_round m
unfolding fire_loop
fire_loop-eq-round n m = elim (Bool-cases (states_eq (fire_round m).states m.states)) [
  | inl same ↦ rw same
  | inr other ↦ rw other (fire_loop_again n m)
]

pub fire-eq-round : (m : ConnectionState) → fire_state_triggered_transitions m ≡ fire_round m
unfolding fire_state_triggered_transitions
fire-eq-round m = fire_loop-eq-round 0 m

-- Whatever the joint state, the loop's result is the same with any bound of two rounds or more,
-- and it is a fixed point of the loop's body.
pub fire_loop_fixpoint :
    (n : ℕ) (m : ConnectionState)
    → (fire_loop (suc (suc n)) m ≡ fire_state_triggered_transitions m)
      × (fire_round (fire_loop (suc (suc n)) m) ≡ fire_loop (suc (suc n)) m)
fire_loop_fixpoint n m =
    (rw (fire_loop-eq-round n m, fire-eq-round m), rw (fire_loop-eq-round n m) (round-round m))
