-- ===== src/Connection/NextCycle.antt =====
-- `Connection.start_next_cycle` (h11/_connection.py), for a connection between two calls.
use h.Prelude.{◌≡◌, ◌≢◌, refl, sym, ap, subst, ◌⊎◌, inl, inr, Bool, true, false, not, none, arith}
use h.Prelude.Exec.{
  Result, ok, err, Exec, continue, modify, gets, assert, ◌>>=◌, ◌>>◌, local_protocol_error,
}
use h.State.Table.{Role, client, server, States, get_state, idle, done, send_body}
use h.State.Defs.{ConnectionState, start_next_cycle}
use h.State.Invariant.{IsSound, start_next_cycle-IsSound}
use h.Connection.Defs.{Connection, their_role, respond_to_state_changes, start_next_cycle_of}
use h.Connection.Kept.{respond-Kept}
use h.Connection.Waiting.{Held}
use h.Connection.Healthy.{Healthy, respond-Preserves}

-- The two ways that the state machine takes it.
pub machine_cycles :
    (m : ConnectionState)
    → IsSound m
    → (start_next_cycle m ≡ (err (local_protocol_error 400), m))
      ⊎ ((start_next_cycle m
            ≡ (ok tt, record m { states = record { of_client = idle; of_server = idle } }))
          × (m.states.of_client ≡ done))
unfolding start_next_cycle
machine_cycles m i = ground arith

pub done-Held : (w : Bool) (m : ConnectionState) → m.states.of_client ≡ done → Held w m → w ≡ false
done-Held true m d h = absurd (ground arith)
done-Held false m d h = refl

pub asserted :
    (w : Bool) (f : Exec Connection (Unit {0})) (c : Connection)
    → w ≡ false
    → (assert (not w) >> f) c ≡ f c
asserted true f c h = cc
asserted false f c h = refl

-- A call that returns, or raises a LocalProtocolError.
pub record Cycled (p : Result (Unit {0}) × Connection) : Type 0 where
  pub outcome : (p.0 ≡ ok tt) ⊎ (p.0 ≡ err (local_protocol_error 400))
  pub healthy : Healthy p.1

pub both_idle : (r : Role) → get_state (record { of_client = idle; of_server = idle }) r ≢ send_body
both_idle client e = cc
both_idle server e = cc

respond-Cycled :
    (old : States) (c : Connection)
    → c.cstate.states ≡ record { of_client = idle; of_server = idle }
    → Healthy c
    → Cycled (respond_to_state_changes old none c)
respond-Cycled old c e i = record {
  outcome =
      inl
        (respond-Kept old c (inr (rw e (both_idle c.our_role)))
          (inr (rw e (both_idle (their_role c))))).returned;
  healthy = respond-Preserves old none c i;
}

-- What follows the state machine.
abbrev pub after_machine : States → Exec Connection (Unit {0})
after_machine old = do
  modify (λ c. record c { request_method = none })
  waiting ← gets (λ c. c.client_is_waiting_for_100_continue)
  assert (not waiting)
  respond_to_state_changes old none

continued-Cycled :
    (old : States) (c : Connection) (p : Result (Unit {0}) × ConnectionState)
    → Healthy c
    → IsSound p.1
    → (p ≡ (err (local_protocol_error 400), c.cstate))
      ⊎ ((p ≡ (ok tt, record (c.cstate) { states = record { of_client = idle; of_server = idle } }))
          × (c.cstate.states.of_client ≡ done))
    → Cycled (continue p.0 (λ _. after_machine old) (record c { cstate = p.1 }))
continued-Cycled old c p i s (inl e) = rw e (record { outcome = inr refl; healthy = i })
continued-Cycled old c p i s (inr (e, d)) =
    let c' : Connection = record c { cstate = p.1; request_method = none } in
    let w = done-Held c.client_is_waiting_for_100_continue c.cstate d i.1 in
    let healthy : Healthy c' = (s, λ t. absurd (cc (w, t))) in
    let k = respond-Cycled old c' (ap (λ q. q.1.states) e) healthy in
    rw (ap (λ q. q.0) e) (
      subst Cycled
        (sym
          (asserted c.client_is_waiting_for_100_continue (respond_to_state_changes old none) c' w))
        k)

pub start_next_cycle-Cycled : (c : Connection) → Healthy c → Cycled (start_next_cycle_of c)
unfolding start_next_cycle_of
start_next_cycle-Cycled c i =
    continued-Cycled c.cstate.states c (start_next_cycle c.cstate) i
      (start_next_cycle-IsSound c.cstate i.0) (machine_cycles c.cstate i.0)
