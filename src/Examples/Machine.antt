-- ===== src/Examples/Machine.antt =====
-- The theorems on `ConnectionState` (h11/_state.py) at concrete runs.
use h.Prelude.{◌≡◌, ◌≢◌, refl, ◌⊎◌, true, false, none, some, [], ◌∷◌}
use h.Prelude.Exec.{local_protocol_error, ok, err, assertion_error, ◌>>◌}
use h.State.Table.{
  client, server, get_state, send_body, send_response, must_close, error, switched_protocol,
  switch_upgrade, switch_connect, request, informational_response, response, data_event,
  end_of_message,
}
use h.State.Defs.{
  ConnectionState, initial, fire_round, fire_loop, fire_state_triggered_transitions, process_error,
  process_keep_alive_disabled, process_client_switch_proposal, take_event, process_event,
  start_next_cycle, no_proposals, has_proposal, Proposals,
}
use h.State.Fixpoint.{fire_loop_fixpoint}
use h.State.Reach.{
  on_keep_alive_disabled, on_error, on_proposal, on_event, Reach, here, call, next_cycle,
  start_next_cycle_asserts, switched_together,
}
use h.State.Phases.{error_is_final, never_reused}
use h.State.Switch.{
  IsSwitch, awaiting_switch, switch_needs_proposal, switch_moves_both, response_denies,
}
use h.State.Cycle.{
  run_events, both_done, by_client, by_server, client_ends, client_sends, server_ends, server_sends,
  server_responds, server_informs, cycle_completes,
}

abbrev both : Proposals
both = record { upgrade = true; connect = true }

-- A request was sent that proposes to upgrade.
abbrev proposed : ConnectionState
proposed =
    (process_event client request none (process_client_switch_proposal switch_upgrade initial)).1

abbrev ended : ConnectionState
ended = (process_event client end_of_message none proposed).1

abbrev switched : ConnectionState
switched = (process_event server informational_response (some switch_upgrade) ended).1

to_ended : Reach initial ended
to_ended =
    call (call (call here (on_proposal switch_upgrade)) (on_event client request none))
      (on_event client end_of_message none)

to_switched : Reach initial switched
to_switched = call to_ended (on_event server informational_response (some switch_upgrade))

fire_loop_fixpoint_example :
    (fire_loop 5 (awaiting_switch false no_proposals)
      ≡ fire_state_triggered_transitions (awaiting_switch false no_proposals))
    × (fire_round (fire_loop 5 (awaiting_switch false no_proposals))
        ≡ fire_loop 5 (awaiting_switch false no_proposals))
fire_loop_fixpoint_example = fire_loop_fixpoint 3 (awaiting_switch false no_proposals)

start_next_cycle_asserts_example : (start_next_cycle switched).0 ≢ err assertion_error
start_next_cycle_asserts_example = start_next_cycle_asserts switched to_switched

client_switched : switched.states.of_client ≡ switched_protocol
unfolding process_event take_event fire_loop fire_round process_client_switch_proposal initial
    fire_state_triggered_transitions
client_switched = refl

switched_together_example :
    (switched.states.of_server ≡ switched_protocol) ⊎ (switched.states.of_server ≡ error)
switched_together_example = switched_together switched to_switched client_switched

abbrev failed : ConnectionState
failed = process_error server (process_keep_alive_disabled ended)

abbrev failed_later : ConnectionState
failed_later = (start_next_cycle (process_event client data_event none failed).1).1

to_failed_later : Reach failed failed_later
to_failed_later = next_cycle (call here (on_event client data_event none))

server_failed : get_state failed.states server ≡ error
unfolding process_error process_keep_alive_disabled process_event take_event fire_loop fire_round
    process_client_switch_proposal initial fire_state_triggered_transitions
server_failed = refl

error_is_final_example : get_state failed_later.states server ≡ error
error_is_final_example = error_is_final server to_failed_later server_failed

not_kept : failed.keep_alive ≡ false
unfolding process_error process_keep_alive_disabled process_event take_event fire_loop fire_round
    process_client_switch_proposal initial fire_state_triggered_transitions
not_kept = refl

to_failed : Reach initial failed
to_failed = call (call to_ended on_keep_alive_disabled) (on_error server)

never_reused_example :
    start_next_cycle failed_later ≡ (err (local_protocol_error 400), failed_later)
never_reused_example = never_reused to_failed not_kept to_failed_later

upgrade_accepted :
    (process_event server informational_response
      (some switch_upgrade)
      (awaiting_switch true both)).0
    ≡ ok tt
unfolding process_event take_event fire_loop fire_round
upgrade_accepted = refl

switch_needs_proposal_example :
    IsSwitch informational_response switch_upgrade
    × (has_proposal both switch_upgrade ≡ true)
    × (send_response ≡ send_response)
switch_needs_proposal_example =
    switch_needs_proposal informational_response switch_upgrade (awaiting_switch true both)
      upgrade_accepted

switch_moves_both_example :
    process_event server response (some switch_connect) (awaiting_switch true both) ≡ (
      ok tt,
      record {
        keep_alive = true;
        pending_switch_proposals = both;
        states = record { of_client = switched_protocol; of_server = switched_protocol };
      },
    )
switch_moves_both_example = switch_moves_both response switch_connect true both tt refl

response_denies_example : process_event server response none (awaiting_switch false both) ≡ (
  ok tt,
  record {
    keep_alive = false;
    pending_switch_proposals = no_proposals;
    states = record { of_client = must_close; of_server = send_body };
  },
)
response_denies_example = response_denies false both

-- The response begins before the request's body has ended.
cycle_completes_example :
    (run_events (
          (client, request)
          ∷ (server, informational_response)
          ∷ (client, data_event)
          ∷ (server, response)
          ∷ (server, data_event)
          ∷ (client, end_of_message)
          ∷ (server, end_of_message)
          ∷ [])
        >> start_next_cycle)
      initial
    ≡ (ok tt, initial)
cycle_completes_example =
    cycle_completes
      (by_server (by_client (by_server (by_server (by_client (by_server both_done))))))
      (client_sends client_ends) (server_informs (server_responds (server_sends server_ends)))
