-- ===== src/Tests.antt =====
-- The services run on the sample database, and the theorems applied to it.
pub mod Relays
pub mod Decisions
pub mod Dispatch
pub mod Permissions
pub mod Pools
pub mod Phases
pub mod Policies
pub mod Credentials
pub mod Access
pub mod Threads
use codex_collaboration_coor.Exec.{Exec, Outcome, ◌>>=◌, catch}
use codex_collaboration_coor.Store.{World}
use codex_collaboration_coor.Store.Env.{utc_now, new_id, call_bridge, text_of, unwrap_result}
use codex_collaboration_coor.Store.Table.{get, create, update}
use codex_collaboration_coor.Store.Table.Rows.{find_row, has_row, replace_row, order_by}
use codex_collaboration_coor.Store.Repositories.{
  list_jobs, list_jobs_by_agent, list_runtimes, list_edges_by_session, list_active_rules,
}
use codex_collaboration_coor.Events.{record_session_event, record_job_event}
use codex_collaboration_coor.Runtimes.{get_latest_runtime_for_agent, latest, latest_from}
use codex_collaboration_coor.Threads.{
  get_thread, find_thread, put_thread, upsert, start_thread, resume_thread, reuse_or_start,
  get_or_create_thread, extract_thread_id,
}
use codex_collaboration_coor.LoopGuard.{decide, evaluate, pause_job, get_session}
use codex_collaboration_coor.Artifacts.{
  create_artifacts_from_turn, create_artifact, create_files, file_fields, bundle_of, first_text,
  extract_text,
}
use codex_collaboration_coor.Common.Text.{strip}
use codex_collaboration_coor.Approvals.{
  create_request, with_metadata, get_job, get_approval, update_job_for_decision, decided_job,
  resolve_pending, resolve, accept, decline,
}
use codex_collaboration_coor.Relay.Turn.{
  extract_text as turn_text, extract_turn_id, turn_status_of, status_of_turn, job_after_turn,
  start_turn,
}
use codex_collaboration_coor.Relay.Publish.{
  publish_turn, publish_output_message, record_relay_edge, request_approval,
}
use codex_collaboration_coor.Relay.Commands.{
  get_agent, thread_of_job, own_or_mapped, interrupt_job, interrupt_turn, already_interrupted,
  compact_job,
}
use codex_collaboration_coor.Relay.Execute.{execute_job, run_turn, pause_relay}
use codex_collaboration_coor.Rules.{resolve_job_dispatch}
use codex_collaboration_coor.Rules.Dispatch.{evaluate_rules, dispatch_loop, redirect}
use codex_collaboration_coor.Rules.Matching.{matches_rule, meets, parse_json}
use codex_collaboration_coor.Queue.{
  schedule_job, retry_job, resume_job, dispatch_now, block_job, move_channel, record_input,
  is_agent_dispatchable, relay_all, dispatch_pending_for_agent,
}
use codex_collaboration_coor.Store.Repositories.Pools.{
  get_by_job, list_contexts, list_runtime_pools,
}
use codex_collaboration_coor.WorkContexts.{
  write_context, create_or_update_context, recover_context, resolve_runtime, choose_runtime, rebind,
  rebound, build_workspace_path,
}
use codex_collaboration_coor.Pools.Select.{
  list_pools, select_pool, select_loop, one_round, next_choice, first_choice, pool_with_key,
  default_pool, fall_back, pool_supports_capabilities, pool_is_at_capacity, active_contexts,
  parse_metadata, parse_string_list, record_to_definition,
}
use codex_collaboration_coor.Pools.Assign.{
  plan_assignment, plan_with, choose_pool, build_pool_path, context_status_of, parse_capabilities,
  normalize_capabilities, assign_work_context_for_job, create_pool, get_pool, new_pool,
  refused_arguments, ensure_fallback,
}
use codex_collaboration_coor.Store.Repositories.Phases.{
  list_phases_by_session, get_by_session_and_key, get_run_by_session,
}
use codex_collaboration_coor.Phases.{
  ensure_default_phases, seed_presets, create_preset, preset_row, get_active_phase, default_phase,
  active_or_default, phase_with_id, list_phases, activate_phase, activate_phase_by_key,
  activate_phase_by_id,
}
use codex_collaboration_coor.Orchestration.{
  start_run, create_or_restart, fresh_run, restarted_run, record_gate_request, requested_run,
  matches_pending_gate, record_gate_resolution, resolved_run, matches_resolved_gate,
}
use codex_collaboration_coor.Orchestration.Laws.{after_call, after_calls}
use codex_collaboration_coor.Store.Repositories.Policies.{list_policies}
use codex_collaboration_coor.Policies.{
  create_policy, new_policy, get_policy, set_active, decision_row, announce, record_decision,
  pause_automation, resume_automation,
}
use codex_collaboration_coor.Policies.Matching.{
  matches_policy, matches_conditions, matches_expected, matches_fields, resolve_decision,
  resolve_reason,
}
use codex_collaboration_coor.Policies.Gates.{
  decide_first, evaluate_policies, evaluate_approval_gate, evaluate_review_gate, approval_context,
  review_context,
}
use codex_collaboration_coor.Policies.Laws.{verdict_of}

-- Runs an action, with everything that it calls open.
unfoldable pub result : {A : Type 0} → Exec World A → World → Outcome A × World
unfolding ◌>>=◌ catch utc_now new_id call_bridge text_of unwrap_result get create update find_row
    has_row replace_row order_by list_jobs list_jobs_by_agent list_runtimes list_edges_by_session
    list_active_rules record_session_event record_job_event get_latest_runtime_for_agent latest
    latest_from get_thread find_thread put_thread upsert start_thread resume_thread reuse_or_start
    get_or_create_thread extract_thread_id decide evaluate pause_job get_session
    create_artifacts_from_turn create_artifact create_files file_fields bundle_of first_text
    create_request with_metadata get_job get_approval update_job_for_decision decided_job
    resolve_pending resolve accept decline extract_text turn_text strip extract_turn_id
    turn_status_of status_of_turn job_after_turn start_turn publish_turn publish_output_message
    record_relay_edge request_approval get_agent thread_of_job own_or_mapped interrupt_job
    interrupt_turn already_interrupted compact_job execute_job run_turn pause_relay
    resolve_job_dispatch evaluate_rules dispatch_loop redirect matches_rule meets parse_json
    schedule_job retry_job resume_job dispatch_now block_job move_channel record_input
    is_agent_dispatchable relay_all dispatch_pending_for_agent get_by_job list_contexts
    list_runtime_pools write_context create_or_update_context recover_context resolve_runtime
    choose_runtime rebind rebound build_workspace_path list_pools select_pool select_loop one_round
    next_choice first_choice pool_with_key default_pool fall_back pool_supports_capabilities
    pool_is_at_capacity active_contexts parse_metadata parse_string_list record_to_definition
    plan_assignment plan_with choose_pool build_pool_path context_status_of parse_capabilities
    normalize_capabilities assign_work_context_for_job create_pool get_pool new_pool
    refused_arguments ensure_fallback list_phases_by_session get_by_session_and_key
    get_run_by_session ensure_default_phases seed_presets create_preset preset_row get_active_phase
    default_phase active_or_default phase_with_id list_phases activate_phase activate_phase_by_key
    activate_phase_by_id start_run create_or_restart fresh_run restarted_run record_gate_request
    requested_run matches_pending_gate record_gate_resolution resolved_run matches_resolved_gate
    after_call after_calls list_policies create_policy new_policy get_policy set_active decision_row
    announce record_decision pause_automation resume_automation matches_policy matches_conditions
    matches_expected matches_fields resolve_decision resolve_reason decide_first evaluate_policies
    evaluate_approval_gate evaluate_review_gate approval_context review_context verdict_of
result m w = m w
