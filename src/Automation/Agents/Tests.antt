-- ===== src/Automation/Agents/Tests.antt =====
-- A fleet of one agent, with the identity for the hash.
use infra_inventory.Prelude.{◌≡◌, refl, false, some, [], ◌∷◌, String}
use infra_inventory.Automation.Agents.{
  AgentStatus, Agent, Fleet, accepted, token_revoked, answers_to, find_first, update, is_revoked,
  has_id, revoke_agent, check_agent, save_heartbeat, process_agent_heartbeat,
}
use infra_inventory.Automation.Agents.Revocation.{beats, step, run, revoke_agent-lasts}

abbrev hash : String → String
hash token = token

abbrev agent : AgentStatus → Agent
agent status = record {
  id = "1";
  agent_id = "AGT-1";
  hostname = "db1";
  allow_remote_execution = false;
  token_hash = "secret";
  status = status;
  last_seen_at = 0;
}

abbrev fleet : AgentStatus → Fleet
fleet status = record { agents = agent status ∷ []; heartbeats = [] }

unfolds : Unit {0}
unfolding answers_to find_first update is_revoked has_id revoke_agent check_agent save_heartbeat
    process_agent_heartbeat step run
unfolds = tt

heartbeat_accepted :
    (process_agent_heartbeat hash "AGT-1" "secret" 7 (fleet AgentStatus.online)).0 ≡ accepted
unfolding unfolds
heartbeat_accepted = refl

revoked_once : revoke_agent "1" (fleet AgentStatus.online) ≡ some (fleet AgentStatus.revoked)
unfolding unfolds
revoked_once = refl

still_found :
    find_first "AGT-1" (run hash (fleet AgentStatus.revoked) (beats "1" "secret" 5 ∷ [])).agents
    ≡ some (agent AgentStatus.revoked)
unfolding unfolds
still_found = refl

revoke_agent-lasts_example :
    process_agent_heartbeat hash "AGT-1" "secret" 7
      (run hash (fleet AgentStatus.revoked) (beats "1" "secret" 5 ∷ []))
    ≡ (token_revoked, run hash (fleet AgentStatus.revoked) (beats "1" "secret" 5 ∷ []))
revoke_agent-lasts_example =
    revoke_agent-lasts hash "1" "AGT-1" "secret" 7 (fleet AgentStatus.online)
      (fleet AgentStatus.revoked) (beats "1" "secret" 5 ∷ []) (agent AgentStatus.revoked)
      revoked_once (tt, tt) still_found refl
