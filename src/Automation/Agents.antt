-- ===== src/Automation/Agents.antt =====
-- The agents: `registerAgent`, `processAgentHeartbeat` and `revokeAgent` of
-- backend/src/modules/automation/automation.service.ts. The hash and the ids and tokens that `crypto`
-- draws are parameters. The table is the list of its rows in the order of `findFirst`.
pub mod Revocation
mod Tests
use infra_inventory.Prelude.{
  ℕ, Bool, true, false, ◌||◌, Option, none, some, List, [], ◌∷◌, ◌++◌, String, str_eq,
  if◌then◌else◌,
}

pub data AgentStatus : Type 0 where
  online offline warning revoked : AgentStatus

-- The columns of Agent that decide.
pub record Agent : Type 0 where
  pub id : String
  pub agent_id : String
  pub hostname : String
  pub allow_remote_execution : Bool
  pub token_hash : String
  pub status : AgentStatus
  pub last_seen_at : ℕ

-- The columns of AgentHeartbeat, without the readings that are copied from the message.
pub record Heartbeat : Type 0 where
  pub of_agent : String
  pub created_at : ℕ

pub record Fleet : Type 0 where
  pub agents : List Agent
  -- newest first
  pub heartbeats : List Heartbeat

pub data Answer : Type 0 where
  accepted : Answer
  unregistered : Answer
  token_revoked : Answer
  invalid_token : Answer

-- `OR: [{ id: agentId }, { agentId: agentId }]`.
pub answers_to : String → Agent → Bool
answers_to key a = str_eq a.id key || str_eq a.agent_id key

pub find_first : String → List Agent → Option Agent
find_first key [] = none
find_first key (a ∷ agents) = if answers_to key a then some a else find_first key agents

-- `update({ where: { id } })`; the id is the primary key.
pub update : (Agent → Agent) → String → List Agent → List Agent
update f id [] = []
update f id (a ∷ agents) = (if str_eq a.id id then f a else a) ∷ update f id agents

pub is_revoked : AgentStatus → Bool
is_revoked AgentStatus.revoked = true
is_revoked _ = false

abbrev pub revoke : Agent → Agent
revoke a = record a { status = AgentStatus.revoked }

abbrev pub see : ℕ → Agent → Agent
see now a = record a { status = AgentStatus.online; last_seen_at = now }

pub has_id : String → List Agent → Bool
has_id id [] = false
has_id id (a ∷ agents) = str_eq a.id id || has_id id agents

-- `update` throws when no row has the id.
pub revoke_agent : String → Fleet → Option Fleet
revoke_agent id fleet =
    if has_id id fleet.agents
    then some (record fleet { agents = update revoke id fleet.agents })
    else none

pub record Registration : Type 0 where
  pub hostname : String
  pub allow_remote_execution : Bool

-- The rest of the handler, on the agent found and the outcome of its checks.
pub save_heartbeat : ℕ → Option Agent → Answer → Fleet → Fleet
save_heartbeat now (some a) accepted fleet = record {
  agents = update (see now) a.id fleet.agents;
  heartbeats = record { of_agent = a.id; created_at = now } ∷ fleet.heartbeats;
}
save_heartbeat now o answer fleet = fleet

module _ (sha256 : String → String) where
  -- `id`, `token` and `public_id` are what the database and `crypto` draw.
  pub new_agent : String → String → String → Registration → ℕ → Agent
  new_agent id token public_id info now = record {
    id = id;
    agent_id = public_id;
    hostname = info.hostname;
    allow_remote_execution = info.allow_remote_execution;
    token_hash = sha256 token;
    status = AgentStatus.online;
    last_seen_at = now;
  }

  pub register_agent : String → String → String → Registration → ℕ → Fleet → Fleet
  register_agent id token public_id info now fleet = record fleet {
    agents = fleet.agents ++ (new_agent id token public_id info now ∷ []);
  }

  -- The checks of a heartbeat, on the agent found.
  pub check_agent : String → Option Agent → Answer
  check_agent token none = unregistered
  check_agent token (some a) =
      if is_revoked a.status
      then token_revoked
      else if str_eq a.token_hash (sha256 token)
      then accepted
      else invalid_token

  pub process_agent_heartbeat : String → String → ℕ → Fleet → Answer × Fleet
  process_agent_heartbeat key token now fleet =
      let found = find_first key fleet.agents in
      let answer = check_agent token found in (answer, save_heartbeat now found answer fleet)
