-- ===== src/Automation/Agents/Revocation.antt =====
-- Who may send heartbeats, and that a revocation lasts.
use infra_inventory.Prelude.{
  ℕ, ◌≡◌, refl, sym, ap, subst, ◌∙◌, ◌≢◌, ◌⊎◌, inl, inr, true, false, Option, none, some, List, [],
  ◌∷◌, String, arith, str_eq, eq_iff, All, All-append, Bool-cases, Option-cases,
}
use infra_inventory.Automation.Agents.{
  Agent, Fleet, Answer, accepted, unregistered, token_revoked, invalid_token, answers_to,
  find_first, update, is_revoked, revoke, see, has_id, revoke_agent, Registration, new_agent,
  register_agent, check_agent, save_heartbeat, process_agent_heartbeat,
}

-- What happens to the fleet.
pub data Event : Type 0 where
  registers : (id token public_id : String) → Registration → (now : ℕ) → Event
  beats : (key token : String) (now : ℕ) → Event
  revokes : (id : String) → Event

-- A row under the id is revoked.
abbrev pub Dead : String → Agent → Type 0
Dead id a = a.id ≡ id → is_revoked a.status ≡ true

find_first-All :
    (P : Agent → Type 0) (key : String) (agents : List Agent) (a : Agent)
    → All P agents
    → find_first key agents ≡ some a
    → P a
unfolding find_first
find_first-All P key [] a h e = absurd cc
find_first-All P key (b ∷ agents) a h e = elim (Bool-cases (answers_to key b)) [
  | inl hit ↦ subst P (ground arith) h.0
  | inr miss ↦ find_first-All P key agents a h.1 (ground arith)
]

update-Dead :
    (id other : String) (f : Agent → Agent) (agents : List Agent)
    → ((a : Agent) → a.id ≡ other → Dead id a → Dead id (f a))
    → All (Dead id) agents
    → All (Dead id) (update f other agents)
unfolding update
update-Dead id other f [] keeps h = tt
update-Dead id other f (a ∷ agents) keeps h = elim (Bool-cases (str_eq a.id other)) [
  | inl hit ↦
      rw hit (keeps a ((eq_iff a.id other).0 hit) h.0, update-Dead id other f agents keeps h.1)
  | inr miss ↦ rw miss (h.0, update-Dead id other f agents keeps h.1)
]

revoke-Dead :
    (id other : String) (agents : List Agent)
    → All (Dead id) agents
    → All (Dead id) (update revoke other agents)
unfolding is_revoked
revoke-Dead id other agents h = update-Dead id other revoke agents (λ a e d k. refl) h

revoke-All : (id : String) (agents : List Agent) → All (Dead id) (update revoke id agents)
unfolding update is_revoked
revoke-All id [] = tt
revoke-All id (a ∷ agents) = elim (Bool-cases (str_eq a.id id)) [
  | inl hit ↦ rw hit ((λ k. refl), revoke-All id agents)
  | inr miss ↦ rw miss ((λ k. absurd (ground (arith, eq_iff a.id id))), revoke-All id agents)
]

revoke_agent-Dead :
    (id : String) (fleet revoked : Fleet)
    → revoke_agent id fleet ≡ some revoked
    → All (Dead id) revoked.agents
unfolding revoke_agent
revoke_agent-Dead id fleet revoked h = elim (Bool-cases (has_id id fleet.agents)) [
  | inl e ↦
      subst (λ (f : Fleet). All (Dead id) f.agents)
        {x = record fleet { agents = update revoke id fleet.agents }} {y = revoked} (ground arith)
        (revoke-All id fleet.agents)
  | inr e ↦ absurd (ground arith)
]

check_agent-accepted :
    (sha256 : String → String) (token : String) (a : Agent)
    → check_agent sha256 token (some a) ≡ accepted
    → is_revoked a.status ≡ false
unfolding check_agent
check_agent-accepted sha256 token a h = ground arith

-- The event does not create a row under the id.
abbrev pub Spares : String → Event → Type 0
Spares id (registers other token public_id info now) = other ≢ id
Spares id (beats key token now) = Unit
Spares id (revokes other) = Unit

-- A heartbeat that is accepted is not of the agent.
abbrev Other : String → Option Agent → Answer → Type 0
Other id o answer = answer ≡ accepted → (a : Agent) → o ≡ some a → a.id ≢ id

save_heartbeat-Dead :
    (id : String) (now : ℕ) (o : Option Agent) (answer : Answer) (fleet : Fleet)
    → Other id o answer
    → All (Dead id) fleet.agents
    → All (Dead id) (save_heartbeat now o answer fleet).agents
unfolding save_heartbeat
save_heartbeat-Dead id now (some a) accepted fleet other h =
    update-Dead id a.id (see now) fleet.agents
      (λ b same dead k. absurd (other refl a refl (sym same ∙ k))) h
save_heartbeat-Dead id now none answer fleet other h = h
save_heartbeat-Dead id now (some a) unregistered fleet other h = h
save_heartbeat-Dead id now (some a) token_revoked fleet other h = h
save_heartbeat-Dead id now (some a) invalid_token fleet other h = h

module _ (sha256 : String → String) where
  -- A revocation that throws changes nothing.
  abbrev revoked_or_same : Option Fleet → Fleet → Fleet
  revoked_or_same none fleet = fleet
  revoked_or_same (some revoked) fleet = revoked

  unfoldable pub step : Fleet → Event → Fleet
  step fleet (registers id token public_id info now) =
      register_agent sha256 id token public_id info now fleet
  step fleet (beats key token now) = (process_agent_heartbeat sha256 key token now fleet).1
  step fleet (revokes id) = revoked_or_same (revoke_agent id fleet) fleet

  unfoldable pub run : Fleet → List Event → Fleet
  run fleet [] = fleet
  run fleet (e ∷ es) = run (step fleet e) es

  found-Other :
      (id key token : String) (agents : List Agent)
      → All (Dead id) agents
      → Other id (find_first key agents) (check_agent sha256 token (find_first key agents))
  found-Other id key token agents h passed a found k = absurd (
      cc (
        find_first-All (Dead id) key agents a h found k,
        check_agent-accepted sha256 token a (ap (check_agent sha256 token) (sym found) ∙ passed),
      ))

  step-Dead :
      (id : String) (fleet : Fleet) (e : Event)
      → Spares id e
      → All (Dead id) fleet.agents
      → All (Dead id) (step fleet e).agents
  unfolding step register_agent process_agent_heartbeat revoke_agent new_agent
  step-Dead id fleet (registers other token public_id info now) sp h =
      All-append (Dead id) fleet.agents _ h ((λ e. absurd (sp e)), tt)
  step-Dead id fleet (beats key token now) sp h =
      save_heartbeat-Dead id now (find_first key fleet.agents) _ fleet
        (found-Other id key token fleet.agents h) h
  step-Dead id fleet (revokes other) sp h = elim (Bool-cases (has_id other fleet.agents)) [
    | inl e ↦ rw e (revoke-Dead id other fleet.agents h)
    | inr e ↦ rw e h
  ]

  run-Dead :
      (id : String) (fleet : Fleet) (es : List Event)
      → All (Spares id) es
      → All (Dead id) fleet.agents
      → All (Dead id) (run fleet es).agents
  unfolding run
  run-Dead id fleet [] sp h = h
  run-Dead id fleet (e ∷ es) sp h = run-Dead id (step fleet e) es sp.1 (step-Dead id fleet e sp.0 h)

  refused-revoked :
      (key token : String) (now : ℕ) (o : Option Agent) (a : Agent) (fleet : Fleet)
      → find_first key fleet.agents ≡ some a
      → is_revoked a.status ≡ true
      → process_agent_heartbeat sha256 key token now fleet ≡ (token_revoked, fleet)
  unfolding process_agent_heartbeat check_agent save_heartbeat
  refused-revoked key token now o a fleet found dead = rw found (rw dead refl)

  -- A revocation lasts: after `revokeAgent` of an id, whatever agents register (under other ids),
  -- send heartbeats or are revoked, every heartbeat that finds the agent, with any token, is refused
  -- because the agent is revoked, and changes nothing.
  pub revoke_agent-lasts :
      (id key token : String) (now : ℕ) (fleet revoked : Fleet) (es : List Event) (a : Agent)
      → revoke_agent id fleet ≡ some revoked
      → All (Spares id) es
      → find_first key (run revoked es).agents ≡ some a
      → a.id ≡ id
      → process_agent_heartbeat sha256 key token now (run revoked es)
        ≡ (token_revoked, run revoked es)
  revoke_agent-lasts id key token now fleet revoked es a gone sp found same =
      refused-revoked key token now none a (run revoked es) found (
        find_first-All (Dead id) key (run revoked es).agents a
          (run-Dead id revoked es sp (revoke_agent-Dead id fleet revoked gone)) found same)

  -- A heartbeat is accepted exactly when it finds an agent that is not revoked and whose hash is that
  -- of the token; it then marks the agents under that id as seen and records one heartbeat of it, and
  -- every refusal leaves the fleet as it was.
  pub process_agent_heartbeat-outcome :
      (key token : String) (now : ℕ) (fleet : Fleet)
      → let (answer, after) = process_agent_heartbeat sha256 key token now fleet in
        ((a : Agent) × (find_first key fleet.agents ≡ some a)
          × (is_revoked a.status ≡ false)
          × (a.token_hash ≡ sha256 token)
          × (answer ≡ accepted)
          × (after ≡ record {
            agents = update (see now) a.id fleet.agents;
            heartbeats = record { of_agent = a.id; created_at = now } ∷ fleet.heartbeats;
          }))
        ⊎ ((answer ≢ accepted)
            × (after ≡ fleet)
            × ((find_first key fleet.agents ≡ none)
                ⊎ ((a : Agent) × (find_first key fleet.agents ≡ some a)
                    × ((is_revoked a.status ≡ true) ⊎ (a.token_hash ≢ sha256 token)))))
  unfolding process_agent_heartbeat check_agent save_heartbeat
  process_agent_heartbeat-outcome key token now fleet =
      elim (Option-cases (find_first key fleet.agents)) [
        | inl e ↦ inr (rw e (λ k. absurd cc), rw e refl, inl e)
        | inr (a, e) ↦ elim (Bool-cases (is_revoked a.status)) [
          | inl dead ↦
              inr (rw e (rw dead (λ k. absurd cc)), rw e (rw dead refl), inr (a, e, inl dead))
          | inr alive ↦ elim (Bool-cases (str_eq a.token_hash (sha256 token))) [
            | inl same ↦ inl (
              a,
              e,
              alive,
              (eq_iff a.token_hash (sha256 token)).0 same,
              rw e (rw alive (rw same refl)),
              rw e (rw alive (rw same refl)),
            )
            | inr differs ↦ inr (
              rw e (rw alive (rw differs (λ k. absurd cc))),
              rw e (rw alive (rw differs refl)),
              inr (a, e, inr (λ k. ground (arith, eq_iff a.token_hash (sha256 token)))),
            )
          ]
        ]
      ]
