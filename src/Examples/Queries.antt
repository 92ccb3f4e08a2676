-- ===== src/Examples/Queries.antt =====
-- A status query of an agent at a concrete session.
use vaultwarden_cli.Base.{ℕ, ◌*◌, ◌≤◌, ◌≡◌, refl, none, some, ok, arith, false, ◌∷◌, []}
use vaultwarden_cli.Application.Types.{Session}
use vaultwarden_cli.Application.Queries.{signed_agent_status}
use vaultwarden_cli.Application.Answered.{query-answers}
use vaultwarden_cli.Examples.Inputs.{toy_host, status_query}
use vaultwarden_cli.Examples.Agents.{waiting_state}
use vaultwarden_cli.Examples.Sessions.{world, locked_session}

-- The agent's request waits, in a session that is open for a minute.
abbrev session : Session
session = record locked_session {
  provider = record locked_session.provider {
    store = record locked_session.provider.store { durable = waiting_state };
    state = waiting_state;
  };
  deadline = some 60000000000;
  tokens = λ a. some false;
}

query-answers_example :
    ¬ ((signed_agent_status 700 (700 ∷ []) status_query world session).0 ≡ ok none)
query-answers_example =
    query-answers world (λ n. 1) (λ n. refl) (λ m n l. omega arith) (λ m n l. further m n l) 700
      (700 ∷ []) status_query session refl (omega arith)
  where
    further : (m n : ℕ) → m ≤ n → m * 1000000000 ≤ n * 1000000000
    further m n l = omega arith
