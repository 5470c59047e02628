-- ===== src/Executor/Gate/Published.antt =====
-- The gate of apps/executor/src/settle.ts over the contract client of chain.ts and the registry that
-- registry.ts loads.
use aegis_phase.Prelude.{◌≡◌, ℕ, some, Text, Bytes}
use mathlib.Core.Path.{subst}
use aegis_phase.Prelude.Result.{Result, ok}
use aegis_phase.Canonical.Bytes.{from_hex}
use aegis_phase.Receipt.Json.{Json}
use aegis_phase.Gateway.Chain.Decisions.{Decision}
use aegis_phase.Executor.World.{ChainClient, Deps, World}
use aegis_phase.Executor.Gate.{Gated, gate}
use aegis_phase.Executor.Gate.Accepted.{gate-Accepted}
use aegis_phase.Executor.Chain.{View, Contract, connect, normalize}
use aegis_phase.Executor.Chain.Answers.{Answers, get_decision-Answers}
use aegis_phase.Executor.Registry.{load_registry}
use aegis_phase.Executor.Registry.Published.{Publishes, destination_for-IsPublished}

-- The decision is what a simulation of the contract returned, and the payee is the file's.
pub record Backed (contract : Contract) (file : Result Text Json) (id : Text) (g : Gated)
    : Type 0 where
  pub id_bytes : Bytes
  pub id_read : from_hex id ≡ ok id_bytes
  pub asked : ℕ
  pub view : View Decision
  pub value : Decision
  pub answered : contract.get_decision asked id_bytes ≡ ok view
  pub returned : view.result ≡ ok value
  pub same : g.decision ≡ normalize value
  pub published : Publishes file g.decision.service_id g.destination

-- With the contract's client and a loaded registry, a decision that passes the gate is what the
-- contract returned without an error for the id that was asked for, and it is paid to the account that
-- an active entry of the registry's file lists for its service.
pub gate-Backed :
    (d : Deps) (contract : Contract) (file : Result Text Json)
    → d.chain ≡ connect contract
    → load_registry file ≡ ok d.registry
    → (id : Text) (w : World d) (g : Gated) → (gate d id w).0 ≡ ok g
    → Backed contract file id g
unfolding connect
gate-Backed d contract file c l id w g h =
    let a = gate-Accepted d id w g h in
    let found =
      subst (λ (x : ChainClient). x.get_decision a.asked a.id_bytes ≡ ok (some g.decision)) c
        a.found in
    let (view, value, e, r, s) =
      subst (Answers (contract.get_decision a.asked a.id_bytes)) found
        (get_decision-Answers (contract.get_decision a.asked a.id_bytes)) in
    record {
      id_bytes = a.id_bytes;
      id_read = a.id_read;
      asked = a.asked;
      view = view;
      value = value;
      answered = e;
      returned = r;
      same = s;
      published =
          (destination_for-IsPublished file d.registry l g.decision.service_id g.destination).0
            a.judged.destination;
    }
