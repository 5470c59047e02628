-- ===== src/Gateway/Registry.antt =====
-- apps/gateway/src/registry.ts: the published tables of agents, assets and services.
use aegis_phase.Prelude.{ℕ, Bool, not, Option, List, [], ◌∷◌, Text, codes, text_eq}
use aegis_phase.Prelude.Result.{Result, ok, ◌>>◌, throw_if}
use aegis_phase.Gateway.Store.Degraded.{map_get, map_set}

pub record AgentRow : Type 0 where
  pub agent_id : Text
  pub address : Text
  pub active : Bool

pub record AssetRow : Type 0 where
  pub asset : Text
  pub sac : Text
  pub policy_asset : Bool

pub record ServiceRow : Type 0 where
  pub service_id : Text
  pub destination : Text
  pub active : Bool

pub record Registry : Type 0 where
  pub registry_version : ℕ
  pub agents : List (Text × AgentRow)
  pub assets : List (Text × AssetRow)
  pub services : List (Text × ServiceRow)

-- The parsed files, with the contract that each is pinned to.
pub record RegistryFile : Type 0 where
  pub registry_version : ℕ
  pub contract_id : Text
  pub agents : List AgentRow
  pub assets : List AssetRow

pub record ServicesFile : Type 0 where
  pub contract_id : Text
  pub services : List ServiceRow

-- The file that is pinned to another contract.
pub data PinError : Type 0 where
  pinned_elsewhere : Text → Text → PinError

-- `new Map(rows.map(…))`: a later row replaces an earlier one with its key.
unfoldable pub indexed : {A : Type 0} → (A → Text) → List (Text × A) → List A → List (Text × A)
unfolding map_set
indexed key_of m [] = m
indexed key_of m (row ∷ rows) = indexed key_of (map_set m (key_of row) row) rows

-- `Registry.load`, after the two files are parsed.
unfoldable pub load : RegistryFile → ServicesFile → Text → Result PinError Registry
unfolding indexed
load registry services contract_id = do
  throw_if (not (text_eq registry.contract_id contract_id))
      (pinned_elsewhere (codes "registry.json") registry.contract_id)
  throw_if (not (text_eq services.contract_id contract_id))
      (pinned_elsewhere (codes "services.json") services.contract_id)
  ok record {
    registry_version = registry.registry_version;
    agents = indexed (λ (a : AgentRow). a.agent_id) [] registry.agents;
    assets = indexed (λ (a : AssetRow). a.asset) [] registry.assets;
    services = indexed (λ (s : ServiceRow). s.service_id) [] services.services;
  }

unfoldable pub agent : Registry → Text → Option AgentRow
unfolding map_get
agent r agent_id = map_get r.agents agent_id

unfoldable pub asset : Registry → Text → Option AssetRow
unfolding map_get
asset r name = map_get r.assets name

unfoldable pub service : Registry → Text → Option ServiceRow
unfolding map_get
service r service_id = map_get r.services service_id
