-- ===== src/Executor/Config.antt =====
-- `loadConfig` of apps/executor/src/config.ts. The environment, `Number`, `Keypair.fromSecret` and
-- `resolve` are parameters; of a key pair the model keeps the public key.
use aegis_phase.Prelude.{
  ◌≡◌, ◌≤◌, ℕ, not, ◌&&◌, ◌||◌, Option, none, some, [], ◌∷◌, Text, codes, if◌then◌else◌, ltb, arith,
}
use aegis_phase.Prelude.Result.{Result, ok, err, ◌>>=◌, ◌>>◌, throw_if, ok-injective, >>=-eq-ok}
use mathlib.Core.Path.{subst}
use aegis_phase.Canonical.Amount.{trim}
use aegis_phase.Receipt.Validate.{is_strkey, starts_with}
use aegis_phase.Executor.Errors.{Thrown, settlement, config_invalid}
use aegis_phase.Executor.World.{ExecutorConfig}

-- `number` is an integer that is not negative, where `Number` gives one; a negative one is refused
-- like no integer.
pub record Environment : Type 0 where
  pub variable : Text → Option Text
  pub number : Text → Option ℕ
  pub public_key : Text → Option Text
  pub resolved : Text → Text

pub record LoadedConfig : Type 0 where
  pub config : ExecutorConfig
  pub operator : Text
  pub registry_path : Text
  pub database_path : Text

abbrev pub misconfigured : Thrown
misconfigured = settlement config_invalid

abbrev pub trimmed : Option Text → Text
trimmed none = []
trimmed (some value) = trim value

-- Whatever is left of a value without the white space around it, unless that is nothing.
abbrev pub present : Text → Result Thrown Text
present [] = err misconfigured
present (c ∷ s) = ok (c ∷ s)

-- `||`.
abbrev pub or_default : Text → Text → Text
or_default [] fallback = fallback
or_default (c ∷ s) fallback = c ∷ s

abbrev pub key_of : Option Text → Result Thrown Text
key_of none = err misconfigured
key_of (some key) = ok key

abbrev pub in_range : Option ℕ → Result Thrown ℕ
in_range none = err misconfigured
in_range (some n) = if ltb n 30 || ltb 3600 n then err misconfigured else ok n

module _ (env : Environment) where
  abbrev pub value_of : Text → Text
  value_of key = trimmed (env.variable key)

  -- `requireEnv`.
  abbrev pub require_env : Text → Result Thrown Text
  require_env key = present (value_of key)

  -- `keypair`.
  abbrev pub keypair : Text → Result Thrown Text
  keypair key = do secret ← require_env key; key_of (env.public_key secret)

  abbrev pub timeout_of : Text → Result Thrown ℕ
  timeout_of [] = in_range (some 180)
  timeout_of (c ∷ s) = in_range (env.number (c ∷ s))

  unfoldable pub load_config : Result Thrown LoadedConfig
  unfolding is_strkey starts_with trim
  load_config = do
    contract_id ← require_env (codes "CONTRACT_ID")
    throw_if (not (is_strkey contract_id && starts_with b'C' contract_id)) misconfigured
    timeout_seconds ← timeout_of (value_of (codes "SETTLEMENT_TIMEOUT_SECONDS"))
    network_passphrase ← require_env (codes "STELLAR_NETWORK_PASSPHRASE")
    executor ← keypair (codes "EXECUTOR_SECRET")
    operator ← keypair (codes "OPERATOR_SECRET")
    ok record {
      config = record {
        network_passphrase = network_passphrase;
        rpc_url =
            or_default (value_of (codes "STELLAR_RPC_URL"))
              (codes "https://soroban-testnet.stellar.org");
        horizon_url =
            or_default (value_of (codes "HORIZON_URL"))
              (codes "https://horizon-testnet.stellar.org");
        contract_id = contract_id;
        executor = executor;
        timeout_seconds = timeout_seconds;
      };
      operator = operator;
      registry_path =
          env.resolved
            (or_default (value_of (codes "SERVICE_REGISTRY_PATH")) (codes "services.json"));
      database_path = env.resolved (
          or_default (value_of (codes "EXECUTOR_DB_PATH"))
            (codes "apps/executor/.data/settlements.db"));
    }

  range-bounds : (o : Option ℕ) {n : ℕ} → in_range o ≡ ok n → (30 ≤ n) × (n ≤ 3600)
  range-bounds none e = cc
  range-bounds (some m) e = ground arith

  timeout-bounds : (s : Text) {n : ℕ} → timeout_of s ≡ ok n → (30 ≤ n) × (n ≤ 3600)
  timeout-bounds [] e = range-bounds (some 180) e
  timeout-bounds (c ∷ s) e = range-bounds (env.number (c ∷ s)) e

  -- A loaded configuration has a timeout between half a minute and an hour.
  pub load_config-bounds :
      (c : LoadedConfig)
      → load_config ≡ ok c
      → (30 ≤ c.config.timeout_seconds) × (c.config.timeout_seconds ≤ 3600)
  unfolding load_config
  load_config-bounds c h =
      let (contract_id, a, h1) = >>=-eq-ok (require_env (codes "CONTRACT_ID")) _ h in
      let (u, b, h2) =
        >>=-eq-ok
          (throw_if (not (is_strkey contract_id && starts_with b'C' contract_id)) misconfigured) _
          h1 in
      let (seconds, d, h3) =
        >>=-eq-ok (timeout_of (value_of (codes "SETTLEMENT_TIMEOUT_SECONDS"))) _ h2 in
      let (passphrase, e, h4) = >>=-eq-ok (require_env (codes "STELLAR_NETWORK_PASSPHRASE")) _ h3 in
      let (executor, f, h5) = >>=-eq-ok (keypair (codes "EXECUTOR_SECRET")) _ h4 in
      let (operator, g, h6) = >>=-eq-ok (keypair (codes "OPERATOR_SECRET")) _ h5 in
      subst
        (λ (x : LoadedConfig). (30 ≤ x.config.timeout_seconds) × (x.config.timeout_seconds ≤ 3600))
        (ok-injective h6) (timeout-bounds (value_of (codes "SETTLEMENT_TIMEOUT_SECONDS")) d)
