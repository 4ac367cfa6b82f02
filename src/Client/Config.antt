-- ===== src/Client/Config.antt =====
-- crates/core/src/client/config.rs: the configuration, from the environment. The environment is a
-- function from the names of the variables.
use Prim.Native.String
use kakarot_rpc_adapter.Prelude.{String, Option, some, ◌≡◌, ◌↔◌, refl}
use kakarot_rpc_adapter.Types.{FieldElement}
use kakarot_rpc_adapter.Outcome.{Outcome, ok, ok_or, ◌>>=◌, >>=-eq-ok, ok_or-eq-ok}
use kakarot_rpc_adapter.Crates.{Crates}

-- client/errors.rs
pub data ConfigError : Type 0 where
  environment_variable_missing : String → ConfigError
  environment_variable_set_wrong : String → ConfigError

pub record StarknetConfig : Type 0 where
  pub starknet_rpc : String
  pub kakarot_address : FieldElement
  pub proxy_account_class_hash : FieldElement

abbrev pub Environment : Type 0
Environment = String → Option String

unfoldable pub get_env_var : Environment → String → Outcome ConfigError String
get_env_var env name = ok_or (environment_variable_missing name) (env name)

module _ ⦃crates : Crates⦄ (env : Environment) where
  open crates use {felt_from_hex_be}

  -- A variable that is read as a field element.
  unfoldable pub hex_env_var : String → Outcome ConfigError FieldElement
  unfolding get_env_var
  hex_env_var name = do
    value ← get_env_var env name
    ok_or
        (environment_variable_set_wrong
          (String.◌++◌ name (String.◌++◌ " should be provided as a hex string, got " value)))
        (felt_from_hex_be value)

  unfoldable pub from_env : Outcome ConfigError StarknetConfig
  unfolding get_env_var
  from_env = do
    starknet_rpc_url ← get_env_var env "STARKNET_RPC_URL"
    kakarot_address ← hex_env_var "KAKAROT_ADDRESS"
    proxy_account_class_hash ← hex_env_var "PROXY_ACCOUNT_CLASS_HASH"
    ok (record {
      starknet_rpc = starknet_rpc_url;
      kakarot_address = kakarot_address;
      proxy_account_class_hash = proxy_account_class_hash;
    })

  -- A variable is set to a text that writes the field element.
  abbrev pub Writes : String → FieldElement → Type 0
  Writes name a = (value : String) × (env name ≡ some value) × (felt_from_hex_be value ≡ some a)

  hex_env_var_only : (name : String) (a : FieldElement) → hex_env_var name ≡ ok a → Writes name a
  unfolding hex_env_var get_env_var
  hex_env_var_only name a e =
      let (value, found, read) = >>=-eq-ok (get_env_var env name) _ e in
      (value, ok_or-eq-ok _ (env name) found, ok_or-eq-ok _ (felt_from_hex_be value) read)

  hex_env_var-Writes : (name : String) (a : FieldElement) → Writes name a → hex_env_var name ≡ ok a
  unfolding hex_env_var get_env_var
  hex_env_var-Writes name a (value, found, read) = rw (found, read)

  -- What the environment has to hold for a configuration.
  abbrev pub Configures : StarknetConfig → Type 0
  Configures config =
      (env "STARKNET_RPC_URL" ≡ some config.starknet_rpc)
      × Writes "KAKAROT_ADDRESS" config.kakarot_address
      × Writes "PROXY_ACCOUNT_CLASS_HASH" config.proxy_account_class_hash

  from_env_only : (config : StarknetConfig) → from_env ≡ ok config → Configures config
  unfolding from_env get_env_var
  from_env_only config e =
      let (url, found, rest) = >>=-eq-ok (get_env_var env "STARKNET_RPC_URL") _ e in
      let (address, address_read, rest) = >>=-eq-ok (hex_env_var "KAKAROT_ADDRESS") _ rest in
      let (class_hash, class_read, built) =
        >>=-eq-ok (hex_env_var "PROXY_ACCOUNT_CLASS_HASH") _ rest in
      let set = ok_or-eq-ok _ (env "STARKNET_RPC_URL") found in
      (
        cc (set, built),
        hex_env_var_only "KAKAROT_ADDRESS" config.kakarot_address (cc (address_read, built)),
        hex_env_var_only "PROXY_ACCOUNT_CLASS_HASH" config.proxy_account_class_hash
            (cc (class_read, built)),
      )

  from_env-Configures : (config : StarknetConfig) → Configures config → from_env ≡ ok config
  unfolding from_env get_env_var
  from_env-Configures config (url, address, class_hash) =
      rw
        (
          url,
          hex_env_var-Writes "KAKAROT_ADDRESS" config.kakarot_address address,
          hex_env_var-Writes "PROXY_ACCOUNT_CLASS_HASH" config.proxy_account_class_hash class_hash,
        )
        refl

  -- The environment gives a configuration exactly if the URL is set, and the two other variables
  -- are set to texts that write its field elements.
  pub from_env_iff : (config : StarknetConfig) → (from_env ≡ ok config) ↔ Configures config
  from_env_iff config = (from_env_only config, from_env-Configures config)
