-- ===== src/Startup.antt =====
-- crates/eth-rpc/src/{config,lib,main}.rs, and `KakarotClient::new` of crates/core/src/client/mod.rs:
-- from the environment to a server that runs. What the crates do for it is a parameter.
use kakarot_rpc_adapter.Prelude.{String, ◌⊎◌}
use kakarot_rpc_adapter.Errors.Codes.{ErrorObject}
use kakarot_rpc_adapter.Outcome.{Outcome, ok, map_err, ok_or, of_result, ◌>>=◌}
use kakarot_rpc_adapter.Crates.{Crates}
use kakarot_rpc_adapter.Async.{Async}
use kakarot_rpc_adapter.Client.Api.{KakarotProvider}
use kakarot_rpc_adapter.Client.Config
use kakarot_rpc_adapter.Client.Config.{StarknetConfig, ConfigError, Environment}
use kakarot_rpc_adapter.Client.Contracts.{KakarotClient}
use kakarot_rpc_adapter.Client.Provider.{kakarot_provider}
use kakarot_rpc_adapter.Server.{Method, JsonTypes, Params, Response, serve}

-- The methods that a server offers, as `into_rpc` of the trait EthApiServer makes them.
abbrev pub RpcModule : JsonTypes → Type 0
RpcModule types = (m : Method) → Params types m → Async ErrorObject (Response types m)

-- The crates url, std::net, jsonrpsee and tracing_subscriber.
pub record Host (types : JsonTypes) : Type 1 where
  pub Url : Type 0
  pub UrlError : Type 0
  pub SocketAddr : Type 0
  pub AddrParseError : Type 0
  pub HttpServer : Type 0
  pub ServerHandle : Type 0
  pub JsonRpcError : Type 0
  pub FilterError : Type 0
  pub parse_url : String → UrlError ⊎ Url
  pub parse_socket_addr : String → AddrParseError ⊎ SocketAddr
  pub build : SocketAddr → JsonRpcError ⊎ HttpServer
  pub local_addr : HttpServer → JsonRpcError ⊎ SocketAddr
  pub start : HttpServer → RpcModule types → JsonRpcError ⊎ ServerHandle
  -- The filter and the subscriber of the traces.
  pub init_tracing : ◌⊎◌ {0, 0} FilterError Unit

-- config.rs
pub record RpcConfig : Type 0 where
  pub socket_addr : String

module _ {types : JsonTypes} (host : Host types) where
  -- lib.rs
  pub data RpcError : Type 0 where
    json_rpc_server_error : host.JsonRpcError → RpcError
    parse_error : host.AddrParseError → RpcError

  -- What `eyre` wraps in `main`.
  pub data Report : Type 0 where
    filter_error : host.FilterError → Report
    config_error : ConfigError → Report
    missing_variable : String → Report
    url_error : host.UrlError → Report
    rpc_error : RpcError → Report

  unfoldable pub new_rpc_config : String → RpcConfig
  new_rpc_config socket_addr = record { socket_addr = socket_addr }

  unfoldable pub rpc_config_from_env : Environment → Outcome Report RpcConfig
  unfolding new_rpc_config
  rpc_config_from_env env = do
    socket_addr ←
        ok_or (missing_variable "Missing mandatory environment variable: KAKAROT_HTTP_RPC_ADDRESS")
          (env "KAKAROT_HTTP_RPC_ADDRESS")
    ok (new_rpc_config socket_addr)

  -- The client, and the URL that its provider asks.
  unfoldable pub new_client : StarknetConfig → Outcome Report (host.Url × KakarotClient)
  new_client starknet_config = do
    url ← map_err url_error (of_result (host.parse_url starknet_config.starknet_rpc))
    ok (
      url,
      record {
        kakarot_address = starknet_config.kakarot_address;
        proxy_account_class_hash = starknet_config.proxy_account_class_hash;
      },
    )

  module _ ⦃crates : Crates⦄ where
    unfoldable pub run_server :
        KakarotProvider → RpcConfig → Outcome RpcError (host.SocketAddr × host.ServerHandle)
    run_server starknet_client rpc_config = do
      socket_addr ← map_err parse_error (of_result (host.parse_socket_addr rpc_config.socket_addr))
      server ← map_err json_rpc_server_error (of_result (host.build socket_addr))
      addr ← map_err json_rpc_server_error (of_result (host.local_addr server))
      handle ←
          map_err json_rpc_server_error
            (of_result (host.start server (serve types starknet_client)))
      ok (addr, handle)

    -- Until the server runs, with the environment that `dotenv` leaves.
    unfoldable pub main : Environment → Outcome Report (host.SocketAddr × host.ServerHandle)
    unfolding rpc_config_from_env new_client run_server
    main env = do
      _ ← map_err filter_error (of_result host.init_tracing)
      starknet_config ← map_err config_error (Config.from_env env)
      rpc_config ← rpc_config_from_env env
      (_, kakarot_client) ← new_client starknet_config
      map_err rpc_error (run_server (kakarot_provider kakarot_client) rpc_config)
