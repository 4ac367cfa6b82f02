-- ===== src/Lib.antt =====
-- Kakarot RPC: an Ethereum JSON-RPC server over a Starknet node on which Kakarot, an EVM written as
-- Starknet contracts, is deployed.
--
-- A JSON-RPC method (crates/eth-rpc/src/eth_rpc.rs) turns its block id into one of Starknet, asks
-- the client (crates/core/src/client/mod.rs), and turns the client's errors into JSON-RPC error
-- objects (crates/core/src/client/errors.rs). The client sends requests to the node and converts
-- the replies: calldata and return data by crates/core/src/client/helpers.rs; blocks,
-- transactions, events, signatures and field elements by crates/core/src/models.
--
-- Where things are:
--   Prelude            the libraries' names, Boolean tests, list lemmas, big-endian bytes
--   Types, Crates      words and byte arrays; third-party functions, with their documented laws
--   Starknet, Eth      the data of the two JSON-RPC interfaces, with the fields that are read
--   Errors             errors.rs, the error types of models/ and helpers.rs; Errors/Codes the codes
--   Outcome            the result of a function: a value, an error by `?`, or a panic
--   Async              an async function: a tree of requests to the node. Async/Run runs it against
--                      a script of replies, Async/Join is join_all, Async/Interleaving its
--                      schedules; Async/Only, Async/Once and Async/Bounded say which requests a tree
--                      makes and how many, Async/Yields what holds of its value, Async/Raises of
--                      its error, and Async/Panics that it has one of them; Async/Final is what it
--                      comes to over a node that answers alike
--   Models/Felt        models/felt.rs; Models/Event, Models/Signature, Models/Transaction,
--                      Models/Block and Models/Balance are the files of those names
--   Client/Constants   client/constants.rs; Client/Config is client/config.rs
--   Client/Calls       helpers.rs: Calls::try_from, decode_signature_from_tx_calldata,
--                      raw_starknet_calldata
--   Client/Decode      helpers.rs: decode_eth_call_return, decode_eth_send_transaction_return, as
--                      readings of a list; Client/Decode/Loops has them as loops over a counter
--   Client/Helpers     helpers.rs: block ids, byte strings, addresses
--   Client/Api         client/client_api.rs: the trait KakarotProvider, as records
--   Client/Contracts, Client/Transactions, Client/Receipts, Client/Chain, Client/Tokens
--                      the methods of client/mod.rs; Client/Provider puts them together
--   Client/Panics      which methods of the client end in no panic
--   Client/WellFormed  when blocks, transactions and receipts are well formed
--   Rpc                eth_rpc.rs; Rpc/Unfinished has the methods that are refused or todo!()
--   Server             eth_api.rs: the methods by name, with parameters and results, and the server
--                      that answers them; Server/Ledger is its specification for accounts,
--                      Server/Chain the one for blocks, transactions and receipts, and
--                      Server/Failures says which error objects a method gives
--   Startup            eth-rpc/src/config.rs, lib.rs and main.rs, and KakarotClient::new
--   Tests              concrete third-party functions, the theorems at concrete inputs, and the
--                      inputs of the unit tests of helpers.rs
--
-- A function that is not async becomes a function into Outcome, where `?` and `ok_or` are errors
-- and `unwrap`, an index out of range and a `from_slice` of another length are the panic. An async
-- one becomes a tree of Async, whose requests are the calls of the node in their order; the state
-- of the node is what the script answers, at each count of requests and for each request. The
-- client itself keeps two field elements, which nothing changes. The futures of join_all run one
-- after the other, which is one of their interleavings; Async/Interleaving has the others, as
-- steps of any of the futures.
--
-- Loops are structural recursion, on the list or the count that they run over. The loops of
-- Client/Decode/Loops take fuel, of which one more than there are cells is enough. A field element
-- is a number, below the prime where a theorem says so, and its arithmetic is a parameter with the
-- law modulo the prime. A list of bytes is an array of its length, where a theorem says so. A
-- usize has 64 bits.
--
-- Not modelled: the HTTP server, the parsing of JSON, of URLs and of socket addresses, and the
-- traces, which are crates (Startup takes what they do as parameters); the wait for the end of the
-- server in main; the fields of replies that the program does not read; the ratio 0.9 of
-- fee_history, which is written as nine tenths; the mocks of crates/core/src/mock and the
-- integration tests.
pub mod Prelude
pub mod Types
pub mod Errors
pub mod Crates
pub mod Starknet
pub mod Eth
pub mod Outcome
pub mod Async
pub mod Models
pub mod Client
pub mod Rpc
pub mod Server
pub mod Startup
pub mod Tests
