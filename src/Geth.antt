-- ===== src/Geth.antt =====
-- include/DecentEthereum/Untrusted/GethRequester.hpp: requests to a Geth node over JSON-RPC, and
-- the decoding of its answers. JSON, hex and the HTTP client are libraries, taken as parameters;
-- log output is left out.
pub mod Text
pub mod Libraries
pub mod Decoding
pub mod Requests
pub mod Answers
pub mod Exchange
