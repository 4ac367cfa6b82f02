-- ===== src/Tests.antt =====
-- Concrete third-party functions, and the development at concrete inputs.
mod Digits
mod Sample
mod Invoke
mod ModelTests
mod ClientTests
mod TransactionTests
mod ReceiptTests
mod ServerTests
mod HelpersTests
mod ChainNode
mod ChainTests
mod CrashTests
