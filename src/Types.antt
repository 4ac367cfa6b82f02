-- ===== src/Types.antt =====
-- The words and byte arrays that the program takes from the crates reth_primitives and
-- starknet_core. A number stands for the word with that value, and a list of bytes for an array;
-- where the width matters it is a hypothesis. A `From` between unsigned words of growing width
-- keeps the value, and is not written.
use kakarot_rpc_adapter.Prelude.{ℕ, ◌+◌, ◌*◌, ◌^◌, ◌<◌, ◌≡◌, List, Bool, length}
use kakarot_rpc_adapter.Prelude.Bytes.{IsBytes}

-- A field element is its least non-negative representative.
abbrev pub FieldElement : Type 0
FieldElement = ℕ

abbrev pub prime : ℕ
prime = 2 ^ 251 + 17 * 2 ^ 192 + 1

abbrev pub IsFelt : FieldElement → Type 0
IsFelt a = a < prime

abbrev pub Bytes : Type 0
Bytes = List ℕ

abbrev pub H160 : Type 0
H160 = List ℕ

abbrev pub H256 : Type 0
H256 = List ℕ

abbrev pub H64 : Type 0
H64 = List ℕ

abbrev pub Bloom : Type 0
Bloom = List ℕ

-- An array of `n` bytes.
abbrev pub IsArray : ℕ → List ℕ → Type 0
IsArray n bs = (length bs ≡ n) × IsBytes bs

abbrev pub U8 : Type 0
U8 = ℕ

abbrev pub U64 : Type 0
U64 = ℕ

abbrev pub U128 : Type 0
U128 = ℕ

abbrev pub U256 : Type 0
U256 = ℕ

-- reth_primitives::Signature.
pub record Signature : Type 0 where
  pub r : U256
  pub s : U256
  pub odd_y_parity : Bool

-- reth_primitives::TransactionSigned. The program reads its signature and its nonce; `contents`
-- is all else, on which the signer depends too.
pub record TransactionSigned : Type 0 where
  pub signature : Signature
  pub nonce : U64
  pub contents : Bytes
