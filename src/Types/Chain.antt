-- ===== src/Types/Chain.antt =====
-- `ExternalChain`, `ChainName` and `ChainKind` of packages/kolme/src/core/types.rs.
use kolme.Prelude.{ℕ}

pub data ExternalChain : Type 0 where
  osmosis_testnet neutron_testnet osmosis_local : ExternalChain
  solana_mainnet solana_testnet solana_devnet solana_local : ExternalChain
  ethereum_mainnet ethereum_sepolia ethereum_local : ExternalChain
  pass_through : ExternalChain

pub data ChainName : Type 0 where
  cosmos solana ethereum pass_through : ChainName

-- `ExternalChain::name`, through `ChainKind::from`.
unfoldable pub name : ExternalChain → ChainName
name ExternalChain.osmosis_testnet = ChainName.cosmos
name ExternalChain.neutron_testnet = ChainName.cosmos
name ExternalChain.osmosis_local = ChainName.cosmos
name ExternalChain.solana_mainnet = ChainName.solana
name ExternalChain.solana_testnet = ChainName.solana
name ExternalChain.solana_devnet = ChainName.solana
name ExternalChain.solana_local = ChainName.solana
name ExternalChain.ethereum_mainnet = ChainName.ethereum
name ExternalChain.ethereum_sepolia = ChainName.ethereum
name ExternalChain.ethereum_local = ChainName.ethereum
name ExternalChain.pass_through = ChainName.pass_through

-- The key of a chain in a `MerkleMap`: its rank among the kebab-case names of the variants, by
-- whose bytes `to_merkle_key` orders them ("ethereum-local", "ethereum-mainnet", ...).
unfoldable pub to_merkle_key : ExternalChain → ℕ
to_merkle_key ExternalChain.ethereum_local = 0
to_merkle_key ExternalChain.ethereum_mainnet = 1
to_merkle_key ExternalChain.ethereum_sepolia = 2
to_merkle_key ExternalChain.neutron_testnet = 3
to_merkle_key ExternalChain.osmosis_local = 4
to_merkle_key ExternalChain.osmosis_testnet = 5
to_merkle_key ExternalChain.pass_through = 6
to_merkle_key ExternalChain.solana_devnet = 7
to_merkle_key ExternalChain.solana_local = 8
to_merkle_key ExternalChain.solana_mainnet = 9
to_merkle_key ExternalChain.solana_testnet = 10

pub data CosmosChain : Type 0 where
  osmosis_testnet neutron_testnet osmosis_local : CosmosChain

pub data SolanaChain : Type 0 where
  mainnet testnet devnet local : SolanaChain

-- `From<CosmosChain>` and `From<SolanaChain>`
unfoldable pub of_cosmos : CosmosChain → ExternalChain
of_cosmos CosmosChain.osmosis_testnet = ExternalChain.osmosis_testnet
of_cosmos CosmosChain.neutron_testnet = ExternalChain.neutron_testnet
of_cosmos CosmosChain.osmosis_local = ExternalChain.osmosis_local

unfoldable pub of_solana : SolanaChain → ExternalChain
of_solana SolanaChain.mainnet = ExternalChain.solana_mainnet
of_solana SolanaChain.testnet = ExternalChain.solana_testnet
of_solana SolanaChain.devnet = ExternalChain.solana_devnet
of_solana SolanaChain.local = ExternalChain.solana_local
