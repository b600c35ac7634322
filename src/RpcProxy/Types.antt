-- ===== src/RpcProxy/Types.antt =====
-- Requests of pkg/rpcproxy/types.go. Instants and durations are nanoseconds. Addresses and hashes
-- are the numbers that their bytes spell. A Go int priority is a plain number: the constants are
-- 0, 1 and 2, and nothing in the program makes a negative one.
use Prim.Native.String.{String}
use indexer_go.Base.{ℕ, Option}

abbrev pub priority_critical : ℕ
priority_critical = 0

abbrev pub priority_high : ℕ
priority_high = 1

abbrev pub priority_normal : ℕ
priority_normal = 2

pub data RequestType : Type 0 where
  contract_call transaction_status internal_transaction balance : RequestType
  other_type : String → RequestType

abbrev pub Address : Type 0
Address = ℕ

abbrev pub Hash : Type 0
Hash = ℕ

pub record ContractCallRequest : Type 0 where
  pub contract_address : Address
  pub method_name : String
  pub params : String
  pub abi : String
  pub block_number : Option ℕ

-- The dynamic types of a payload that the handler tells apart; `foreign` is any other.
pub data Payload : Type 0 where
  call_payload : ContractCallRequest → Payload
  status_payload : Hash → Payload
  internal_payload : Hash → Payload
  foreign : Payload

-- A nil ResultCh is `none`; otherwise the channel's identity.
pub record Request : Type 0 where
  pub id : String
  pub kind : RequestType
  pub priority : ℕ
  pub payload : Payload
  pub result_ch : Option ℕ
  pub created_at : ℕ
  pub timeout : ℕ
