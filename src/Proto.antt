-- ===== src/Proto.antt =====
-- rx/proto/rx.proto: the status codes and the messages that several modules exchange, and the
-- outcome of a remote call. An integer field is a natural number, an unset text field is "".
pub mod StatusCode
use rx.Base.{ℕ, String, Option, none, some, List}

pub record Result : Type 0 where
  pub code : ℕ
  pub message : String

abbrev pub no_error : Result
no_error = record { code = 0; message = "" }

-- Reading a message field that is not set gives the default message.
abbrev pub result_of : Option Result → Result
result_of none = no_error
result_of (some r) = r

pub data GrpcStatus : Type 0 where
  failed_precondition unavailable other_status : GrpcStatus

-- A `grpc.RpcError`, which is also a `grpc.Call`.
pub record RpcError : Type 0 where
  pub code : GrpcStatus
  pub details : String
  pub initial_metadata : List (String × String)

-- What a remote call gives: the response, or an exception of the library.
pub data Reply {ℓ} (A : Type ℓ) : Type ℓ where
  response : A → Reply A
  rpc_error : RpcError → Reply A

-- rx/proto/daemon.proto
pub record OpenPortRequest : Type 0 where
  pub port : ℕ
  pub local_port : ℕ

pub record Port : Type 0 where
  pub port : ℕ
  pub local_port : ℕ

-- What iterating over a streaming call gives: some responses, then its end or an `RpcError`.
pub record Stream {ℓ} (A : Type ℓ) : Type ℓ where
  pub items : List A
  pub failure : Option RpcError

-- `DockerImageProgress`
pub record ImageProgress : Type 0 where
  pub id : String
  pub total : ℕ
  pub current : ℕ
