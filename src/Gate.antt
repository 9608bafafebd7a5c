-- ===== src/Gate.antt =====
-- mero-inference-gate: what the gate takes from other crates and from the machine.
pub mod Tokens
pub mod Binding
pub mod Evidence
pub mod Server
pub mod Closed
use mero_tee.Prelude.{ℕ, Bool, List, Option}
use mero_tee.Text.{Str, Bytes}
use mero_tee.Errors.{Result}
use mero_tee.Crypto.{Crypto}

-- serde_json: a value, its parser, and the accessors that the gate calls on it.
pub record SerdeJson : Type 1 where
  pub Value : Type 0
  pub from_str : Str → Result Str Value
  pub get : Value → Str → Option Value
  pub as_text : Value → Option Str
  pub as_array : Value → Option (List Value)

-- How a run of the evidence helper ended.
pub data HelperRun : Type 0 where
  cannot_spawn : Str → HelperRun
  timed_out : HelperRun
  cannot_wait : Str → HelperRun
  exited : (success : Bool) (status : Str) (stdout : Bytes) (stderr : Str) → HelperRun

pub record Libraries : Type 1 where
  pub crypto : Crypto
  pub sha384 : Bytes → Bytes
  pub json : SerdeJson
  pub from_utf8 : Bytes → Option Str
  pub header_text : Bytes → Option Str
