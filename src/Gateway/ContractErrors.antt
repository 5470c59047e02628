-- ===== src/Gateway/ContractErrors.antt =====
-- apps/gateway/src/contractErrors.ts, with the error table of packages/bindings/src/index.ts, and
-- `unwrap` and `rethrow` of chain.ts.
pub mod Mapped
use aegis_phase.Prelude.{
  ◌<◌, ◌≢◌, ◌⊎◌, inl, inr, Bool-cases, arith, ℕ, ◌≤◌, ◌≡◌, refl, Bool, true, false, not, ◌&&◌, ◌||◌,
  Option, none, some, List, [], ◌∷◌, ◌++◌, Text, codes, text_eq, if◌then◌else◌, ◌==◌, leb, All,
}
use aegis_phase.Prelude.Result.{Result, ok, err}
use aegis_phase.Canonical.Amount.{span_digits, value_from, to_decimal}

-- The code and the name of each error of the contract.
abbrev pub contract_errors : List (ℕ × Text)
contract_errors =
    (1, codes "NotInitialized")
    ∷ (2, codes "AlreadyInitialized")
    ∷ (3, codes "NotOwner")
    ∷ (4, codes "NotAuthorizedCaller")
    ∷ (5, codes "AgentNotRegistered")
    ∷ (6, codes "DecisionNotFound")
    ∷ (7, codes "NotPendingApproval")
    ∷ (8, codes "AlreadyResolved")
    ∷ (9, codes "AlreadySettled")
    ∷ (10, codes "NotApproved")
    ∷ (11, codes "InvalidAmount")
    ∷ (12, codes "AgentRevoked")
    ∷ []

pub record ContractFailure : Type 0 where
  pub code : ℕ
  pub name : Text
  pub raw : Text

abbrev pub error_head : Text
error_head = codes "Error(Contract, #"

-- What follows a prefix.
unfoldable pub strip_prefix : Text → Text → Option Text
strip_prefix [] s = some s
strip_prefix (p ∷ ps) [] = none
strip_prefix (p ∷ ps) (c ∷ s) = if p == c then strip_prefix ps s else none

-- `(\d+)\)`.
abbrev pub digits_then : Text × Text → Option Text
digits_then ([], rest) = none
digits_then (d ∷ ds, []) = none
digits_then (d ∷ ds, c ∷ rest) = if c == b')' then some (d ∷ ds) else none

abbrev pub digits_after : Option Text → Option Text
digits_after none = none
digits_after (some s) = digits_then (span_digits s)

abbrev pub or_else {ℓ} : {A : Type ℓ} → Option A → Option A → Option A
or_else none other = other
or_else (some a) other = some a

-- `CONTRACT_ERROR.exec(raw)`: the first match anywhere.
unfoldable pub contract_code : Text → Option Text
unfolding strip_prefix
contract_code [] = none
contract_code (c ∷ s) = or_else (digits_after (strip_prefix error_head (c ∷ s))) (contract_code s)

unfoldable pub name_of : List (ℕ × Text) → ℕ → Text
name_of [] code = codes "UnknownContractError(" ++ (to_decimal code ++ codes ")")
name_of ((n, name) ∷ rest) code = if n == code then name else name_of rest code

abbrev pub failure_of : Text → Option Text → Option ContractFailure
failure_of raw none = none
failure_of raw (some digits) =
    let code = value_from 0 digits in
    some record { code = code; name = name_of contract_errors code; raw = raw }

-- `asContractFailure`, of the message of what was thrown.
unfoldable pub as_contract_failure : Text → Option ContractFailure
unfolding contract_code name_of
as_contract_failure raw = failure_of raw (contract_code raw)

pub record HttpMapping : Type 0 where
  pub status : ℕ
  pub error : Text
  pub alert : Bool

abbrev pub entry : ℕ → Text → Bool → HttpMapping
entry status error alert = record { status = status; error = error; alert = alert }

abbrev pub mapping : List (Text × HttpMapping)
mapping =
    (codes "NotInitialized", entry 500 (codes "contract_not_initialized") true)
    ∷ (codes "AlreadyInitialized", entry 500 (codes "contract_already_initialized") true)
    ∷ (codes "NotOwner", entry 500 (codes "gateway_not_owner") true)
    ∷ (codes "NotAuthorizedCaller", entry 500 (codes "gateway_not_authorized_caller") true)
    ∷ (codes "AgentNotRegistered", entry 422 (codes "agent_not_registered") false)
    ∷ (codes "DecisionNotFound", entry 404 (codes "decision_not_found") false)
    ∷ (codes "NotPendingApproval", entry 409 (codes "not_pending_approval") false)
    ∷ (codes "AlreadyResolved", entry 409 (codes "already_resolved") false)
    ∷ (codes "AlreadySettled", entry 409 (codes "already_settled") false)
    ∷ (codes "NotApproved", entry 409 (codes "not_approved") false)
    ∷ (codes "InvalidAmount", entry 400 (codes "invalid_amount") false)
    ∷ (codes "AgentRevoked", entry 409 (codes "agent_revoked") false)
    ∷ []

abbrev pub unmapped : HttpMapping
unmapped = entry 500 (codes "unmapped_contract_error") true

unfoldable pub mapped_in : List (Text × HttpMapping) → Text → HttpMapping
mapped_in [] name = unmapped
mapped_in ((n, m) ∷ rest) name = if text_eq n name then m else mapped_in rest name

-- `httpForContractFailure`; the detail repeats the name and the code.
unfoldable pub http_for_contract_failure : ContractFailure → HttpMapping
unfolding mapped_in
http_for_contract_failure failure = mapped_in mapping failure.name

-- What a call of the chain throws: `ContractCallError`, `ChainUnavailableError` (its message and its
-- raw text), or any other error by its message.
pub data ChainError : Type 0 where
  contract_call : ContractFailure → ChainError
  chain_unavailable : Text → Text → ChainError
  other_error : Text → ChainError

abbrev pub classified : Text → Option ContractFailure → ChainError
classified message none = chain_unavailable message message
classified message (some failure) = contract_call failure

-- `rethrow`: what is classified stays so. The stack of an error, its raw text, is its message here.
unfoldable pub rethrow : ChainError → ChainError
unfolding as_contract_failure
rethrow (contract_call failure) = contract_call failure
rethrow (chain_unavailable message raw) = chain_unavailable message raw
rethrow (other_error message) = classified message (as_contract_failure message)

-- The SDK's `Result`: a value, or the message of the contract's error.
pub data Returned (A : Type 0) : Type 0 where
  value : A → Returned A
  failed : Text → Returned A

unfoldable pub code_of : List (ℕ × Text) → Text → Option ℕ
code_of [] name = none
code_of ((n, m) ∷ rest) name = if text_eq m name then some n else code_of rest name

abbrev pub named_error : Text → Option ℕ → Text
named_error name none = codes "contract returned an error: " ++ name
named_error name (some code) = error_head ++ (to_decimal code ++ (codes ") " ++ name))

unfoldable pub unwrap : {A : Type 0} → Returned A → Result ChainError A
unfolding code_of
unwrap (value a) = ok a
unwrap (failed name) = err (other_error (named_error name (code_of contract_errors name)))

-- A reply of the gateway to a failed call: its status, its error, the contract's error, its raw text.
pub record MappedError : Type 0 where
  pub status : ℕ
  pub error : Text
  pub alert : Bool
  pub raw : Text
  pub contract_error : Option Text

abbrev pub by_contract : ContractFailure → MappedError
by_contract failure =
    let m = http_for_contract_failure failure in
    record {
      status = m.status;
      error = m.error;
      alert = m.alert;
      raw = failure.raw;
      contract_error = some failure.name;
    }

abbrev pub by_message : Text → Option ContractFailure → MappedError
by_message message (some failure) = by_contract failure
by_message message none = record {
  status = 500;
  error = codes "internal_error";
  alert = true;
  raw = message;
  contract_error = none;
}

-- `chainErrorResponse` of server.ts.
unfoldable pub chain_error_response : ChainError → MappedError
unfolding http_for_contract_failure as_contract_failure
chain_error_response (contract_call failure) = by_contract failure
chain_error_response (chain_unavailable message raw) = record {
  status = 502;
  error = codes "chain_unavailable";
  alert = true;
  raw = raw;
  contract_error = none;
}
chain_error_response (other_error message) = by_message message (as_contract_failure message)
