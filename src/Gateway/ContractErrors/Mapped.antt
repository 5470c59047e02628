-- ===== src/Gateway/ContractErrors/Mapped.antt =====
-- Every error of the contract reaches its reply (contractErrors.ts, chain.ts and server.ts).
use aegis_phase.Prelude.{
  ◌<◌, ◌≤◌, ◌≡◌, ◌≢◌, ◌⊎◌, inl, inr, refl, ℕ, true, false, Option, none, some, List, [], ◌∷◌, Text,
  codes, text_eq, All, Bool-cases, arith,
}
use aegis_phase.Prelude.Result.{err}
use aegis_phase.Canonical.Amount.{span_digits, value_from, to_decimal}
use aegis_phase.Gateway.ContractErrors.{
  contract_errors, ContractFailure, HttpMapping, mapping, mapped_in, http_for_contract_failure,
  as_contract_failure, contract_code, name_of, code_of, strip_prefix, ChainError, contract_call,
  chain_unavailable, other_error, rethrow, failed, unwrap, MappedError, by_message,
  chain_error_response,
}

-- An alert is raised exactly with a status of the server's own fault.
abbrev pub IsFair : MappedError → Type 0
IsFair m =
    ((m.alert ≡ true) × (500 ≤ m.status))
    ⊎ ((m.alert ≡ false) × (400 ≤ m.status) × (m.status < 500))

abbrev FairEntry : HttpMapping → Type 0
FairEntry m =
    ((m.alert ≡ true) × (500 ≤ m.status))
    ⊎ ((m.alert ≡ false) × (400 ≤ m.status) × (m.status < 500))

mapped_in-Fair :
    (table : List (Text × HttpMapping)) (name : Text)
    → All (λ e. FairEntry e.1) table
    → FairEntry (mapped_in table name)
unfolding mapped_in
mapped_in-Fair [] name h = inl (refl, omega arith)
mapped_in-Fair ((n, m) ∷ rest) name (h, hs) = elim (Bool-cases (text_eq n name)) [
  | inl e ↦ rw e h
  | inr e ↦ rw e (mapped_in-Fair rest name hs)
]

mapping-Fair : All (λ (e : Text × HttpMapping). FairEntry e.1) mapping
mapping-Fair = (
  inl (refl, omega arith),
  (
    inl (refl, omega arith),
    (
      inl (refl, omega arith),
      (
        inl (refl, omega arith),
        (
          inr (refl, omega arith, omega arith),
          (
            inr (refl, omega arith, omega arith),
            (
              inr (refl, omega arith, omega arith),
              (
                inr (refl, omega arith, omega arith),
                (
                  inr (refl, omega arith, omega arith),
                  (
                    inr (refl, omega arith, omega arith),
                    (
                      inr (refl, omega arith, omega arith),
                      (inr (refl, omega arith, omega arith), tt),
                    ),
                  ),
                ),
              ),
            ),
          ),
        ),
      ),
    ),
  ),
)

-- Whatever a call of the chain throws, the reply has a status of an error, and an alert is raised
-- exactly when the status says that the fault is the server's.
pub chain_error_response-IsFair : (e : ChainError) → IsFair (chain_error_response e)
unfolding chain_error_response http_for_contract_failure
chain_error_response-IsFair (contract_call failure) =
    mapped_in-Fair mapping failure.name mapping-Fair
chain_error_response-IsFair (chain_unavailable message raw) = inl (refl, omega arith)
chain_error_response-IsFair (other_error message) = by_found (as_contract_failure message)
  where
    by_found : (o : Option ContractFailure) → IsFair (by_message message o)
    by_found none = inl (refl, omega arith)
    by_found (some failure) = mapped_in-Fair mapping failure.name mapping-Fair

-- The contract's error with this code and name, thrown by `unwrap`, is mapped by its own entry.
abbrev IsMapped : ℕ × Text → Type 0
IsMapped (code, name) =
    (raw : Text) × (unwrap {A = Unit {0}} (failed name) ≡ err (other_error raw))
    × (rethrow (other_error raw) ≡ contract_call record { code = code; name = name; raw = raw })
    × ((chain_error_response (contract_call record { code = code; name = name; raw = raw })).error
        ≢ codes "unmapped_contract_error")

-- Every error of the contract, in its table and in what unwrap throws for it, is found again with
-- its code and its name by rethrow, and has an entry of its own in the mapping.
pub contract_errors-IsMapped : All IsMapped contract_errors
unfolding unwrap rethrow chain_error_response code_of name_of contract_code strip_prefix span_digits
    value_from to_decimal text_eq mapped_in
contract_errors-IsMapped = (
  (_, refl, refl, λ e. cc),
  (
    (_, refl, refl, λ e. cc),
    (
      (_, refl, refl, λ e. cc),
      (
        (_, refl, refl, λ e. cc),
        (
          (_, refl, refl, λ e. cc),
          (
            (_, refl, refl, λ e. cc),
            (
              (_, refl, refl, λ e. cc),
              (
                (_, refl, refl, λ e. cc),
                (
                  (_, refl, refl, λ e. cc),
                  (
                    (_, refl, refl, λ e. cc),
                    ((_, refl, refl, λ e. cc), ((_, refl, refl, λ e. cc), tt)),
                  ),
                ),
              ),
            ),
          ),
        ),
      ),
    ),
  ),
)
