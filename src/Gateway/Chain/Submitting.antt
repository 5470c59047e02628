-- ===== src/Gateway/Chain/Submitting.antt =====
-- `submit` of apps/gateway/src/chain.ts: simulation, signatures and sending.
use aegis_phase.Prelude.{
  ℕ, Bool, true, false, Option, none, some, List, [], ◌∷◌, ◌++◌, Text, codes, text_eq,
  if◌then◌else◌,
}
use aegis_phase.Prelude.Result.{Result, ok, err}
use aegis_phase.Gateway.ContractErrors.{
  ContractFailure, as_contract_failure, ChainError, contract_call, chain_unavailable, other_error,
  rethrow, Returned, unwrap,
}
use aegis_phase.Gateway.Chain.Decisions.{
  Decision, ChainDecision, normalize_decision, Sent, Assembled, Action, Run, after, caught,
  verdict_known, entry_signed, sent, accepted_as, final_in,
}

abbrev pub simulated_failure : Text → Option ContractFailure → ChainError
simulated_failure error none = chain_unavailable (codes "simulation failed: " ++ error) error
simulated_failure error (some failure) = contract_call (record failure { raw = error })

unfoldable pub assert_simulation_ok : Option Text → Result ChainError (Unit {0})
unfolding as_contract_failure
assert_simulation_ok none = ok tt
assert_simulation_ok (some error) = err (simulated_failure error (as_contract_failure error))

abbrev pub unwrapped : Result ChainError Decision → Result ChainError ChainDecision
unwrapped (ok d) = ok (normalize_decision d)
unwrapped (err e) = err e

-- `normalizeDecision(unwrap(tx.result))`.
unfoldable pub normalized : Result ChainError (Returned Decision) → Result ChainError ChainDecision
unfolding normalize_decision unwrap
normalized (ok returned) = unwrapped (unwrap returned)
normalized (err e) = err e

abbrev pub truthy : Option Text → Option Text
truthy none = none
truthy (some []) = none
truthy (some (c ∷ s)) = some (c ∷ s)

abbrev pub message_of : ChainError → Text
message_of (contract_call failure) = failure.name
message_of (chain_unavailable message raw) = message
message_of (other_error message) = message

abbrev pub unobserved : Option Text → Text → Text
unobserved none message = message
unobserved (some hash) message =
    codes "submitted as " ++ (hash ++ (codes " but the result was not observed: " ++ message))

abbrev pub sending_failure : Option Text → Text → Option ContractFailure → ChainError
sending_failure hash message (some failure) = contract_call failure
sending_failure hash message none = chain_unavailable (unobserved hash message) message

-- The `catch` of the sending.
unfoldable pub send_error : Option Text → ChainError → ChainError
unfolding as_contract_failure
send_error hash (contract_call failure) = contract_call failure
send_error hash e = sending_failure hash (message_of e) (as_contract_failure (message_of e))

abbrev pub accepted : Option Text → List Action
accepted none = []
accepted (some hash) = accepted_as hash ∷ []

abbrev pub finality : Option Text → Option ℕ → List Action
finality (some hash) (some ledger) = final_in hash ledger ∷ []
finality hash ledger = []

abbrev pub with_result : Option Text → Option ℕ → Result ChainError ChainDecision → Run
with_result hash ledger (err e) = ([], err (send_error hash e))
with_result hash ledger (ok d) = (
  finality hash ledger,
  ok record { decision = d; tx_hash = hash; ledger_seq = ledger; submitted = true },
)

abbrev pub observed : Option Text → Result ChainError (Returned Decision × Option ℕ) → Run
observed hash (err e) = ([], err (send_error hash e))
observed hash (ok (returned, ledger)) = with_result hash ledger (normalized (ok returned))

-- From `signAndSend` on.
unfoldable pub sign_and_send : Sent → Run
unfolding send_error normalized
sign_and_send s = after (sent ∷ accepted (truthy s.hash)) (observed (truthy s.hash) s.outcome)

-- `join(", ")`.
abbrev pub commas : List Text → Text
commas [] = []
commas (s ∷ []) = s
commas (s ∷ u ∷ rest) = s ++ (codes ", " ++ commas (u ∷ rest))

abbrev pub no_signer : Text → List Text → ChainError
no_signer address outstanding =
    chain_unavailable
      (codes "no signer configured for auth entry "
        ++ (address ++ codes " — add it to AGENT_SECRETS"))
      (codes "needsNonInvokerSigningBy: " ++ commas outstanding)

module _ (signer : Text) (can_sign : Text → Bool) where
  abbrev pub has_signer : Text → Bool
  has_signer address = if text_eq address signer then true else can_sign address

  abbrev pub signed_then : Text → Result ChainError (Unit {0}) → Run → Run
  signed_then address (err e) rest = ([], err e)
  signed_then address (ok done) rest = after (entry_signed address ∷ []) rest

  -- `signAllAuthEntries`, and what follows it.
  unfoldable pub sign_all : Assembled → List Text → Run → Run
  sign_all tx [] rest = rest
  sign_all tx (address ∷ addresses) rest =
      if has_signer address
      then signed_then address (tx.sign_auth_entry address) (sign_all tx addresses rest)
      else ([], err (no_signer address tx.outstanding))

  abbrev pub by_kind : Assembled → ChainDecision → Bool → Run
  by_kind tx d true =
      ([], ok record { decision = d; tx_hash = none; ledger_seq = none; submitted = false })
  by_kind tx d false = sign_all tx tx.outstanding (sign_and_send tx.send)

  abbrev pub judged_as : Assembled → Result ChainError ChainDecision → Run
  judged_as tx (err e) = ([], err e)
  judged_as tx (ok d) = after (verdict_known d ∷ []) (by_kind tx d tx.is_read_call)

  abbrev pub simulated : Assembled → Result ChainError (Unit {0}) → Run
  simulated tx (err e) = ([], err e)
  simulated tx (ok done) = judged_as tx (caught (normalized tx.result))

  -- The critical section of `submit`.
  unfoldable pub submit : Result ChainError Assembled → Run
  unfolding sign_all sign_and_send assert_simulation_ok normalized rethrow
  submit (err e) = ([], err (rethrow e))
  submit (ok tx) = simulated tx (assert_simulation_ok tx.simulation_error)
