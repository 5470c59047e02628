-- ===== src/Console/Lookup.antt =====
-- apps/console/src/chain.ts: the lookup of a decision. A call of the SDK returns a simulated transaction
-- or throws with a message; the texts of reasons are constructors.
use aegis_phase.Prelude.{
  ℕ, Bool, true, false, ◌&&◌, ◌||◌, Option, none, some, List, [], ◌∷◌, Text, codes, text_eq,
  if◌then◌else◌, leb, ◌==◌, length, any, all,
}
use aegis_phase.Prelude.Result.{Result, ok, err}
use aegis_phase.Canonical.Amount.{trim, value_from}
use aegis_phase.Gateway.Paths.{contains, lower_text}
use aegis_phase.Gateway.ContractErrors.{contract_code, contract_errors}
use aegis_phase.Gateway.Chain.Decisions.{Decision, ChainDecision, normalize_decision}

abbrev pub is_hex_digit : ℕ → Bool
is_hex_digit c = (leb b'0' c && leb c b'9') || (leb b'a' c && leb c b'f')

-- `HEX32`.
abbrev pub is_hex32 : Text → Bool
is_hex32 s = length s == 64 && all is_hex_digit s

-- `replace(/^0x/i, "")`.
abbrev pub without_0x : Text → Text
without_0x (z ∷ x ∷ s) = if z == b'0' && (x == b'x' || x == b'X') then s else z ∷ x ∷ s
without_0x s = s

unfoldable pub normalize_ref : Text → Option Text
normalize_ref ref =
    let v = lower_text (without_0x (trim ref)) in if is_hex32 v then some v else none

-- `ARCHIVED`, without regard to case.
abbrev pub archived_words : List Text
archived_words =
    codes "archiv"
    ∷ codes "restorepreamble"
    ∷ codes "entry expired"
    ∷ codes "missingvalue"
    ∷ codes "existenceerror"
    ∷ codes "ttl"
    ∷ []

unfoldable pub is_archived : Text → Bool
unfolding contains
is_archived message = any (λ word. contains word (lower_text message)) archived_words

-- What `lookup` throws: what `ChainTransportError` says, or last the SDK's own error.
pub data TransportError : Type 0 where
  call_failed : Text → TransportError
  simulation_failed : Text → TransportError
  contract_not_initialized : TransportError
  unreadable_result : Text → TransportError

-- The result is the value of an `Ok`; the SDK's getter of it throws where the simulation has none.
pub record Simulated : Type 0 where
  pub simulation_error : Option Text
  pub restore_preamble : Bool
  pub result : Result Text (Option Decision)

pub data Via : Type 0 where
  intent decision : Via

pub data Absence : Type 0 where
  decision_not_found : Absence
  answered : Text → Absence
  no_decision : Absence

pub data DecisionLookup : Type 0 where
  found : ChainDecision → Via → DecisionLookup
  absent : Absence → DecisionLookup
  archived : DecisionLookup

-- An empty message is no error.
abbrev pub error_of : Option Text → Option Text
error_of none = none
error_of (some []) = none
error_of (some (c ∷ s)) = some (c ∷ s)

abbrev pub needs_restore : Simulated → Bool
needs_restore tx = tx.restore_preamble

unfoldable pub name_in : List (ℕ × Text) → ℕ → Option Text
name_in [] code = none
name_in ((n, name) ∷ rest) code = if n == code then some name else name_in rest code

abbrev pub name_of_digits : Option Text → Option Text
name_of_digits none = none
name_of_digits (some digits) = name_in contract_errors (value_from 0 digits)

unfoldable pub contract_error_name : Text → Option Text
unfolding contract_code name_in
contract_error_name message = name_of_digits (contract_code message)

-- What a contract's error says of the reference.
abbrev pub named : Text → Option Text → Result TransportError DecisionLookup
named message none = err (simulation_failed message)
named message (some name) =
    if text_eq name (codes "DecisionNotFound")
    then ok (absent decision_not_found)
    else if text_eq name (codes "NotInitialized")
    then err contract_not_initialized
    else ok (absent (answered name))

-- The result is read outside of the `try`.
abbrev pub clean : Via → Bool → Result Text (Option Decision) → Result TransportError DecisionLookup
clean via restore (err message) = err (unreadable_result message)
clean via restore (ok (some d)) = ok (found (normalize_decision d) via)
clean via true (ok none) = ok archived
clean via false (ok none) = ok (absent no_decision)

abbrev pub simulated : Via → Simulated → Option Text → Result TransportError DecisionLookup
simulated via tx none = clean via (needs_restore tx) tx.result
simulated via tx (some message) =
    if is_archived message then ok archived else named message (contract_error_name message)

-- `lookup`, of what the call returned or threw.
unfoldable pub lookup : Via → Result Text Simulated → Result TransportError DecisionLookup
unfolding is_archived contract_error_name normalize_decision
lookup via (err message) = if is_archived message then ok archived else err (call_failed message)
lookup via (ok tx) = simulated via tx (error_of tx.simulation_error)
