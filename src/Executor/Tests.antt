-- ===== src/Executor/Tests.antt =====
-- Answers of Horizon and of the contract, a registry with two services, and the theorems at them.
use aegis_phase.Prelude.{
  false, ◌≡◌, refl, true, some, none, Text, codes, text_eq, replicate, all, ◌∷◌, [],
}
use aegis_phase.Prelude.Result.{ok, err}
use aegis_phase.Prelude.Int.{pos}
use aegis_phase.Canonical.Amount.{span_digits, value_from}
use aegis_phase.Http.{Response}
use aegis_phase.Receipt.Json.{
  Json, boolean, integer, string, object, array, nil, cons, end, member, value_at,
}
use aegis_phase.Executor.Errors.{other, settlement, registry_invalid}
use aegis_phase.Executor.World.{ServiceRegistry, rejected, unknown}
use aegis_phase.Executor.Horizon.{Coercions, submit}
use aegis_phase.Executor.Chain.{Assembled, get_decision, mark_settled}
use aegis_phase.Executor.Chain.Answers.{Answers, Marks, mark_settled-IsConfirmed}
use aegis_phase.Executor.Registry.{load_registry, add_services}

abbrev coercions : Coercions
coercions = record {
  number = λ o. 0;
  text = λ json. codes "[object Object]";
  milliseconds = λ s. none;
}

abbrev bad_request : Response
bad_request = record {
  status = 400;
  json = ok (object (member (codes "type") (string (codes "transaction_failed")) end));
}

-- A refusal is a rejection, a time out is not.
classifies :
    (submit coercions (ok bad_request) ≡ rejected)
    × (submit coercions (ok record { status = 504; json = err (codes "no JSON") }) ≡ unknown)
unfolding submit value_at text_eq
classifies = (refl, refl)

abbrev applied : Assembled
applied = record {
  result = ok (ok tt);
  sign_and_send = ok (some record { status = codes "SUCCESS"; ledger = 901; tx_hash = codes "ff" });
}

abbrev trap : Text
trap = codes "HostError: Error(Contract, #6)"

mark_settled-IsConfirmed_example :
    Answers (err trap) (get_decision (err trap)) × Marks (ok applied) (mark_settled (ok applied))
mark_settled-IsConfirmed_example = mark_settled-IsConfirmed (err trap) (ok applied)

-- The trap names the missing decision, and the transaction was applied.
answers :
    (get_decision (err trap) ≡ ok none)
    × (mark_settled (ok applied) ≡ (true, ok record { ledger = 901; tx_hash = codes "ff" }))
    × (mark_settled (ok (record applied { result = err (codes "expired") })) ≡ (false, err other))
unfolding get_decision mark_settled span_digits value_from text_eq
answers = (refl, refl, refl)

abbrev pub account : Text
account = b'G' ∷ replicate 55 b'A'

abbrev pub contract : Text
contract = b'C' ∷ replicate 55 b'A'

abbrev pub listed : Text → Text → Text → Json
listed id destination active = object (
    member (codes "service_id") (string id) (
      member (codes "destination") (string destination)
        (member (codes "active") (boolean (text_eq active (codes "yes"))) end)))

-- An active service, and one that is no more, with the same id.
abbrev pub file : Json
file = object (
    member (codes "schema") (string (codes "aegis.service-registry.v1")) (
      member (codes "registry_version") (integer (pos 1)) (
        member (codes "network")
          (object (
            member (codes "passphrase") (string (codes "Test"))
              (member (codes "contract_id") (string contract) end)))
          (member (codes "asset")
            (object (
              member (codes "code") (string (codes "USDC")) (
                member (codes "issuer") (string account)
                  (member (codes "sac") (string contract) end))))
            (member (codes "executor") (object (member (codes "account_id") (string account) end)) (
              member (codes "services")
                (array (
                  cons (listed (codes "api") account (codes "no"))
                    (cons (listed (codes "api") account (codes "yes")) nil)))
                end))))))

abbrev pub loaded : ServiceRegistry
loaded = record {
  network_passphrase = codes "Test";
  contract_id = contract;
  executor_account = account;
  asset = record { code = codes "USDC"; issuer = account; sac = contract };
  destinations = (codes "api", account) ∷ [];
}

-- The entry that is not active is no payee.
loads : load_registry (ok file) ≡ ok loaded
unfolding load_registry value_at text_eq add_services all
loads = refl

-- An id that is listed twice among the active services is refused.
refuses_twice :
    add_services [] (
      cons
        (listed (codes "api") account (codes "yes"))
        (cons (listed (codes "api") account (codes "yes")) nil))
    ≡ err (settlement registry_invalid)
unfolding add_services value_at text_eq all
refuses_twice = refl
