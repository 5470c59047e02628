-- ===== src/Verifier/Alone.antt =====
-- What the replay scan says of a verified settlement.
use aegis_phase.Prelude.{
  ◌≡◌, true, some, List, [], ◌∷◌, ◌++◌, Text, text_eq, text_eq_iff, any, All, arith,
}
use mathlib.Core.List.{Memᴰ}
use mathlib.Core.Path.{subst}
use aegis_phase.Verifier.Sources.{
  service_of, HorizonTransaction, Receipt, ServiceRegistry, CliOptions, Sources,
}
use aegis_phase.Verifier.Scan.{first_url, carries, distinct}
use aegis_phase.Verifier.Verify.{LedgerRead, ChainRead, resolve, listed}
use aegis_phase.Verifier.Sound.{Settlement}
use aegis_phase.Verifier.ScanFacts.{History, Has, Covered, scan_for_memo-Covered}

Has-one : (h t : Text) → Has h (t ∷ []) → h ≡ t
unfolding any
Has-one h t k = let e : text_eq h t ≡ true = ground arith in (text_eq_iff h t).0 e

module _ (s : Sources) (memo : Text) where
  -- In the whole history of an account, one transaction carries the memo at most.
  abbrev pub OnlyBy : Text → Text → Text → Type 0
  OnlyBy horizon hash account =
      (txs : List HorizonTransaction) × History s (first_url horizon account) txs
      × ((tx : HorizonTransaction) → Memᴰ tx txs → carries memo tx ≡ true → tx.hash ≡ hash)

  Covered-OnlyBy :
      (horizon hash : Text) (accounts : List Text)
      → All (Covered s memo horizon (hash ∷ [])) accounts
      → All (OnlyBy horizon hash) accounts
  Covered-OnlyBy horizon hash [] h = tt
  Covered-OnlyBy horizon hash (account ∷ rest) ((txs, behind, got), h) = (
    (txs, behind, λ tx m c. Has-one tx.hash hash (got tx m c)),
    Covered-OnlyBy horizon hash rest h,
  )

-- For a verified settlement, every successful transaction that carries its memo, in the whole
-- history of each account that was scanned, is the transaction that was verified; the accounts
-- scanned are those of the payer and the payee, on the ledger and in the registry.
pub Settlement-OnlyBy :
    (s : Sources) (options : CliOptions) (receipt : Receipt) (ledger : LedgerRead)
    (chain : ChainRead) (registry : ServiceRegistry)
    (found : Settlement s options receipt ledger chain registry)
    → (found.scan.accounts
        ≡ distinct [] (
            found.on_ledger.tx.source_account
            ∷ (listed found.on_ledger.payment.to
                ++ (listed (service_of registry found.on_chain.decision.service_id)
                    ++ listed registry.executor))))
      × All
          (OnlyBy s
            (s.to_base64 found.on_ledger.memo)
            (resolve s options receipt (some registry)).horizon
            options.tx)
          found.scan.accounts
Settlement-OnlyBy s options receipt ledger chain registry found =
    let horizon = (resolve s options receipt (some registry)).horizon in
    let memo = s.to_base64 found.on_ledger.memo in
    let (accounts, covered) =
      scan_for_memo-Covered s memo horizon _ found.scan found.scanned found.exhaustive in
    (
      accounts,
      Covered-OnlyBy s memo horizon options.tx found.scan.accounts (
          subst (λ hashes. All (Covered s memo horizon hashes) found.scan.accounts) found.alone
            covered),
    )
