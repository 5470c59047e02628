-- ===== src/Receipt/Valid.antt =====
-- What a receipt is, apart from how packages/receipt/src/validate.ts tests it.
use aegis_phase.Prelude.{
  ℕ, ◌*◌, ◌≤◌, ◌≡◌, ◌≢◌, ◌⊎◌, Option, some, [], ◌∷◌, ◌++◌, Text, codes, length, All,
}
use aegis_phase.Verifier.Sources.{ReceiptNetwork, ReceiptChain, ReceiptSettlement, Receipt}

abbrev pub Within : ℕ → ℕ → ℕ → Type 0
Within low high c = (low ≤ c) × (c ≤ high)

-- A lower-case hexadecimal digit.
abbrev pub LowerHex : ℕ → Type 0
LowerHex c = Within b'0' b'9' c ⊎ Within b'a' b'f' c

abbrev pub Base32 : ℕ → Type 0
Base32 c = Within b'A' b'Z' c ⊎ Within b'2' b'7' c

abbrev pub Alphanumeric : ℕ → Type 0
Alphanumeric c = Within b'A' b'Z' c ⊎ (Within b'a' b'z' c ⊎ Within b'0' b'9' c)

-- The lower-case hexadecimal text of so many bytes.
abbrev pub IsHex : ℕ → Text → Type 0
IsHex bytes s = (length s ≡ bytes * 2) × All LowerHex s

abbrev pub StartsWith : ℕ → Text → Type 0
StartsWith c s = (rest : Text) × (s ≡ c ∷ rest)

abbrev pub IsStrkey : ℕ → Text → Type 0
IsStrkey c s = (length s ≡ 56) × All Base32 s × StartsWith c s

-- Decimal digits, the first of them not 0: the numeral of a positive integer.
abbrev pub IsAmount : Text → Type 0
IsAmount s =
    (c : ℕ) × (rest : Text) × (s ≡ c ∷ rest) × Within b'1' b'9' c × All (Within b'0' b'9') rest

-- `CODE:ISSUER`.
abbrev pub IsAsset : Text → Type 0
IsAsset s =
    (code : Text) × (issuer : Text) × (s ≡ code ++ (b':' ∷ issuer))
    × (1 ≤ length code)
    × (length code ≤ 12)
    × All Alphanumeric code
    × IsStrkey b'G' issuer

pub record IsChain (c : ReceiptChain) : Type 0 where
  pub decision_id : IsHex 32 c.decision_id
  pub intent_hash : IsHex 32 c.intent_hash
  pub policy_version : c.policy_version ≤ 0xffffffff
  pub agent : IsStrkey b'G' c.agent ⊎ IsStrkey b'C' c.agent
  pub service_id : c.service_id ≢ []
  pub asset : IsStrkey b'C' c.asset
  pub amount : IsAmount c.amount

pub record IsSettlement (s : ReceiptSettlement) : Type 0 where
  pub tx_hash : IsHex 32 s.tx_hash
  pub memo_hash : IsHex 32 s.memo_hash
  pub memo_preimage : IsHex 68 s.memo_preimage
  pub source : IsStrkey b'G' s.source
  pub destination : IsStrkey b'G' s.destination
  pub asset : IsAsset s.asset

module _ (protocol : Text → Option Text) where
  abbrev pub IsUrl : Text → Type 0
  IsUrl s = (s ≢ []) × ((protocol s ≡ some (codes "http:")) ⊎ (protocol s ≡ some (codes "https:")))

  pub record IsNetwork (n : ReceiptNetwork) : Type 0 where
    pub passphrase : n.passphrase ≢ []
    pub contract_id : IsStrkey b'C' n.contract_id
    pub horizon : IsUrl n.horizon
    pub rpc : IsUrl n.rpc

  pub record IsReceipt (r : Receipt) : Type 0 where
    pub network : IsNetwork r.network
    pub chain : IsChain r.chain
    pub settlement : IsSettlement r.settlement
