-- ===== src/Verifier/Scan.antt =====
-- `scanForMemo` of tools/verifier/src/horizon.ts: the history of accounts, page by page.
use aegis_phase.Prelude.{
  ℕ, zero, suc, Bool, true, false, ◌&&◌, ◌||◌, Option, none, some, List, [], ◌∷◌, ◌++◌, Text, codes,
  text_eq, any, length, reverse, ◌==◌, ltb, if◌then◌else◌,
}
use aegis_phase.Prelude.Result.{Result, ok, err, ◌>>=◌}
use aegis_phase.Verifier.Sources.{HorizonTransaction, MemoScan, Outage, Page, Sources}

-- `PAGE` and `MAX_PAGES`.
abbrev pub page_size : ℕ
page_size = 200

abbrev pub max_pages : ℕ
max_pages = 25

-- `Set.prototype.add`.
abbrev pub add : Text → List Text → List Text
add t seen = if any (text_eq t) seen then seen else t ∷ seen

-- `new Set(accounts.filter((a) => a.length > 0))`, in the order of insertion.
abbrev pub distinct : List Text → List Text → List Text
distinct seen [] = []
distinct seen (a ∷ rest) =
    let known = distinct seen rest in
    let more = a ∷ distinct (a ∷ seen) rest in
    if length a == 0 || any (text_eq a) seen then known else more

abbrev pub text_leb : Text → Text → Bool
text_leb [] t = true
text_leb (x ∷ s) [] = false
text_leb (x ∷ s) (y ∷ t) = ltb x y || x == y && text_leb s t

abbrev pub insert : Text → List Text → List Text
insert t [] = t ∷ []
insert t (x ∷ xs) = let rest = insert t xs in if text_leb t x then t ∷ x ∷ xs else x ∷ rest

abbrev pub sort : List Text → List Text
sort [] = []
sort (x ∷ xs) = insert x (sort xs)

abbrev drop_slashes : Text → Text
drop_slashes [] = []
drop_slashes (c ∷ t) = let rest = drop_slashes t in if c == b'/' then rest else c ∷ t

-- `url.replace(/\/+$/, "")`.
abbrev base : Text → Text
base url = reverse (drop_slashes (reverse url))

abbrev pub first_url : Text → Text → Text
first_url horizon account =
    base horizon
    ++ (codes "/accounts/"
        ++ (account ++ codes "/transactions?limit=200&order=asc&include_failed=false"))

abbrev is_memo : Text → Option Text → Bool
is_memo memo none = false
is_memo memo (some m) = text_eq m memo

abbrev pub carries : Text → HorizonTransaction → Bool
carries memo tx = tx.successful && (text_eq tx.memo_type (codes "hash") && is_memo memo tx.memo)

abbrev pub collect : Text → List HorizonTransaction → List Text → List Text
collect memo [] seen = seen
collect memo (tx ∷ txs) seen = collect memo txs (if carries memo tx then add tx.hash seen else seen)

module _ (s : Sources) (memo : Text) where
  -- How the walk goes on from a page.
  abbrev pub follow :
      Option Text
      → List Text
      → (Text → List Text → Result Outage (List Text × Bool))
      → Result Outage (List Text × Bool)
  follow none seen next_page = ok (seen, true)
  follow (some href) seen next_page = next_page href seen

  abbrev pub turn :
      Page
      → List Text
      → (Text → List Text → Result Outage (List Text × Bool))
      → Result Outage (List Text × Bool)
  turn page seen next_page =
      if ltb (length page.records) page_size
      then ok (seen, true)
      else follow page.next seen next_page

  abbrev pub visit :
      Result Outage (Option Page)
      → List Text
      → (Text → List Text → Result Outage (List Text × Bool))
      → Result Outage (List Text × Bool)
  visit (err e) seen next_page = err e
  visit (ok none) seen next_page = ok (seen, true)
  visit (ok (some page)) seen next_page = turn page (collect memo page.records seen) next_page

  -- The pages of one account; false when the cap was hit before the history ran out.
  abbrev pub walk : ℕ → Text → List Text → Result Outage (List Text × Bool)
  walk zero url seen = ok (seen, false)
  walk (suc pages) url seen = visit (s.fetch_page url) seen (walk pages)

  abbrev pub walk_accounts : Text → List Text → List Text → Result Outage (List Text × Bool)
  walk_accounts horizon [] seen = ok (seen, true)
  walk_accounts horizon (account ∷ rest) seen = do
    (seen', done) ← walk max_pages (first_url horizon account) seen
    (last, all_done) ← walk_accounts horizon rest seen'
    ok (last, done && all_done)

-- `scanForMemo`.
unfoldable pub scan_for_memo : Sources → Text → List Text → Text → Result Outage MemoScan
scan_for_memo s horizon accounts memo =
    let walked = distinct [] accounts in
    do
      (hashes, exhaustive) ← walk_accounts s memo horizon walked []
      ok (record { hashes = sort hashes; accounts = walked; exhaustive = exhaustive })
