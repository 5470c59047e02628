-- ===== src/Verifier/ScanFacts.antt =====
-- What a scan has seen: the histories of the accounts that it lists.
use aegis_phase.Prelude.{
  ℕ, zero, suc, ◌≡◌, refl, sym, ap, ◌∙◌, Bool, true, false, ◌||◌, Option, none, some, List, [], ◌∷◌,
  ◌++◌, Text, text_eq, text_eq_refl, any, length, ltb, if◌then◌else◌, All, arith, and-true,
}
use mathlib.Core.List.{Memᴰ}
use mathlib.Core.Path.{subst}
use aegis_phase.Prelude.Result.{Result, ok, err, >>=-eq-ok, ok-injective}
use aegis_phase.Verifier.Sources.{HorizonTransaction, MemoScan, Outage, Page, Sources}
use aegis_phase.Verifier.Scan.{
  page_size, max_pages, add, insert, sort, text_leb, first_url, carries, collect, follow, visit,
  walk, walk_accounts, scan_for_memo, distinct,
}

-- The transactions behind an address, page after page.
pub data History (s : Sources) : Text → List HorizonTransaction → Type 0 where
  missing : {url : Text} → s.fetch_page url ≡ ok none → History s url []
  short_page :
      {url : Text} {page : Page}
      → s.fetch_page url ≡ ok (some page)
      → ltb (length page.records) page_size ≡ true
      → History s url page.records
  last_page :
      {url : Text} {page : Page}
      → s.fetch_page url ≡ ok (some page)
      → page.next ≡ none
      → History s url page.records
  further :
      {url href : Text} {page : Page} {rest : List HorizonTransaction}
      → s.fetch_page url ≡ ok (some page)
      → page.next ≡ some href
      → History s href rest
      → History s url (page.records ++ rest)

collect-append :
    (memo : Text) (a b : List HorizonTransaction) (seen : List Text)
    → collect memo (a ++ b) seen ≡ collect memo b (collect memo a seen)
collect-append memo [] b seen = refl
collect-append memo (tx ∷ a) b seen = collect-append memo a b _

abbrev pub Has : Text → List Text → Type 0
Has h hashes = any (text_eq h) hashes ≡ true

test-Has :
    (b : Bool) (h t : Text) (seen : List Text) → Has h seen → Has h (if b then seen else t ∷ seen)
unfolding any
test-Has true h t seen k = k
test-Has false h t seen k = ground arith

add-Has : (h t : Text) (seen : List Text) → Has h seen → Has h (add t seen)
add-Has h t seen k = test-Has (any (text_eq t) seen) h t seen k

test-Has_new :
    (b : Bool) (t : Text) (seen : List Text)
    → any (text_eq t) seen ≡ b
    → Has t (if b then seen else t ∷ seen)
unfolding any
test-Has_new true t seen e = e
test-Has_new false t seen e = rw (text_eq_refl t) refl

add-Has_new : (t : Text) (seen : List Text) → Has t (add t seen)
add-Has_new t seen = test-Has_new _ t seen refl

step-Has :
    (b : Bool) (h t : Text) (seen : List Text) → Has h seen → Has h (if b then add t seen else seen)
step-Has true h t seen k = add-Has h t seen k
step-Has false h t seen k = k

collect-Has :
    (memo h : Text) (txs : List HorizonTransaction) (seen : List Text)
    → Has h seen
    → Has h (collect memo txs seen)
collect-Has memo h [] seen k = k
collect-Has memo h (tx ∷ txs) seen k =
    collect-Has memo h txs _ (step-Has (carries memo tx) h tx.hash seen k)

collect-Has_member :
    (memo : Text) (tx : HorizonTransaction) (txs : List HorizonTransaction) (seen : List Text)
    → Memᴰ tx txs
    → carries memo tx ≡ true
    → Has tx.hash (collect memo txs seen)
collect-Has_member memo tx [] seen m c = elim m [ ]
collect-Has_member memo tx (t ∷ txs) seen (Memᴰ.head e) c =
    subst
      (λ (q : HorizonTransaction).
        Has tx.hash (collect memo txs (if carries memo q then add q.hash seen else seen)))
      e (rw c (collect-Has memo tx.hash txs _ (add-Has_new tx.hash seen)))
collect-Has_member memo tx (t ∷ txs) seen (Memᴰ.tail m) c = collect-Has_member memo tx txs _ m c

or-swap : (a b c : Bool) → (a || (b || c)) ≡ (b || (a || c))
or-swap a b c = ground arith

test-Has_insert :
    (b : Bool) (h t x : Text) (xs more : List Text)
    → any (text_eq h) more ≡ (text_eq h t || any (text_eq h) xs)
    → any (text_eq h) (if b then t ∷ x ∷ xs else x ∷ more)
      ≡ (text_eq h t || (text_eq h x || any (text_eq h) xs))
unfolding any
test-Has_insert true h t x xs more e = refl
test-Has_insert false h t x xs more e = rw e (or-swap (text_eq h x) (text_eq h t) _)

insert-Has :
    (h t : Text) (xs : List Text)
    → any (text_eq h) (insert t xs) ≡ (text_eq h t || any (text_eq h) xs)
unfolding any
insert-Has h t [] = refl
insert-Has h t (x ∷ xs) = test-Has_insert (text_leb t x) h t x xs (insert t xs) (insert-Has h t xs)

sort-Has : (h : Text) (xs : List Text) → any (text_eq h) (sort xs) ≡ any (text_eq h) xs
unfolding any
sort-Has h [] = refl
sort-Has h (x ∷ xs) = insert-Has h x (sort xs) ∙ ap (λ b. text_eq h x || b) (sort-Has h xs)

ok-pair :
    (xs ys : List Text) (b : Bool)
    → xs ≡ ys
    → b ≡ true
    → ◌≡◌ {A = Result Outage (List Text × Bool)} (ok (xs, b)) (ok (ys, true))
ok-pair xs ys b e h = rw (e, h) refl

module _ (s : Sources) (memo : Text) where
  -- What a walk that ran out of pages has collected.
  abbrev Walked : Text → List Text → List Text → Type 0
  Walked url seen hashes =
      (txs : List HorizonTransaction) × History s url txs × (collect memo txs seen ≡ hashes)

  turn-Walked :
      (n : ℕ) (url : Text) (page : Page) (seen hashes : List Text) (b : Bool) (o : Option Text)
      → ((href : Text) (from : List Text)
          → walk s memo n href from ≡ ok (hashes, true)
          → Walked href from hashes)
      → s.fetch_page url ≡ ok (some page)
      → ltb (length page.records) page_size ≡ b
      → page.next ≡ o
      → (if b
          then ok (collect memo page.records seen, true)
          else follow s memo o (collect memo page.records seen) (walk s memo n))
        ≡ ok (hashes, true)
      → Walked url seen hashes
  turn-Walked n url page seen hashes true o onwards f e q h =
      (page.records, History.short_page f e, ap (λ (x : List Text × Bool). x.0) (ok-injective h))
  turn-Walked n url page seen hashes false none onwards f e q h =
      (page.records, History.last_page f q, ap (λ (x : List Text × Bool). x.0) (ok-injective h))
  turn-Walked n url page seen hashes false (some href) onwards f e q h =
      let (rest, behind, same) = onwards href _ h in
      (
        page.records ++ rest,
        History.further f q behind,
        collect-append memo page.records rest seen ∙ same,
      )

  visit-Walked :
      (n : ℕ) (url : Text) (seen hashes : List Text) (r : Result Outage (Option Page))
      → ((href : Text) (from : List Text)
          → walk s memo n href from ≡ ok (hashes, true)
          → Walked href from hashes)
      → s.fetch_page url ≡ r
      → visit s memo r seen (walk s memo n) ≡ ok (hashes, true)
      → Walked url seen hashes
  visit-Walked n url seen hashes (err e) onwards f h = cc
  visit-Walked n url seen hashes (ok none) onwards f h =
      ([], History.missing f, ap (λ (x : List Text × Bool). x.0) (ok-injective h))
  visit-Walked n url seen hashes (ok (some page)) onwards f h =
      turn-Walked n url page seen hashes _ _ onwards f refl refl h

  walk-Walked :
      (n : ℕ) (url : Text) (seen hashes : List Text)
      → walk s memo n url seen ≡ ok (hashes, true)
      → Walked url seen hashes
  walk-Walked zero url seen hashes h =
      let e : false ≡ true = ap (λ (x : List Text × Bool). x.1) (ok-injective h) in
      absurd (ground arith)
  walk-Walked (suc n) url seen hashes h =
      visit-Walked n url seen hashes _ (λ href from. walk-Walked n href from hashes) refl h

  -- The history of an account was seen to its end, and what carries the memo was collected.
  abbrev pub Covered : Text → List Text → Text → Type 0
  Covered horizon hashes account =
      (txs : List HorizonTransaction) × History s (first_url horizon account) txs
      × ((tx : HorizonTransaction) → Memᴰ tx txs → carries memo tx ≡ true → Has tx.hash hashes)

  walk_accounts-Covered :
      (horizon : Text) (accounts seen hashes : List Text)
      → walk_accounts s memo horizon accounts seen ≡ ok (hashes, true)
      → ((h : Text) → Has h seen → Has h hashes) × All (Covered horizon hashes) accounts
  walk_accounts-Covered horizon [] seen hashes e =
      let same : seen ≡ hashes = ap (λ (x : List Text × Bool). x.0) (ok-injective e) in
      (λ h k. subst (Has h) same k, tt)
  walk_accounts-Covered horizon (account ∷ rest) seen hashes e =
      let ((mid, done), w, r1) =
        >>=-eq-ok (walk s memo max_pages (first_url horizon account) seen) _ e in
      let ((end, all_done), v, r2) = >>=-eq-ok (walk_accounts s memo horizon rest mid) _ r1 in
      let (d, ds) = and-true done all_done (ap (λ (x : List Text × Bool). x.1) (ok-injective r2)) in
      let same : end ≡ hashes = ap (λ (x : List Text × Bool). x.0) (ok-injective r2) in
      let (txs, behind, got) = walk-Walked max_pages _ seen mid (w ∙ ok-pair mid mid done refl d) in
      let (keep, others) =
        walk_accounts-Covered horizon rest mid hashes (v ∙ ok-pair end hashes all_done same ds) in
      (
        λ h k. keep h (subst (Has h) got (collect-Has memo h txs seen k)),
        (
          (
            txs,
            behind,
            λ tx m c.
                keep tx.hash (subst (Has tx.hash) got (collect-Has_member memo tx txs seen m c)),
          ),
          others,
        ),
      )

  Covered-sort :
      (horizon : Text) (hashes : List Text) (accounts : List Text)
      → All (Covered horizon hashes) accounts
      → All (Covered horizon (sort hashes)) accounts
  Covered-sort horizon hashes [] h = tt
  Covered-sort horizon hashes (account ∷ rest) ((txs, behind, all_in), h) = (
    (txs, behind, λ tx m c. sort-Has tx.hash hashes ∙ all_in tx m c),
    Covered-sort horizon hashes rest h,
  )

  -- An exhaustive scan has seen the whole history of each account that it lists.
  pub scan_for_memo-Covered :
      (horizon : Text) (accounts : List Text) (scan : MemoScan)
      → scan_for_memo s horizon accounts memo ≡ ok scan
      → scan.exhaustive ≡ true
      → (scan.accounts ≡ distinct [] accounts) × All (Covered horizon scan.hashes) scan.accounts
  unfolding scan_for_memo
  scan_for_memo-Covered horizon accounts scan e x =
      let ((hashes, exhaustive), w, r) =
        >>=-eq-ok (walk_accounts s memo horizon (distinct [] accounts) []) _ e in
      let same : ◌≡◌ {A = MemoScan} _ scan = ok-injective r in
      let done : exhaustive ≡ true = ap (λ (q : MemoScan). q.exhaustive) same ∙ x in
      let (_, cover) =
        walk_accounts-Covered horizon (distinct [] accounts) [] hashes
          (w ∙ ok-pair hashes hashes exhaustive refl done) in
      (
        sym (ap (λ (q : MemoScan). q.accounts) same),
        subst (λ (q : MemoScan). All (Covered horizon q.hashes) q.accounts) same
            (Covered-sort horizon hashes _ cover),
      )
