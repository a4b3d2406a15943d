-- ===== src/Escrow/Custody/Pages.antt =====
-- Reading a custody log page by page.
use chainsettle_contract.Base.{
  ℕ, zero, suc, ◌+◌, ◌-◌, ◌*◌, ◌≤◌, ◌<◌, min, ◌≡◌, refl, sym, ap, ◌∙◌, subst, true, false, List, [],
  ◌∷◌, ◌++◌, arith, leb, length,
}
use chainsettle_contract.Base.Int.{u32_max}
use chainsettle_contract.Base.Result.{Result, ok, panic, or_panic, checked_u32, ◌>>=◌}
use chainsettle_contract.Escrow.Custody.{
  CustodyHandoff, CustodyStore, get_custody_log, copy_entries, get_custody_log_paginated,
  get_custody_log_count,
}

module _ {ℓ} {A : Type ℓ} where
  abbrev take : ℕ → List A → List A
  take zero xs = []
  take (suc n) [] = []
  take (suc n) (x ∷ xs) = x ∷ take n xs

  abbrev drop : ℕ → List A → List A
  drop zero xs = xs
  drop (suc n) [] = []
  drop (suc n) (x ∷ xs) = drop n xs

  take_nil : (n : ℕ) → take n [] ≡ []
  take_nil zero = refl
  take_nil (suc n) = refl

  drop_nil : (n : ℕ) → drop n [] ≡ []
  drop_nil zero = refl
  drop_nil (suc n) = refl

  take-drop_append : (n : ℕ) (xs : List A) → take n xs ++ drop n xs ≡ xs
  take-drop_append zero xs = refl
  take-drop_append (suc n) [] = refl
  take-drop_append (suc n) (x ∷ xs) = rw (take-drop_append n xs) refl

  drop-drop : (m n : ℕ) (xs : List A) → drop m (drop n xs) ≡ drop (n + m) xs
  drop-drop m n [] = rw (drop_nil n, drop_nil m, drop_nil (n + m)) refl
  drop-drop m zero (x ∷ xs) = let e : 0 + m ≡ m = omega arith in rw e refl
  drop-drop m (suc n) (x ∷ xs) =
      let e : suc n + m ≡ suc (n + m) = omega arith in rw e (drop-drop m n xs)

  drop_past : (n : ℕ) (xs : List A) → length xs ≤ n → drop n xs ≡ []
  drop_past n [] h = drop_nil n
  drop_past zero (x ∷ xs) h = absurd (omega arith)
  drop_past (suc n) (x ∷ xs) h = drop_past n xs (omega (arith, h))

copy_entries_tail :
    (x : CustodyHandoff) (xs : List CustodyHandoff) (i n : ℕ)
    → copy_entries (x ∷ xs) (suc i) n ≡ copy_entries xs i n
unfolding copy_entries
copy_entries_tail x xs i zero = refl
copy_entries_tail x xs i (suc n) = rw (copy_entries_tail x xs (suc i) n) refl

-- The entries between the two bounds are those of the page.
copy_entries-page :
    (log : List CustodyHandoff) (offset limit : ℕ)
    → copy_entries log
        (min offset (length log))
        (min (offset + limit) (length log) - min offset (length log))
      ≡ ok (take limit (drop offset log))
unfolding copy_entries or_panic
copy_entries-page [] offset limit =
    let e : min (offset + limit) 0 - min offset 0 ≡ 0 = omega arith in
    rw (e, drop_nil offset, take_nil limit) refl
copy_entries-page (x ∷ xs) zero zero =
    let e : min (0 + 0) (suc (length xs)) - min 0 (suc (length xs)) ≡ 0 = omega arith in rw e refl
copy_entries-page (x ∷ xs) zero (suc limit) =
    let e : min (0 + suc limit) (suc (length xs)) - min 0 (suc (length xs))
        ≡ suc (min (0 + limit) (length xs) - min 0 (length xs)) =
      omega arith in
    let z : min 0 (suc (length xs)) ≡ 0 = omega arith in
    let z' : min 0 (length xs) ≡ 0 = omega arith in
    let n : ℕ = min (0 + limit) (length xs) - min 0 (length xs) in
    let ih : copy_entries xs 0 n ≡ ok (take limit xs) =
      subst (λ i. copy_entries xs i n ≡ ok (take limit xs)) z' (copy_entries-page xs 0 limit) in
    rw (e, z, copy_entries_tail x xs 0 n, ih) refl
copy_entries-page (x ∷ xs) (suc offset) limit =
    let e : min (suc offset + limit) (suc (length xs)) - min (suc offset) (suc (length xs))
        ≡ min (offset + limit) (length xs) - min offset (length xs) =
      omega arith in
    let f : min (suc offset) (suc (length xs)) ≡ suc (min offset (length xs)) = omega arith in
    rw
      (
        e,
        f,
        copy_entries_tail x xs (min offset (length xs))
            (min (offset + limit) (length xs) - min offset (length xs)),
      )
      (copy_entries-page xs offset limit)

-- A page whose end is a number of 32 bits holds the entries of the log after `offset`, at most
-- `limit` of them; any other page panics, however short the log is.
get_custody_log_paginated_cases :
    (s : CustodyStore) (id index offset limit : ℕ)
    → (offset + limit ≤ u32_max
        → get_custody_log_paginated s id index offset limit
          ≡ ok (take limit (drop offset (get_custody_log s id index))))
      × (u32_max < offset + limit
          → get_custody_log_paginated s id index offset limit ≡ panic "overflow")
unfolding get_custody_log_paginated checked_u32
get_custody_log_paginated_cases s id index offset limit = (
  λ h.
      let e : leb (offset + limit) u32_max ≡ true = ground arith in
      rw e (copy_entries-page (get_custody_log s id index) offset limit),
  λ h. let e : leb (offset + limit) u32_max ≡ false = ground arith in rw e refl,
)

-- A client's reading of `count` pages of `size` entries each, from page `first` on.
abbrev pub read_pages : CustodyStore → ℕ → ℕ → ℕ → ℕ → ℕ → Result (List CustodyHandoff)
read_pages s id index size first zero = ok []
read_pages s id index size first (suc count) = do
  page ← get_custody_log_paginated s id index (first * size) size
  rest ← read_pages s id index size (suc first) count
  ok (page ++ rest)

read_pages-rest :
    (s : CustodyStore) (id index size first count : ℕ)
    → (first + count) * size ≤ u32_max
    → get_custody_log_count s id index ≤ (first + count) * size
    → read_pages s id index size first count ≡ ok (drop (first * size) (get_custody_log s id index))
read_pages-rest s id index size first zero h k =
    rw (drop_past (first * size) (get_custody_log s id index) (grind arith)) refl
read_pages-rest s id index size first (suc count) h k =
    let log : List CustodyHandoff = get_custody_log s id index in
    let page : get_custody_log_paginated s id index (first * size) size
        ≡ ok (take size (drop (first * size) log)) =
      (get_custody_log_paginated_cases s id index (first * size) size).0 (grind arith) in
    let whole : take size (drop (first * size) log) ++ drop (suc first * size) log
        ≡ drop (first * size) log =
      let e : suc first * size ≡ first * size + size = grind arith in
      rw (e, sym (drop-drop size (first * size) log))
        (take-drop_append size (drop (first * size) log)) in
    rw (page, read_pages-rest s id index size (suc first) count (grind arith) (grind arith), whole)
      refl

-- Reading a milestone's log page by page, from the first page, gives back the whole log, in order,
-- when the pages have room for it and the end of the last one is a number of 32 bits.
pub read_pages_whole :
    (s : CustodyStore) (id index size count : ℕ)
    → count * size ≤ u32_max
    → get_custody_log_count s id index ≤ count * size
    → read_pages s id index size 0 count ≡ ok (get_custody_log s id index)
read_pages_whole s id index size count h k =
    let e : drop (0 * size) (get_custody_log s id index) ≡ get_custody_log s id index =
      let z : 0 * size ≡ 0 = grind arith in rw z refl in
    read_pages-rest s id index size 0 count (grind arith) (grind arith) ∙ ap ok e
