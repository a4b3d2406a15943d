-- ===== src/Escrow/Custody/Trace.antt =====
-- The custody store over any sequence of operations.
use mathlib.Core.List.{append-nil, append_assoc}
use Prim.Native.String.{String}
use chainsettle_contract.Base.{
  ℕ, ◌≤◌, ◌≡◌, refl, sym, ap, ◌∙◌, inl, inr, Bool, false, not, ◌&&◌, ◌||◌, Option, none, List, [],
  ◌∷◌, ◌++◌, arith, ltb, leb, ◌==◌, if◌then◌else◌, leb→gt, Bool-cases, length, length-append,
}
use chainsettle_contract.Base.Dict.{get, insert, erase, get-insert, get-erase}
use chainsettle_contract.Base.Result.{Result, ok, Post, Post-panic_if, Post-ok}
use chainsettle_contract.Escrow.Custody.{
  HandoffType, CustodyHandoff, CustodyStore, get_custody_log, get_max_entries, put_log,
  record_handoff_full, get_custody_log_count, set_max_entries, clear_custody_log,
}
use chainsettle_contract.Escrow.Custody.Record.{get_custody_log-put_log}
use chainsettle_contract.Escrow.Host.{Ledger}

pub data CustodyCall : Type 0 where
  hand_over : ℕ → ℕ → ℕ → HandoffType → Option ℕ → Option String → Option String → CustodyCall
  limit_to : ℕ → CustodyCall
  wipe : ℕ → ℕ → CustodyCall

abbrev pub custody_call : Ledger → CustodyCall → CustodyStore → Result CustodyStore
custody_call env (hand_over id index custodian kind evidence location notes) s =
    record_handoff_full env id index custodian kind evidence location notes s
custody_call env (limit_to n) s = set_max_entries n s
custody_call env (wipe id index) s = ok (clear_custody_log id index s)

-- The stores that successful calls lead to from a store, each at any ledger, with any signatures and
-- of a kind that is allowed.
pub data Leads {ℓ} (Allowed : CustodyCall → Type ℓ) (s : CustodyStore) : CustodyStore → Type ℓ where
  no_calls : Leads Allowed s s
  one_more :
      {t t' : CustodyStore} (env : Ledger) (c : CustodyCall)
      → Leads Allowed s t
      → Allowed c
      → custody_call env c t ≡ ok t'
      → Leads Allowed s t'

abbrev pub no_custody : CustodyStore
no_custody = record { logs = []; max_entries = none }

-- A limit between 1 and 200, and no log above 200.
pub record IsBounded (s : CustodyStore) : Type 0 where
  pub some_room : 1 ≤ get_max_entries s
  pub limited : get_max_entries s ≤ 200
  pub fits : (id index : ℕ) → get_custody_log_count s id index ≤ 200

-- The log of one milestone is the beginning of its log afterwards.
abbrev pub IsExtended : ℕ → ℕ → CustodyStore → CustodyStore → Type 0
IsExtended id index s s' =
    (added : List CustodyHandoff) × (get_custody_log s' id index
      ≡ get_custody_log s id index ++ added)

abbrev is_wipe : CustodyCall → ℕ → ℕ → Bool
is_wipe (wipe i j) id index = (i == id) && (j == index)
is_wipe _ id index = false

get_custody_log-clear_custody_log :
    (id index : ℕ) (s : CustodyStore) (i j : ℕ)
    → get_custody_log (clear_custody_log id index s) i j ≡ (
        if i == id
        then (if j == index then [] else get_custody_log s i j)
        else get_custody_log s i j)
get_custody_log-clear_custody_log id index s i j =
    let at_id : get [] i (insert id (erase index (get [] id s.logs)) s.logs)
        ≡ (if i == id then erase index (get [] id s.logs) else get [] i s.logs) =
      get-insert [] i id (erase index (get [] id s.logs)) s.logs in
    rw at_id (elim (Bool-cases (i == id)) [
      | inl e ↦
          let same : i ≡ id = ground arith in rw (e, same) (get-erase [] j index (get [] id s.logs))
      | inr e ↦ rw e refl
    ])

put_log-IsBounded :
    (id index : ℕ) (log : List CustodyHandoff) (s : CustodyStore)
    → length log ≤ 200
    → IsBounded s
    → IsBounded (put_log s id index log)
put_log-IsBounded id index log s h b = record {
  some_room = b.some_room;
  limited = b.limited;
  fits = λ i j. ground (arith, get_custody_log-put_log id index log s i j, b.fits i j);
}

clear_custody_log-IsBounded :
    (id index : ℕ) (s : CustodyStore) → IsBounded s → IsBounded (clear_custody_log id index s)
clear_custody_log-IsBounded id index s b = record {
  some_room = b.some_room;
  limited = b.limited;
  fits = λ i j. ground (arith, get_custody_log-clear_custody_log id index s i j, b.fits i j);
}

handoff_fits :
    (xs : List CustodyHandoff) (x : CustodyHandoff) (most : ℕ)
    → leb most (length xs) ≡ false
    → most ≤ 200
    → length (xs ++ x ∷ []) ≤ 200
handoff_fits xs x most h k = omega (arith, leb→gt most (length xs) h, length-append xs (x ∷ []))

custody_call-IsBounded :
    (env : Ledger) (c : CustodyCall) (s : CustodyStore)
    → IsBounded s
    → Post (custody_call env c s) IsBounded
unfolding record_handoff_full set_max_entries
custody_call-IsBounded env (hand_over id index custodian kind evidence location notes) s b =
    Post-panic_if _ (not (env.approved custodian)) "not authorized" _ λ _.
      Post-panic_if _ (leb (get_max_entries s) (length (get_custody_log s id index)))
        "custody log full" _
        λ room.
          put_log-IsBounded id index _ s
            (handoff_fits (get_custody_log s id index) _ (get_max_entries s) room b.limited) b
custody_call-IsBounded env (limit_to n) s b =
    Post-panic_if _ ((n == 0) || ltb 200 n) "max_entries must be between 1 and 200" _
      λ h. record { some_room = ground arith; limited = ground arith; fits = b.fits }
custody_call-IsBounded env (wipe id index) s b = clear_custody_log-IsBounded id index s b

-- From an empty store, any successful calls leave a limit between 1 and 200, and at most 200 entries
-- in every log, whatever limits were set and however often.
pub Leads-IsBounded : (s : CustodyStore) → Leads (λ _. Unit {0}) no_custody s → IsBounded s
Leads-IsBounded s no_calls = record {
  some_room = omega arith;
  limited = omega arith;
  fits = λ i j. omega arith;
}
Leads-IsBounded s (one_more env c before _ e) =
    Post-ok IsBounded e (custody_call-IsBounded env c _ (Leads-IsBounded _ before))

put_log-IsExtended :
    (i j : ℕ) (added : List CustodyHandoff) (s : CustodyStore) (id index : ℕ)
    → IsExtended id index s (put_log s i j (get_custody_log s i j ++ added))
put_log-IsExtended i j added s id index =
    let e : get_custody_log (put_log s i j (get_custody_log s i j ++ added)) id index ≡ (
        if id == i
        then (if index == j then get_custody_log s i j ++ added else get_custody_log s id index)
        else get_custody_log s id index) =
      get_custody_log-put_log i j (get_custody_log s i j ++ added) s id index in
    elim (Bool-cases ((id == i) && (index == j))) [
      | inl both ↦
          let same_id : id ≡ i = ground arith in
          let same_index : index ≡ j = ground arith in
          let same : get_custody_log (put_log s i j (get_custody_log s i j ++ added)) i j
              ≡ get_custody_log s i j ++ added =
            ground (arith, get_custody_log-put_log i j (get_custody_log s i j ++ added) s i j) in
          (added, rw (same_id, same_index) same)
      | inr apart ↦ ([], ground (arith, e, append-nil (get_custody_log s id index)))
    ]

custody_call-IsExtended :
    (env : Ledger) (c : CustodyCall) (s : CustodyStore) (id index : ℕ)
    → is_wipe c id index ≡ false
    → Post (custody_call env c s) (IsExtended id index s)
unfolding record_handoff_full set_max_entries
custody_call-IsExtended env (hand_over i j custodian kind evidence location notes) s id index h =
    Post-panic_if _ (not (env.approved custodian)) "not authorized" _ λ _.
      Post-panic_if _ (leb (get_max_entries s) (length (get_custody_log s i j))) "custody log full"
        _ λ room. put_log-IsExtended i j _ s id index
custody_call-IsExtended env (limit_to n) s id index h =
    Post-panic_if _ ((n == 0) || ltb 200 n) "max_entries must be between 1 and 200" _
      λ _. ([], sym (append-nil (get_custody_log s id index)))
custody_call-IsExtended env (wipe i j) s id index h =
    let kept : get_custody_log (clear_custody_log i j s) id index ≡ get_custody_log s id index =
      ground (arith, get_custody_log-clear_custody_log i j s id index) in
    ([], kept ∙ sym (append-nil (get_custody_log s id index)))

-- Successful calls that do not clear the log of a milestone leave its entries where they are, in
-- order, and add at the end only.
pub Leads-IsExtended :
    (id index : ℕ) (s s' : CustodyStore)
    → Leads (λ c. is_wipe c id index ≡ false) s s'
    → IsExtended id index s s'
Leads-IsExtended id index s _ no_calls = ([], sym (append-nil (get_custody_log s id index)))
Leads-IsExtended id index s _ (one_more {t} {t'} env c before h e) =
    let (first, p) = Leads-IsExtended id index s t before in
    let (added, q) =
      Post-ok (IsExtended id index t) e (custody_call-IsExtended env c t id index h) in
    (
      first ++ added,
      q ∙ ap (λ xs. xs ++ added) p ∙ append_assoc (get_custody_log s id index) first added,
    )
