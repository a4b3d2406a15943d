-- ===== src/Escrow/Custody.antt =====
-- The custody log of a shipment's milestone (contracts/chainsetttle/src/custody_log.rs): who held
-- the goods, entry by entry.
pub mod Chain
pub mod Pages
pub mod Record
pub mod Trace
mod Tests
use Prim.Native.String.{String}
use mathlib.Core.Option
use chainsettle_contract.Base.{
  ℕ, zero, suc, ◌+◌, ◌-◌, min, Bool, true, false, not, ◌||◌, Option, none, some, List, [], ◌∷◌,
  ◌++◌, ltb, leb, ◌==◌, if◌then◌else◌, get_or, length, get_elem?,
}
use chainsettle_contract.Base.Dict.{Dict, get, insert, erase}
use chainsettle_contract.Base.Result.{Result, ok, ◌>>◌, panic_if, or_panic, checked_u32, ◌>>=◌}
use chainsettle_contract.Escrow.Host.{Ledger, require_signature}

pub data HandoffType : Type 0 where
  received transferred receipt_confirmed inspected cleared stored departed other : HandoffType

pub record CustodyHandoff : Type 0 where
  pub custodian : ℕ
  pub handoff_type : HandoffType
  pub evidence_hash : Option ℕ
  pub recorded_at : ℕ
  pub location : Option String
  pub notes : Option String

-- The keys `Log(shipment_id, milestone_index)`, by shipment and then by milestone, and `MaxEntries`.
pub record CustodyStore : Type 0 where
  pub logs : Dict (Dict (List CustodyHandoff))
  pub max_entries : Option ℕ

-- `DEFAULT_MAX_ENTRIES`
abbrev default_max_entries : ℕ
default_max_entries = 50

abbrev pub get_custody_log : CustodyStore → ℕ → ℕ → List CustodyHandoff
get_custody_log s shipment_id index = get [] index (get [] shipment_id s.logs)

abbrev pub get_max_entries : CustodyStore → ℕ
get_max_entries s = get_or s.max_entries default_max_entries

abbrev pub put_log : CustodyStore → ℕ → ℕ → List CustodyHandoff → CustodyStore
put_log s shipment_id index log = record s {
  logs = insert shipment_id (insert index log (get [] shipment_id s.logs)) s.logs;
}

pub record_handoff_full :
    Ledger
    → ℕ
    → ℕ
    → ℕ
    → HandoffType
    → Option ℕ
    → Option String
    → Option String
    → CustodyStore
    → Result CustodyStore
record_handoff_full env shipment_id index custodian kind evidence location notes s = do
  require_signature env custodian
  panic_if (leb (get_max_entries s) (length (get_custody_log s shipment_id index)))
      "custody log full"
  let entry : CustodyHandoff = record {
    custodian = custodian;
    handoff_type = kind;
    evidence_hash = evidence;
    recorded_at = env.sequence;
    location = location;
    notes = notes;
  }
  ok (put_log s shipment_id index (get_custody_log s shipment_id index ++ entry ∷ []))

abbrev record_handoff :
    Ledger → ℕ → ℕ → ℕ → HandoffType → Option ℕ → CustodyStore → Result CustodyStore
record_handoff env shipment_id index custodian kind evidence s =
    record_handoff_full env shipment_id index custodian kind evidence none none s

-- `for i in start..end`, with the number of entries that are left to copy.
pub copy_entries : List CustodyHandoff → ℕ → ℕ → Result (List CustodyHandoff)
copy_entries log i zero = ok []
copy_entries log i (suc left) = do
  entry ← or_panic (get_elem? log i) "index out of bounds"
  rest ← copy_entries log (suc i) left
  ok (entry ∷ rest)

pub get_custody_log_paginated : CustodyStore → ℕ → ℕ → ℕ → ℕ → Result (List CustodyHandoff)
get_custody_log_paginated s shipment_id index offset limit = do
  let full_log = get_custody_log s shipment_id index
  let start = min offset (length full_log)
  past ← checked_u32 (offset + limit)
  copy_entries full_log start (min past (length full_log) - start)

abbrev pub get_custody_log_count : CustodyStore → ℕ → ℕ → ℕ
get_custody_log_count s shipment_id index = length (get_custody_log s shipment_id index)

abbrev pub last_entry : List CustodyHandoff → Option CustodyHandoff
last_entry [] = none
last_entry (x ∷ xs) = get_elem? (x ∷ xs) (length xs)

abbrev pub get_latest_handoff : CustodyStore → ℕ → ℕ → Option CustodyHandoff
get_latest_handoff s shipment_id index = last_entry (get_custody_log s shipment_id index)

abbrev get_current_custodian : CustodyStore → ℕ → ℕ → Option ℕ
get_current_custodian s shipment_id index =
    Option.map (λ (h : CustodyHandoff). h.custodian) (get_latest_handoff s shipment_id index)

abbrev pub has_custodian : List CustodyHandoff → ℕ → Bool
has_custodian [] address = false
has_custodian (x ∷ xs) address = if x.custodian == address then true else has_custodian xs address

abbrev pub is_in_custody_chain : CustodyStore → ℕ → ℕ → ℕ → Bool
is_in_custody_chain s shipment_id index address =
    has_custodian (get_custody_log s shipment_id index) address

abbrev entries_by_custodian : List CustodyHandoff → ℕ → List CustodyHandoff
entries_by_custodian [] custodian = []
entries_by_custodian (x ∷ xs) custodian =
    let rest = entries_by_custodian xs custodian in
    if x.custodian == custodian then x ∷ rest else rest

abbrev get_handoffs_by_custodian : CustodyStore → ℕ → ℕ → ℕ → List CustodyHandoff
get_handoffs_by_custodian s shipment_id index custodian =
    entries_by_custodian (get_custody_log s shipment_id index) custodian

-- `#[derive(PartialEq)]`
abbrev discriminant : HandoffType → ℕ
discriminant received = 0
discriminant transferred = 1
discriminant receipt_confirmed = 2
discriminant inspected = 3
discriminant cleared = 4
discriminant stored = 5
discriminant departed = 6
discriminant other = 7

abbrev entries_by_type : List CustodyHandoff → HandoffType → List CustodyHandoff
entries_by_type [] kind = []
entries_by_type (x ∷ xs) kind =
    let rest = entries_by_type xs kind in
    if discriminant x.handoff_type == discriminant kind then x ∷ rest else rest

abbrev get_handoffs_by_type : CustodyStore → ℕ → ℕ → HandoffType → List CustodyHandoff
get_handoffs_by_type s shipment_id index kind =
    entries_by_type (get_custody_log s shipment_id index) kind

-- The loop, from a value of `expecting_receive`.
pub verify_from : Bool → List CustodyHandoff → Bool
verify_from expecting [] = not expecting
verify_from expecting (x ∷ xs) = elim x.handoff_type [
  | transferred ↦ elim expecting [ true ↦ false | false ↦ verify_from true xs ]
  | received ↦ verify_from false xs
  | _ ↦ verify_from expecting xs
]

abbrev pub verify_custody_chain : CustodyStore → ℕ → ℕ → Bool
verify_custody_chain s shipment_id index = verify_from false (get_custody_log s shipment_id index)

pub set_max_entries : ℕ → CustodyStore → Result CustodyStore
set_max_entries n s =
    panic_if ((n == 0) || ltb 200 n) "max_entries must be between 1 and 200"
    >> ok (record s { max_entries = some n })

abbrev pub clear_custody_log : ℕ → ℕ → CustodyStore → CustodyStore
clear_custody_log shipment_id index s = record s {
  logs = insert shipment_id (erase index (get [] shipment_id s.logs)) s.logs;
}
