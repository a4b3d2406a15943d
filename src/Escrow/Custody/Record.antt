-- ===== src/Escrow/Custody/Record.antt =====
-- What recording a handoff does to the logs.
use Prim.Native.String.{String}
use chainsettle_contract.Base.{
  ℕ, ◌<◌, ◌≡◌, refl, ◌↔◌, inl, inr, true, Option, some, List, [], ◌∷◌, ◌++◌, arith, leb, ◌==◌,
  if◌then◌else◌, leb→le, leb→gt, Bool-cases, length, get_elem?, length-append,
}
use chainsettle_contract.Base.Dict.{get-put_in}
use chainsettle_contract.Base.Result.{panic_if, Post, Returns}
use chainsettle_contract.Escrow.Custody.{
  HandoffType, CustodyHandoff, CustodyStore, get_custody_log, get_max_entries, put_log,
  record_handoff_full, get_custody_log_count, last_entry, get_latest_handoff, has_custodian,
  is_in_custody_chain,
}
use chainsettle_contract.Escrow.Host.{Ledger}

abbrev pub handoff_of :
    Ledger → ℕ → HandoffType → Option ℕ → Option String → Option String → CustodyHandoff
handoff_of env custodian kind evidence location notes = record {
  custodian = custodian;
  handoff_type = kind;
  evidence_hash = evidence;
  recorded_at = env.sequence;
  location = location;
  notes = notes;
}

-- The log of one milestone has a new last entry, and every other log and the limit are as before.
pub record IsAppended (id index : ℕ) (x : CustodyHandoff) (s s' : CustodyStore) : Type 0 where
  pub appended : get_custody_log s' id index ≡ get_custody_log s id index ++ x ∷ []
  pub logs_after :
      (i j : ℕ)
      → get_custody_log s' i j ≡ (
          if i == id
          then (if j == index then get_custody_log s id index ++ x ∷ [] else get_custody_log s i j)
          else get_custody_log s i j)
  pub limit_kept : s'.max_entries ≡ s.max_entries
  pub latest : get_latest_handoff s' id index ≡ some x
  pub custodian_found : is_in_custody_chain s' id index x.custodian ≡ true

get_elem?-append :
    (xs : List CustodyHandoff) (x : CustodyHandoff) → get_elem? (xs ++ x ∷ []) (length xs) ≡ some x
get_elem?-append [] x = refl
get_elem?-append (y ∷ ys) x = get_elem?-append ys x

last_entry-append :
    (xs : List CustodyHandoff) (x : CustodyHandoff) → last_entry (xs ++ x ∷ []) ≡ some x
last_entry-append [] x = refl
last_entry-append (y ∷ ys) x =
    let n : length (ys ++ x ∷ []) ≡ length (y ∷ ys) = omega (arith, length-append ys (x ∷ [])) in
    rw n (get_elem?-append ys x)

has_custodian-append :
    (xs : List CustodyHandoff) (x : CustodyHandoff)
    → has_custodian (xs ++ x ∷ []) x.custodian ≡ true
has_custodian-append [] x = ground arith
has_custodian-append (y ∷ ys) x = ground (arith, has_custodian-append ys x)

pub get_custody_log-put_log :
    (id index : ℕ) (log : List CustodyHandoff) (s : CustodyStore) (i j : ℕ)
    → get_custody_log (put_log s id index log) i j ≡ (
        if i == id
        then (if j == index then log else get_custody_log s i j)
        else get_custody_log s i j)
get_custody_log-put_log id index log s i j = get-put_in [] id index log s.logs i j

put_log-IsAppended :
    (id index : ℕ) (x : CustodyHandoff) (s : CustodyStore)
    → IsAppended id index x s (put_log s id index (get_custody_log s id index ++ x ∷ []))
put_log-IsAppended id index x s =
    let log : List CustodyHandoff = get_custody_log s id index ++ x ∷ [] in
    let same : get_custody_log (put_log s id index log) id index ≡ log =
      ground (arith, get_custody_log-put_log id index log s id index) in
    record {
      appended = same;
      logs_after = get_custody_log-put_log id index log s;
      limit_kept = refl;
      latest = rw same (last_entry-append (get_custody_log s id index) x);
      custodian_found = rw same (has_custodian-append (get_custody_log s id index) x);
    }

-- Recording a handoff goes through exactly when the custodian has signed and the milestone's log has
-- fewer entries than the limit. The handoff, with the ledger's sequence number, is then the new last
-- entry and the latest handoff of that log, the custodian is found in the chain, and every other log
-- and the limit are as before.
pub record_handoff_full_outcome :
    (env : Ledger) (id index custodian : ℕ) (kind : HandoffType) (evidence : Option ℕ)
    (location notes : Option String) (s : CustodyStore)
    → (Returns (record_handoff_full env id index custodian kind evidence location notes s) ↔ (
        (env.approved custodian ≡ true) × (get_custody_log_count s id index < get_max_entries s)))
      × Post
          (record_handoff_full env id index custodian kind evidence location notes s)
          (IsAppended id index (handoff_of env custodian kind evidence location notes) s)
unfolding record_handoff_full panic_if
record_handoff_full_outcome env id index custodian kind evidence location notes s =
    elim (Bool-cases (env.approved custodian)) [
      | inr unsigned ↦ rw unsigned ((λ (s', e). absurd (cc e), λ (e, h). absurd (cc e)), tt)
      | inl signed ↦
          elim (Bool-cases (leb (get_max_entries s) (length (get_custody_log s id index)))) [
            | inl full ↦
                rw (signed, full)
                  (
                    (
                      λ (s', e). absurd (cc e),
                      λ (e, h). absurd (omega (arith, leb→le _ _ full, h)),
                    ),
                    tt,
                  )
            | inr room ↦
                rw (signed, room)
                  (
                    (λ _. (refl, leb→gt _ _ room), λ _. (_, refl)),
                    put_log-IsAppended id index
                        (handoff_of env custodian kind evidence location notes) s,
                  )
          ]
    ]
