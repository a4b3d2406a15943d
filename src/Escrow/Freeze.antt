-- ===== src/Escrow/Freeze.antt =====
-- The emergency freeze and the votes on it (contracts/chainsetttle/src/lib.rs).
pub mod Cast
pub mod Step
pub mod Quorum
mod Tests
use Prim.Native.String.{String}
use chainsettle_contract.Base.{
  ℕ, suc, ◌+◌, ◌*◌, ◌/◌, ◌%◌, ◌^◌, max, Bool, true, false, not, ◌||◌, Option, none, some, List, [],
  ◌∷◌, ◌++◌, ltb, leb, ◌==◌, if◌then◌else◌, get_or, is_some, length, contains,
}
use chainsettle_contract.Base.Dict.{Dict, get, insert, erase}
use chainsettle_contract.Base.Int.{u64_max}
use chainsettle_contract.Base.Result.{Result, ok, ◌>>◌, panic_if, or_panic, ◌>>=◌}
use chainsettle_contract.Escrow.Host.{Ledger, require_signature, assert_stored_admin}
use chainsettle_contract.Escrow.State.{Escrow}

pub record MultiAdminConfig : Type 0 where
  pub admins : List ℕ
  pub threshold : ℕ

-- The contract's state with the administrator, the configuration of several administrators, and the
-- keys of the freeze. A proposal is held as the list of those who approved it.
pub record FreezeDesk : Type 0 where
  pub governed : Escrow
  pub chief : Option ℕ
  pub multisig : Option MultiAdminConfig
  pub freeze_supermajority : Option ℕ
  pub proposal_counter : ℕ
  pub freeze_proposals : Dict (Option (List ℕ))
  pub unfreeze_proposals : Dict (Option (List ℕ))

-- `DEFAULT_EMERGENCY_FREEZE_SUPERMAJORITY_BPS`
abbrev default_supermajority_bps : ℕ
default_supermajority_bps = 8000

abbrev pub get_freeze_supermajority_bps : FreezeDesk → ℕ
get_freeze_supermajority_bps s = get_or s.freeze_supermajority default_supermajority_bps

abbrev pub is_emergency_frozen : FreezeDesk → Bool
is_emergency_frozen s = s.governed.emergency_frozen

abbrev pub supermajority_required : ℕ → ℕ → ℕ
supermajority_required registered bps = max ((registered * bps + 9999) / 10000) 1 % 2 ^ 32

initialize_multisig_admin : Ledger → ℕ → List ℕ → ℕ → FreezeDesk → Result FreezeDesk
initialize_multisig_admin env admin admins threshold s = do
  require_signature env admin
  assert_stored_admin s.chief admin
  panic_if (ltb (length admins) 1 || ltb threshold 1 || ltb (length admins) threshold)
      "invalid multi-sig parameters"
  ok (record s { multisig = some (record { admins = admins; threshold = threshold }) })

pub set_freeze_supermajority_bps : Ledger → ℕ → ℕ → FreezeDesk → Result FreezeDesk
set_freeze_supermajority_bps env admin bps s = do
  require_signature env admin
  assert_stored_admin s.chief admin
  panic_if ((bps == 0) || ltb 10000 bps) "supermajority bps must be in (0, 10000]"
  ok (record s { freeze_supermajority = some bps })

-- Proposals to freeze, at `true`, and to lift the freeze.
abbrev pub proposals_for : Bool → FreezeDesk → Dict (Option (List ℕ))
proposals_for true s = s.freeze_proposals
proposals_for false s = s.unfreeze_proposals

abbrev pub set_proposals : Bool → Dict (Option (List ℕ)) → FreezeDesk → FreezeDesk
set_proposals true ps s = record s { freeze_proposals = ps }
set_proposals false ps s = record s { unfreeze_proposals = ps }

abbrev pub not_found : Bool → String
not_found true = "emergency freeze proposal not found"
not_found false = "emergency unfreeze proposal not found"

abbrev pub set_frozen : Bool → FreezeDesk → FreezeDesk
set_frozen frozen s = record s { governed = record s.governed { emergency_frozen = frozen } }

-- `execute_emergency_freeze_proposal` and `execute_emergency_unfreeze_proposal`
pub execute_proposal : Bool → ℕ → FreezeDesk → Result FreezeDesk
execute_proposal frozen id s =
    panic_if (not (is_some (get none id (proposals_for frozen s)))) (not_found frozen)
    >> ok (set_frozen frozen (set_proposals frozen (erase id (proposals_for frozen s)) s))

-- The approvals of a proposal are stored, and it is executed once there are enough.
pub store_approvals : MultiAdminConfig → Bool → ℕ → List ℕ → FreezeDesk → Result FreezeDesk
store_approvals config frozen id approvals s =
    let s₁ = set_proposals frozen (insert id (some approvals) (proposals_for frozen s)) s in
    let executed = execute_proposal frozen id s₁ in
    if leb (supermajority_required (length config.admins) (get_freeze_supermajority_bps s))
      (length approvals)
    then executed
    else ok s₁

pub propose_with : Option MultiAdminConfig → Bool → ℕ → FreezeDesk → Result (ℕ × FreezeDesk)
propose_with none frozen admin s = do assert_stored_admin s.chief admin; ok (0, set_frozen frozen s)
propose_with (some config) frozen admin s = do
  panic_if (not (contains config.admins admin)) "unauthorized"
  panic_if (leb u64_max s.proposal_counter) "overflow"
  let id = suc s.proposal_counter
  s' ← store_approvals config frozen id (admin ∷ []) (record s { proposal_counter = id })
  ok (id, s')

-- `propose_emergency_freeze` and `propose_emergency_unfreeze`
pub propose_change : Ledger → Bool → ℕ → FreezeDesk → Result (ℕ × FreezeDesk)
propose_change env frozen admin s =
    require_signature env admin >> propose_with s.multisig frozen admin s

-- `approve_emergency_freeze` and `approve_emergency_unfreeze`
pub approve_change : Ledger → Bool → ℕ → ℕ → FreezeDesk → Result FreezeDesk
approve_change env frozen admin id s = do
  require_signature env admin
  config ← or_panic s.multisig "multisig admin not configured"
  panic_if (not (contains config.admins admin)) "unauthorized"
  approvals ← or_panic (get none id (proposals_for frozen s)) (not_found frozen)
  panic_if (contains approvals admin) "already approved by this admin"
  store_approvals config frozen id (approvals ++ admin ∷ []) s

abbrev propose_emergency_freeze : Ledger → ℕ → FreezeDesk → Result (ℕ × FreezeDesk)
propose_emergency_freeze env admin s = propose_change env true admin s

abbrev propose_emergency_unfreeze : Ledger → ℕ → FreezeDesk → Result (ℕ × FreezeDesk)
propose_emergency_unfreeze env admin s = propose_change env false admin s

abbrev approve_emergency_freeze : Ledger → ℕ → ℕ → FreezeDesk → Result FreezeDesk
approve_emergency_freeze env admin id s = approve_change env true admin id s

abbrev approve_emergency_unfreeze : Ledger → ℕ → ℕ → FreezeDesk → Result FreezeDesk
approve_emergency_unfreeze env admin id s = approve_change env false admin id s
