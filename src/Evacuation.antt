-- ===== src/Evacuation.antt =====
-- The evacuation of a region: `evacuate_cell` of backend/app/services/tenant/evacuation.py, over the
-- column `data_region` of backend/app/models/tenant.py. A text that an exception carries comes with it.
pub mod Accounting
mod Examples
use trust_shield.Base.{
  ℕ, String, Option, none, some, Bool, true, false, not, ◌&&◌, List, [], ◌∷◌, ◌++◌, ◌+◌, ◌==◌,
  ◌=s=◌, ◌<>◌, if◌then◌else◌, is_none, is_set, ltb, length, select,
}

-- A call: its value, or the text of what it raises.
pub data Call (A : Type 0) : Type 0 where
  done : A → Call A
  raised : String → Call A

pub record Tenant : Type 0 where
  pub tenant_id : String
  pub data_region : String

-- `settings.cell_urls`: empty, not a JSON text, or the URL of a region.
pub data CellUrls : Type 0 where
  unset invalid : CellUrls
  urls : (String → Option String) → CellUrls

-- What the evacuation calls: the archive that the n-th call of `generate_regulator_pack` makes of the
-- database, the response of a cell at a URL to an archive, `db.flush()` with a tenant's row, and the
-- text of a number. An archive is its bytes.
pub record Cells : Type 0 where
  pub generate_regulator_pack : ℕ → Call (List ℕ)
  pub cell_urls : CellUrls
  pub import_pack : String → List ℕ → Call ℕ
  pub flush : Tenant → Call Unit
  pub str_int : ℕ → String

-- Of a session, the number of archives made so far, and whether a flush has failed: its transaction is
-- rolled back, and each later use of the session raises.
pub record Session : Type 0 where
  pub calls : ℕ
  pub broken : Bool

pub record Progress : Type 0 where
  pub session : Session
  pub success_count : ℕ
  pub errors : List String

pub record Summary : Type 0 where
  pub tenants_migrated : ℕ
  pub total_tenants : ℕ
  pub success : Bool
  pub errors : List String

abbrev pub broken_text : String
broken_text =
    "This Session's transaction has been rolled back due to a previous exception during flush."

module _ (cells : Cells) (to_region : String) where
  unfoldable pub make_pack : Session → Call (List ℕ) × Session
  make_pack s =
      if s.broken
      then (raised broken_text, s)
      else (cells.generate_regulator_pack s.calls, record s { calls = s.calls + 1 })

  -- `_import_to_target_cell`: nothing, or the key `error` of the result. Where the configuration is
  -- JSON but no object, the reading of it raises, which has the same effect.
  unfoldable pub import_to_target_cell : List ℕ → Option String
  import_to_target_cell pack = elim cells.cell_urls [
    | unset ↦ some "No cell URLs configured"
    | invalid ↦ some "Invalid cell_urls config"
    | urls find ↦
        if not (is_set (find to_region))
        then some ("No URL for target region " <> to_region)
        else elim (find to_region) [
          | none ↦ some ("No URL for target region " <> to_region)
          | some url ↦ elim (cells.import_pack url pack) [
            | raised text ↦ some text
            | done status ↦
                if status == 200 then none else some ("Target returned " <> cells.str_int status)
          ]
        ]
  ]

  abbrev failed : Session → String → Progress → Progress
  failed s text p = record p { session = s; errors = p.errors ++ text ∷ [] }

  -- Step 3: the row is assigned, and then flushed.
  unfoldable pub after_flush : Tenant → Session → Progress → Call Unit → Tenant × Progress
  after_flush t s p (done u) = (
    record t { data_region = to_region },
    record p { session = s; success_count = p.success_count + 1 },
  )
  after_flush t s p (raised text) = (
    record t { data_region = to_region },
    failed (record s { broken = true }) ("Evacuation failed for " <> t.tenant_id <> ": " <> text) p,
  )

  unfoldable pub re_pin : Tenant → Session → Progress → Tenant × Progress
  re_pin t s p =
      after_flush t s p (
        if s.broken then raised broken_text else cells.flush (record t { data_region = to_region }))

  unfoldable pub after_import : Tenant → Session → Progress → Option String → Tenant × Progress
  after_import t s p none = re_pin t s p
  after_import t s p (some text) =
      (t, failed s ("Import failed for " <> t.tenant_id <> ": " <> text) p)

  -- Step 2: the archive is made again and sent.
  unfoldable pub after_second_pack : Tenant → Progress → Call (List ℕ) × Session → Tenant × Progress
  after_second_pack t p (raised text, s) =
      (t, failed s ("Evacuation failed for " <> t.tenant_id <> ": " <> text) p)
  after_second_pack t p (done pack, s) = after_import t s p (import_to_target_cell pack)

  unfoldable pub after_export : Tenant → Progress → Call (List ℕ) × Session → Tenant × Progress
  after_export t p (raised text, s) =
      (t, failed s ("Export failed for " <> t.tenant_id <> ": " <> text) p)
  after_export t p (done pack, s) = after_second_pack t p (make_pack s)

  -- One round of the loop over the tenants.
  unfoldable pub evacuate_tenant : Tenant → Progress → Tenant × Progress
  evacuate_tenant t p = after_export t p (make_pack p.session)

  unfoldable pub evacuate_all : List Tenant → Progress → List Tenant × Progress
  evacuate_all [] p = ([], p)
  evacuate_all (t ∷ ts) p =
      let (moved, q) = evacuate_tenant t p in let (rest, r) = evacuate_all ts q in (moved ∷ rest, r)

abbrev pub in_region : String → Tenant → Bool
in_region region t = t.data_region =s= region

abbrev pub summary_of : List Tenant → Progress → Summary
summary_of ts p = record {
  tenants_migrated = p.success_count;
  total_tenants = length ts;
  success = length p.errors == 0;
  errors = p.errors;
}

-- `evacuate_cell`: the summary, or the exception of its commit, with the table, whose rows have no
-- order. Without a commit nothing is kept.
unfoldable pub evacuate_cell :
    Cells → (from_region to_region : String) → List Tenant → Call Summary × List Tenant
evacuate_cell cells from_region to_region table =
    let tenants = select (in_region from_region) table in
    let (moved, p) =
      evacuate_all cells to_region tenants (record {
        session = record { calls = 0; broken = false };
        success_count = 0;
        errors = [];
      }) in
    if ltb 0 p.success_count
    then if p.session.broken
      then (raised broken_text, table)
      else (done (summary_of tenants p), select (λ t. not (in_region from_region t)) table ++ moved)
    else (done (summary_of tenants p), table)
