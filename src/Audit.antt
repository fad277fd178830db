-- ===== src/Audit.antt =====
-- src/common/services/audit-log.service.ts: one row for each action. The JSON snapshots of a row
-- are left out here.
pub mod Snapshot
use Prim.Native.String.{String}
use stock_pilot_be.Prelude.{ℕ, Option, ◌∷◌, refl}
use stock_pilot_be.Schema.{Database, AuditLog}
use stock_pilot_be.Ledger.Posting.{Keeps}

-- `AuditLogService.create`
unfoldable pub audit : Option ℕ → Option ℕ → String → String → String → Database → Database
audit store user action entity_type entity_id db = record db { audit_logs = entry ∷ db.audit_logs }
  where
    entry : AuditLog
    entry = record {
      store_id = store;
      user_id = user;
      action = action;
      entity_type = entity_type;
      entity_id = entity_id;
    }

-- An audit row moves no stock.
pub audit-Keeps :
    (store user : Option ℕ) (action entity_type entity_id : String) (db : Database)
    → Keeps db (audit store user action entity_type entity_id db)
unfolding audit
audit-Keeps store user action entity_type entity_id db = record {
  movements = refl;
  balances = λ u j. refl;
}
