-- ===== src/Domain/Sync.antt =====
-- Plans of changes: crates/summer-domain/src/sync.rs. A counter counts the entries of a list, so it
-- does not reach the bound of u64.
use summerrs_admin.Base.{ℕ, ◌+◌, List, [], ◌∷◌}
use summerrs_admin.Base.Text.{Bytes}

pub data SyncAction : Type 0 where
  create update noop : SyncAction

pub record SyncChange : Type 0 where
  pub target : Bytes
  pub key : Bytes
  pub action : SyncAction
  pub fields : List Bytes

pub record SyncSummary : Type 0 where
  pub create_count : ℕ
  pub update_count : ℕ
  pub noop_count : ℕ

pub record SyncPlan : Type 0 where
  pub summary : SyncSummary
  pub changes : List SyncChange

abbrev pub count : SyncAction → SyncSummary → SyncSummary
count create s = record {
  create_count = s.create_count + 1;
  update_count = s.update_count;
  noop_count = s.noop_count;
}
count update s = record {
  create_count = s.create_count;
  update_count = s.update_count + 1;
  noop_count = s.noop_count;
}
count noop s = record {
  create_count = s.create_count;
  update_count = s.update_count;
  noop_count = s.noop_count + 1;
}

-- The loop over the changes.
abbrev pub summarize : List SyncChange → SyncSummary → SyncSummary
summarize [] s = s
summarize (change ∷ changes) s = summarize changes (count change.action s)

-- `SyncPlan::new`
unfoldable pub new_plan : List SyncChange → SyncPlan
new_plan changes = record {
  summary = summarize changes (record { create_count = 0; update_count = 0; noop_count = 0 });
  changes = changes;
}
