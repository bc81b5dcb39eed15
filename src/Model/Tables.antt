-- ===== src/Model/Tables.antt =====
-- Lists of rows as the database: the tables of the worked examples.
use facilpay_api.Common.{[]}
use facilpay_api.Repository.Rows.{rows}
use facilpay_api.Model.State.{Database, Tables}

abbrev pub lists : Database
lists = record {
  payments = rows (λ r. r.id);
  refunds = rows (λ r. r.id);
  adjustments = rows (λ r. r.id);
  splits = rows (λ r. r.id);
  disputes = rows (λ r. r.id);
  fee_configs = rows (λ r. r.merchant_id);
  links = rows (λ r. r.id);
}

abbrev pub empty_tables : Tables lists
empty_tables = record {
  payments = [];
  refunds = [];
  adjustments = [];
  splits = [];
  disputes = [];
  fee_configs = [];
  links = [];
}
