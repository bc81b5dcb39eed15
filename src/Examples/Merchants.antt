-- ===== src/Examples/Merchants.antt =====
-- The theorems on addresses, keys and checkout sessions at concrete tables.
use facilpay_api.Common.{
  ◌+◌, ◌/◌, ◌^◌, ◌≡◌, ◌≢◌, refl, ◌↔◌, true, false, none, some, [], ◌∷◌, ◌++◌, arith,
}
use facilpay_api.Common.Action.{ok}
use facilpay_api.Common.Store.{Store}
use facilpay_api.Common.Text.{Text, split}
use facilpay_api.Repository.{Repository}
use facilpay_api.Repository.Rows.{rows}
use facilpay_api.Merchants.Ip.{
  Net, Request, same_ipv4_block, ipv4_to_int, normalize_ip, is_trusted_proxy, matches_cidr, entries,
  last_untrusted, extract_client_ip,
}
use facilpay_api.Merchants.Ip.Laws.{same_ipv4_block_iff, extract_client_ip_forged}
use facilpay_api.Merchants.ApiKeys.{
  Tables, AuditAction, ApiKeyScope, ApiKeyEnvironment, ApiKey, Fresh, Library, Keys, rotate,
  find_own, replace_key, rotated_key, rotated_plaintext,
}
use facilpay_api.Merchants.ApiKeys.Rotation.{IsReplaced, rotate-IsReplaced}
use facilpay_api.Merchants.ApiKeys.Guard.{KeyRequest}
use facilpay_api.Checkout.{CheckoutSessionStatus, CheckoutSession, State, expire_stale_sessions}
use facilpay_api.Checkout.Changes.{IsClosed}
use facilpay_api.Checkout.Once.{Step, Reaches, Reaches-IsClosed}

-- 10.0.0.1 and 10.0.0.0
abbrev address : Text
address = 49 ∷ 48 ∷ 46 ∷ 48 ∷ 46 ∷ 48 ∷ 46 ∷ 49 ∷ []

abbrev range : Text
range = 49 ∷ 48 ∷ 46 ∷ 48 ∷ 46 ∷ 48 ∷ 46 ∷ 48 ∷ []

same_ipv4_block_iff_example :
    (same_ipv4_block address range 8 ≡ true)
    ↔ (ipv4_to_int address / 2 ^ 24 ≡ ipv4_to_int range / 2 ^ 24)
same_ipv4_block_iff_example = same_ipv4_block_iff address range 8 (omega arith)

abbrev net : Net
net = record { is_ipv4 = λ text. true; is_ipv6 = λ text. false }

abbrev proxied : Request
proxied = record {
  socket_address = some range;
  connection_address = none;
  ip = none;
  forwarded = none;
}

client_found : last_untrusted net (range ∷ []) (entries net address) ≡ some address
unfolding last_untrusted entries is_trusted_proxy matches_cidr normalize_ip split
client_found = refl

extract_client_ip_forged_example :
    extract_client_ip net (record proxied { forwarded = some (range ++ 44 ∷ address) }) (range ∷ [])
    ≡ extract_client_ip net (record proxied { forwarded = some address }) (range ∷ [])
extract_client_ip_forged_example =
    extract_client_ip_forged net (range ∷ []) proxied range address address client_found

abbrev keys : Keys
keys = record { api_keys = rows (λ r. r.key_hash); usage = rows (λ r. r.id) }

abbrev library : Library
library = record {
  plaintext = λ environment raw. raw;
  slice_prefix = λ plaintext. plaintext;
  sha256 = λ plaintext. plaintext + 1;
  net = net;
}

abbrev key : ApiKey
key = record {
  id = 1;
  name = 5;
  key_hash = 41;
  key_prefix = 40;
  user_id = 9;
  scope = some ApiKeyScope.read;
  scopes = 6 ∷ [];
  environment = ApiKeyEnvironment.live;
  expires_at = some 900;
  last_used_at = none;
  is_active = true;
  rate_limit_limit = none;
  rate_limit_ttl = none;
  allowed_ips = address ∷ [];
}

abbrev keyed_state : Store (Tables keys) AuditAction
keyed_state = record {
  tables = record { api_keys = key ∷ []; usage = [] };
  outbox = [];
  faults = [];
}

abbrev fresh : Fresh
fresh = record { id = 2; raw_token = 70 }

rotated : (rotate library {db = keys} fresh 1 9 keyed_state).0 ≡ ok (rotated_key library fresh key)
unfolding rotate find_own replace_key rotated_key
rotated = refl

rotate-IsReplaced_example :
    (old : ApiKey) × (keys.api_keys.find_one old.key_hash (key ∷ []) ≡ some old)
    × ((old.id ≡ 1) × (old.user_id ≡ 9) × (old.is_active ≡ true))
    × (library.sha256 (rotated_plaintext library fresh old) ≢ old.key_hash
        → IsReplaced {db = keys} library fresh old
            (rotate library {db = keys} fresh 1 9 keyed_state).1)
rotate-IsReplaced_example =
    rotate-IsReplaced {db = keys} library fresh 1 9 (rotated_key library fresh key) keyed_state
      rotated

abbrev key_request : KeyRequest
key_request = record {
  authorization = none;
  x_api_key = some 40;
  source = record proxied { socket_address = some range };
}

abbrev sessions : Repository CheckoutSession (λ r. r.public_id)
sessions = rows (λ r. r.public_id)

abbrev session : CheckoutSession
session = record {
  id = 1;
  public_id = 11;
  merchant_id = 3;
  line_items = record { name = 4; description = none; quantity = 2; unit_amount = 500 } ∷ [];
  currency = 1;
  total = 1000;
  customer_id = none;
  customer_email = none;
  success_url = 0;
  cancel_url = 0;
  expires_at = 900;
  status = CheckoutSessionStatus.open_;
  payment_id = none;
}

abbrev paid : CheckoutSession
paid = record session { payment_id = some 7; status = CheckoutSessionStatus.complete }

abbrev closed_state : State sessions
closed_state = record { tables = paid ∷ []; outbox = []; faults = [] }

Reaches-IsClosed_example :
    IsClosed sessions 11 paid (expire_stale_sessions sessions 1000 closed_state).1
Reaches-IsClosed_example =
    Reaches-IsClosed sessions 11 paid closed_state _
      (Reaches.then_step closed_state closed_state _ (Reaches.here closed_state)
        (Step.sweeps 1000 closed_state))
      (refl, refl)
