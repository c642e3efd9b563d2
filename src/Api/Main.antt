-- ===== src/Api/Main.antt =====
-- claimpipe/api/main.py and create_app: what the API is started with.
use insurance_claim_ai.Prelude.{
  ◌≡◌, sym, ap, ◌∙◌, String, Bool, Option, none, some, List, [], ◌∷◌, Dict, get,
}
use insurance_claim_ai.Domain.Errors.{
  Result, ok, unauthorized, require, ◌>>=◌, >>=-eq-ok, ok-injective,
}
use insurance_claim_ai.Domain.Models.{ClaimMetadata}
use insurance_claim_ai.Value.{Value, Float}
use insurance_claim_ai.ClaimTypes.{Registry}
use insurance_claim_ai.ClaimTypes.Seed.{default_registry}
use insurance_claim_ai.Tenancy.{directory}
use insurance_claim_ai.Customers.{
  Customer, authenticate, default_customers, default_customers_lem, dev_keys,
}
use insurance_claim_ai.Customers.File.{Entry, load_customers_file}
use insurance_claim_ai.Intake.{normalize_fnol}
use insurance_claim_ai.Intake.X12.{normalize_x12}
use insurance_claim_ai.Output.{Eob, default_output_adapters}
use insurance_claim_ai.Settings.{Settings, file_named}
use insurance_claim_ai.Api.{Config, require_customer}

-- json.loads, float() and str() of a text, json.dumps, SHA-256, the parsed customers file, the presigned
-- URL of a claim's upload, and Temporal's answers.
pub record Inputs : Type 0 where
  pub loads : String → Option Value
  pub read : String → Option Float
  pub show : Value → String
  pub dump : Eob → String
  pub hash_key : String → String
  pub entries_of : String → Result (List Entry)
  pub upload_url : String → String
  pub starts : String → Bool
  pub takes_signal : String → Bool

module _ (out : Inputs) where
  -- default_intake_adapters
  abbrev pub default_intake_adapters : Dict (String → Result ClaimMetadata)
  default_intake_adapters =
      ("fnol", normalize_fnol out.loads out.read out.show)
      ∷ ("x12-837", normalize_x12 out.read "https://edi-gateway.internal/ack")
      ∷ []

  -- `load_customers_file(...) if settings.customers_file else default_customers()`
  abbrev pub customers_at : Option String → Result (Dict Customer)
  customers_at none = ok (default_customers out.hash_key)
  customers_at (some path) = do entries ← out.entries_of path; load_customers_file entries

  abbrev pub create_app : Dict Customer → Registry → Config
  create_app customers registry = record {
    hash_key = out.hash_key;
    customers = customers;
    tenants = directory registry [];
    intake = default_intake_adapters;
    output = default_output_adapters out.dump;
    upload_url = out.upload_url;
    starts = out.starts;
    takes_signal = out.takes_signal;
  }

  -- `serve`, up to the server's start.
  unfoldable pub serve : Settings → Result Config
  serve settings = do
    customers ← customers_at (file_named settings.customers_file)
    registry ← default_registry
    ok (create_app customers registry)

  -- An API whose settings name no customers file, or an empty one, takes the published development
  -- keys for the customers that they stand for, and no other key, where no two texts have one hash.
  pub serve-dev_keys :
      (settings : Settings) (cfg : Config) (k : String)
      → ((a b : String) → out.hash_key a ≡ out.hash_key b → a ≡ b)
      → file_named settings.customers_file ≡ none
      → serve settings ≡ ok cfg
      → require_customer cfg (some k) ≡ require (get dev_keys k) unauthorized
  unfolding serve
  serve-dev_keys settings cfg k injective unnamed started =
      let (customers, chosen, rest) =
        >>=-eq-ok (customers_at (file_named settings.customers_file)) (λ x. _) started in
      let (registry, built, done) =
        >>=-eq-ok default_registry (λ x. ok (create_app customers x)) rest in
      let dev : customers ≡ default_customers out.hash_key =
        sym (ok-injective (ap customers_at (sym unnamed) ∙ chosen)) in
      ap (λ (c : Config). require_customer c (some k)) (sym (ok-injective done))
      ∙ ap (λ reg. require (authenticate out.hash_key reg (some k)) unauthorized) dev
      ∙ ap (λ (c : Option Customer). require c unauthorized)
          (default_customers_lem out.hash_key injective k)
