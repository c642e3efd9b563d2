-- ===== src/Customers.antt =====
-- claimpipe/customers.py: API keys and the customers they stand for. `hash_key` (SHA-256) is an
-- argument.
pub mod File
use insurance_claim_ai.Prelude.{
  ◌≡◌, String, Bool, Option, none, some, List, [], ◌∷◌, arith, any, if◌then◌else◌, ◌==◌, eq_iff,
  Dict, get, put, get-put,
}

-- The roles are a set, of which only membership is asked.
pub record Customer : Type 0 where
  pub customer_id : String
  pub name : String
  pub tenant_id : String
  pub roles : List String

abbrev pub can : Customer → String → Bool
can c role = any (λ r. r == role) c.roles

module _ (hash_key : String → String) where
  unfoldable pub register_key : Dict Customer → String → Customer → Dict Customer
  register_key reg api_key c = put reg (hash_key api_key) c

  unfoldable pub authenticate : Dict Customer → Option String → Option Customer
  authenticate reg none = none
  authenticate reg (some key) =
      let found = get reg (hash_key key) in if key == "" then none else found

abbrev pub submitter : Customer
submitter = record {
  customer_id = "acme-carrier";
  name = "ACME Carrier (portal submitter)";
  tenant_id = "default";
  roles = "submit" ∷ [];
}

abbrev pub clearinghouse : Customer
clearinghouse = record {
  customer_id = "lakeside-clearinghouse";
  name = "Lakeside PT via clearinghouse (EDI submitter)";
  tenant_id = "default";
  roles = "submit" ∷ [];
}

abbrev pub reviewer : Customer
reviewer = record {
  customer_id = "payer-adjusters";
  name = "Payer adjuster team (review only)";
  tenant_id = "default";
  roles = "review" ∷ [];
}

abbrev pub integration : Customer
integration = record {
  customer_id = "dev-integration";
  name = "Dev/integration key (submit + review)";
  tenant_id = "default";
  roles = "submit" ∷ "review" ∷ [];
}

-- DEV_KEYS
abbrev pub dev_keys : Dict Customer
dev_keys =
    ("ck_acme_submitter_01", submitter)
    ∷ ("ck_lakeside_clearing_01", clearinghouse)
    ∷ ("ck_payer_reviewer_01", reviewer)
    ∷ ("ck_dev_all_01", integration)
    ∷ []

module _ (hash_key : String → String) where
  abbrev pub register_all : Dict Customer → Dict Customer → Dict Customer
  register_all reg [] = reg
  register_all reg ((k, c) ∷ keys) = register_all (register_key hash_key reg k c) keys

  unfoldable pub default_customers : Dict Customer
  default_customers = register_all [] dev_keys

module _ (hash_key : String → String)
    (hash-injective : (a b : String) → hash_key a ≡ hash_key b → a ≡ b) where
  same_hash : (a b : String) → (hash_key a == hash_key b) ≡ (a == b)
  same_hash a b = ground (arith, eq_iff (hash_key a) (hash_key b), eq_iff a b, hash-injective a b)

  -- Registering a key answers for that key, and every other key as before; no key, or an empty
  -- one, is nobody's.
  pub authenticate-register_key :
      (reg : Dict Customer) (key k : String) (c : Customer)
      → authenticate hash_key (register_key hash_key reg key c) (some k) ≡ (
          if k == "" then none else if key == k then some c else authenticate hash_key reg (some k))
  unfolding authenticate register_key
  authenticate-register_key reg key k c =
      ground (arith, same_hash key k, get-put reg (hash_key key) (hash_key k) c)

  authenticate-none : (k : String) → authenticate hash_key [] (some k) ≡ none
  unfolding authenticate get
  authenticate-none k = ground arith

  -- If no two texts have one hash, the development registry knows the listed keys, each for its
  -- customer, and no others.
  pub default_customers_lem :
      (k : String) → authenticate hash_key (default_customers hash_key) (some k) ≡ get dev_keys k
  unfolding default_customers get
  default_customers_lem k =
      rw
        (
          authenticate-register_key _ "ck_dev_all_01" k integration,
          authenticate-register_key _ "ck_payer_reviewer_01" k reviewer,
          authenticate-register_key _ "ck_lakeside_clearing_01" k clearinghouse,
          authenticate-register_key _ "ck_acme_submitter_01" k submitter,
          authenticate-none k,
        )
        (ground (
          arith,
          eq_iff k "",
          eq_iff "ck_dev_all_01" k,
          eq_iff "ck_payer_reviewer_01" k,
          eq_iff "ck_lakeside_clearing_01" k,
          eq_iff "ck_acme_submitter_01" k,
          eq_iff "ck_acme_submitter_01" "",
          eq_iff "ck_lakeside_clearing_01" "",
          eq_iff "ck_payer_reviewer_01" "",
          eq_iff "ck_dev_all_01" "",
          eq_iff "ck_acme_submitter_01" "ck_lakeside_clearing_01",
          eq_iff "ck_acme_submitter_01" "ck_payer_reviewer_01",
          eq_iff "ck_acme_submitter_01" "ck_dev_all_01",
          eq_iff "ck_lakeside_clearing_01" "ck_payer_reviewer_01",
          eq_iff "ck_lakeside_clearing_01" "ck_dev_all_01",
          eq_iff "ck_payer_reviewer_01" "ck_dev_all_01",
        ))
