-- ===== src/Customers/File.antt =====
-- claimpipe/customers.py, load_customers_file: the registry of a deployment, from the entries of its
-- file. A parsed entry is the keys that it has; pydantic ignores other keys.
use insurance_claim_ai.Prelude.{
  ◌≡◌, ap, ◌∙◌, String, Option, none, some, List, [], ◌∷◌, arith, if◌then◌else◌, or_else, ◌==◌,
  Dict, get, put, get-put,
}
use insurance_claim_ai.Domain.Errors.{
  Result, ok, err, key_error, validation_error, require, ◌>>=◌, >>=-eq-ok,
}
use insurance_claim_ai.Customers.{Customer, authenticate}

pub record Entry : Type 0 where
  pub key_hash : Option String
  pub customer_id : Option String
  pub name : Option String
  pub tenant_id : Option String
  pub roles : Option (List String)

-- `Customer(**entry)`, with the roles that the entry has or the default.
abbrev pub entry_customer : Entry → Result Customer
entry_customer entry = do
  customer_id ← require entry.customer_id validation_error
  ok (record {
    customer_id = customer_id;
    name = or_else entry.name "";
    tenant_id = or_else entry.tenant_id "default";
    roles = or_else entry.roles ("submit" ∷ []);
  })

-- `register_hashed`
abbrev pub register_hashed : Dict Customer → String → Customer → Dict Customer
register_hashed reg key_hash customer = put reg key_hash customer

unfoldable pub load_entries : Dict Customer → List Entry → Result (Dict Customer)
load_entries reg [] = ok reg
load_entries reg (entry ∷ entries) = do
  key_hash ← require entry.key_hash key_error
  customer ← entry_customer entry
  load_entries (register_hashed reg key_hash customer) entries

unfoldable pub load_customers_file : List Entry → Result (Dict Customer)
load_customers_file entries = load_entries [] entries

-- The customer of the last entry with a hash.
abbrev entry_of : String → Entry → Option Customer → Option Customer
entry_of wanted entry old =
    if or_else entry.key_hash "" == wanted
    then elim (entry_customer entry) [ ok c ↦ some c | err x ↦ old ]
    else old

abbrev pub last_entry : String → Option Customer → List Entry → Option Customer
last_entry wanted old [] = old
last_entry wanted old (entry ∷ entries) = last_entry wanted (entry_of wanted entry old) entries

put-entry_of :
    (entry : Entry) (hash : String) (c : Customer) (reg : Dict Customer) (wanted : String)
    → require entry.key_hash key_error ≡ ok hash
    → entry_customer entry ≡ ok c
    → get (put reg hash c) wanted ≡ entry_of wanted entry (get reg wanted)
put-entry_of entry hash c reg wanted has_hash read = ground (arith, get-put reg hash wanted c)

load_entries-last_entry :
    (entries : List Entry) (reg reg' : Dict Customer) (wanted : String)
    → load_entries reg entries ≡ ok reg'
    → get reg' wanted ≡ last_entry wanted (get reg wanted) entries
unfolding load_entries
load_entries-last_entry [] reg reg' wanted h = ground arith
load_entries-last_entry (entry ∷ entries) reg reg' wanted h =
    let (hash, has_hash, rest) = >>=-eq-ok (require entry.key_hash key_error) (λ x. _) h in
    let (c, read, later) = >>=-eq-ok (entry_customer entry) (λ x. _) rest in
    load_entries-last_entry entries (put reg hash c) reg' wanted later
    ∙ ap (λ o. last_entry wanted o entries) (put-entry_of entry hash c reg wanted has_hash read)

-- A registry that loads knows a key by its hash, and as the customer of the last entry with it; no
-- key, or an empty one, is nobody's.
pub authenticate-load_customers_file :
    (hash_key : String → String) (entries : List Entry) (reg : Dict Customer) (k : String)
    → load_customers_file entries ≡ ok reg
    → authenticate hash_key reg (some k)
      ≡ (if k == "" then none else last_entry (hash_key k) none entries)
unfolding load_customers_file authenticate get
authenticate-load_customers_file hash_key entries reg k h =
    ground (arith, load_entries-last_entry entries [] reg (hash_key k) h)
