-- ===== src/ObjectStore/S3.antt =====
-- claimpipe/adapters/object_store.py, S3ObjectStore, over the client of an S3-compatible service.
use insurance_claim_ai.Prelude.{ℕ, ◌≡◌, String, Bool, true, false, arith}
use insurance_claim_ai.Domain.Errors.{Result, ok, err, client_error}
use Prim.Native.String as Text

-- The calls of the client, each of which may raise and leaves the service in a state.
pub record Client : Type 1 where
  pub Service : Type 0
  pub put_object : Service → String → String → String → String → Result (Unit {0}) × Service
  pub get_object : Service → String → String → Result String
  pub head_object : Service → String → String → Result (Unit {0})
  pub presign : Service → String → String → ℕ → Result String

-- `f"s3://{self._bucket}/{key}"`
abbrev pub s3_reference : String → String → String
s3_reference bucket key = Text.◌++◌ "s3://" (Text.◌++◌ bucket (Text.◌++◌ "/" key))

module _ (client : Client) (bucket : String) where
  abbrev referenced : String → Result (Unit {0}) × client.Service → Result String × client.Service
  referenced key (ok u, service) = (ok (s3_reference bucket key), service)
  referenced key (err x, service) = (err x, service)

  unfoldable pub put : client.Service → String → String → String → Result String × client.Service
  put service key content content_type =
      referenced key (client.put_object service bucket key content content_type)

  unfoldable pub get : client.Service → String → Result String
  get service key = client.get_object service bucket key

  -- `except ClientError: return False`, whatever the error of the service says.
  abbrev head_answered : Result (Unit {0}) → Result Bool
  head_answered (ok u) = ok true
  head_answered (err client_error) = ok false
  head_answered (err x) = err x

  unfoldable pub exists : client.Service → String → Result Bool
  exists service key = head_answered (client.head_object service bucket key)

  unfoldable pub presigned_put : client.Service → String → ℕ → Result String
  presigned_put service key expires_s = client.presign service bucket key expires_s

-- What is put in a bucket is there, for a client whose service keeps what it takes: the reference
-- names bucket and key, the key then exists, and reading it gives the content.
pub put_lem :
    (client : Client) (bucket : String) (service service' : client.Service)
    (key content content_type ref : String)
    → ((s t : client.Service)
        → client.put_object s bucket key content content_type ≡ (ok tt, t)
        → (client.get_object t bucket key ≡ ok content) × (client.head_object t bucket key ≡ ok tt))
    → put client bucket service key content content_type ≡ (ok ref, service')
    → (ref ≡ s3_reference bucket key)
      × (exists client bucket service' key ≡ ok true)
      × (get client bucket service' key ≡ ok content)
unfolding put exists get
put_lem client bucket service service' key content content_type ref keeps h =
    ground (arith, keeps service service')
