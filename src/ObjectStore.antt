-- ===== src/ObjectStore.antt =====
-- claimpipe/adapters/object_store.py, InMemoryObjectStore: the documents by key. A reference is a
-- URL of bucket and key.
pub mod S3
use insurance_claim_ai.Prelude.{
  ℕ, ◌≡◌, String, Bool, ◌||◌, arith, if◌then◌else◌, ◌==◌, Dict, get, put, has, get-put,
}
use insurance_claim_ai.Domain.Errors.{Result, ok, key_error, require}
use Prim.Native.String as Text

abbrev pub Objects : Type 0
Objects = Dict String

-- `f"mem://{self._bucket}/{key}"`
abbrev pub mem_reference : String → String → String
mem_reference bucket key = Text.◌++◌ "mem://" (Text.◌++◌ bucket (Text.◌++◌ "/" key))

unfoldable pub put_object : String → Objects → String → String → String × Objects
put_object bucket objects key content = (mem_reference bucket key, put objects key content)

-- `presigned_put`, a link that names when it expires; `show` is the text of a number.
abbrev pub mem_presigned : (ℕ → String) → String → String → ℕ → String
mem_presigned show bucket key expires_s = Text.◌++◌ "mem://" (
    Text.◌++◌ bucket
      (Text.◌++◌ "/presigned/" (Text.◌++◌ key (Text.◌++◌ "?expires=" (show expires_s)))))

unfoldable pub get_object : Objects → String → Result String
get_object objects key = require (get objects key) key_error

unfoldable pub object_exists : Objects → String → Bool
object_exists objects key = has objects key

-- What was stored under a key is what a reader gets; other keys answer as before.
pub get_object-put :
    (bucket : String) (objects : Objects) (key k content : String)
    → let t = (put_object bucket objects key content).1 in
      (get_object t k ≡ (if key == k then ok content else get_object objects k))
      × (object_exists t k ≡ (key == k || object_exists objects k))
unfolding put_object get_object object_exists
get_object-put bucket objects key k content =
    (ground (arith, get-put objects key k content), ground (arith, get-put objects key k content))
