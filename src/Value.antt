-- ===== src/Value.antt =====
-- The dynamic values that the sources keep in `dict[str, Any]`: what their `to_dict` methods
-- write and their `from_dict` methods read. A list of texts is a constructor of its own.
use notary_platform.Prelude.{
  ℕ, String, Bool, true, false, Option, none, some, List, ◌==◌, nat_eq, if◌then◌else◌, nonblank,
  nonempty,
}
use notary_platform.Dict.{Dict, get}

mutual
  pub data Value : Type 0 where
    null : Value
    bool : Bool → Value
    num : ℕ → Value
    text : String → Value
    texts : List String → Value
    obj : Fields → Value

  pub data Fields : Type 0 where
    end : Fields
    field : String → Value → Fields → Fields

-- d.get(k) of a nested dict
unfoldable pub field? : String → Fields → Option Value
field? k end = none
field? k (field j v m) = let rest = field? k m in if j == k then some v else rest

-- `bool(v)`
unfoldable pub truthy : Value → Bool
truthy null = false
truthy (bool b) = b
truthy (num n) = if nat_eq n 0 then false else true
truthy (text s) = nonblank s
truthy (texts ss) = nonempty ss
truthy (obj end) = false
truthy (obj (field k v m)) = true

infixl 5 ◌>>=◌
abbrev pub ◌>>=◌ {ℓ κ} : {A : Type ℓ} {B : Type κ} → Option A → (A → Option B) → Option B
none >>= f = none
some a >>= f = f a

-- `d.get(k, default)` where the caller goes on with a value of one type. `none` is a dict that
-- holds a value of another type under the key.
abbrev pub as_text : Value → Option String
as_text (text s) = some s
as_text _ = none

abbrev pub as_num : Value → Option ℕ
as_num (num n) = some n
as_num _ = none

abbrev pub as_bool : Value → Option Bool
as_bool (bool b) = some b
as_bool _ = none

abbrev pub as_texts : Value → Option (List String)
as_texts (texts l) = some l
as_texts _ = none

abbrev pub as_fields : Value → Option Fields
as_fields (obj m) = some m
as_fields _ = none

module _ {A : Type 0} where
  abbrev pub read : (Value → Option A) → Option Value → A → Option A
  read as_type none default = some default
  read as_type (some v) default = as_type v

  -- d.get(k, default)
  unfoldable pub get_as : (Value → Option A) → String → A → Dict Value → Option A
  unfolding get
  get_as as_type k default d = read as_type (get k d) default

-- The draws of `uuid.uuid4().hex[:12]` and `datetime.now(timezone.utc).isoformat()` that one call
-- makes. Where the source draws twice and drops the first, this is the draw that is kept.
pub record Draw : Type 0 where
  pub hex : String
  pub now : String
