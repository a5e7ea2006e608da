-- ===== src/Prelude/Json.antt =====
-- JSON values as Python reads them. A dict is its list of pairs; a key is looked up once, and
-- the first pair with it counts.
use Prim.Native.Nat.{ℕ, suc}
use Prim.Native.String.{String}
use mathlib.Core.Bool.{Bool, true, false, not}
use mathlib.Core.Option.{Option, none, some}
use text.Mathlib.Text.{◌==◌}
use snapshot_drive.Prelude.Tests.{if◌then◌else◌, ◌==◌ as nat_eq}
use snapshot_drive.Prelude.Text.{is_empty}
use snapshot_drive.Prelude.Errors.{Result, ok, err}
use mathlib.Core.Path.{◌≡◌, refl}
use native.Mathlib.Omega.{arith}
use text.Mathlib.TextEquality.{eq_iff}

-- `neg n` is the integer -(n + 1); `real s` is a float, kept as its text.
mutual
  pub data Json : Type 0 where
    null : Json
    boolean : Bool → Json
    num : ℕ → Json
    neg : ℕ → Json
    real : String → Json
    str : String → Json
    arr : Items → Json
    obj : Fields → Json

  pub data Items : Type 0 where
    nil : Items
    cons : Json → Items → Items

  pub data Fields : Type 0 where
    end : Fields
    field : String → Json → Fields → Fields

-- d.get(key)
unfoldable pub get_field : String → Fields → Option Json
get_field key end = none
get_field key (field k v rest) =
    let found = get_field key rest in if k == key then some v else found

-- the same on a value: what is no dict has no key
unfoldable pub get : String → Json → Option Json
unfolding get_field
get key (obj fields) = get_field key fields
get key _ = none

unfoldable pub length : Items → ℕ
length nil = 0
length (cons x xs) = suc (length xs)

-- bool(value)
unfoldable pub truthy : Json → Bool
truthy null = false
truthy (boolean b) = b
truthy (num n) = not (nat_eq n 0)
truthy (neg n) = true
truthy (real s) = true
truthy (str s) = not (is_empty s)
truthy (arr nil) = false
truthy (arr (cons x xs)) = true
truthy (obj end) = false
truthy (obj (field k v rest)) = true

-- d.get(key) or {}, as a list of pairs: what is no dict has no keys
unfoldable pub sub_fields : String → Fields → Fields
unfolding get_field
sub_fields key fields = elim (get_field key fields) [ some (obj inner) ↦ inner | _ ↦ end ]

-- d.get(key) or {}, for a dict whose methods are then called: what is true and no dict has none of
-- them, and the call raises
unfoldable pub or_empty {ℓ} : {E : Type ℓ} → E → String → Fields → Result E Fields
unfolding get_field truthy
or_empty raised key fields = elim (get_field key fields) [
  | none ↦ ok end
  | some (obj inner) ↦ ok inner
  | some value ↦ if truthy value then err raised else ok end
]

letters : String → Items
letters String.[] = nil
letters (String.◌∷◌ c s) = cons (str (String.◌∷◌ c "")) (letters s)

keys : Fields → Items
keys end = nil
keys (field k v rest) = cons (str k) (keys rest)

-- list(value): a number or a truth value is not iterable
unfoldable pub list_of {ℓ} : {E : Type ℓ} → E → Json → Result E Items
unfolding letters keys
list_of raised (arr xs) = ok xs
list_of raised (str s) = ok (letters s)
list_of raised (obj fields) = ok (keys fields)
list_of raised _ = err raised

-- d[key] = value: an old key keeps its place
unfoldable pub set_field : String → Json → Fields → Fields
set_field key value end = field key value end
set_field key value (field k v rest) =
    let later = set_field key value rest in if k == key then field k value rest else field k v later

-- d.update(more)
unfoldable pub merge : Fields → Fields → Fields
unfolding set_field
merge fields end = fields
merge fields (field k v rest) = merge (set_field k v fields) rest

pub get_field-set_field :
    (k j : String) (v : Json) (fields : Fields)
    → get_field j (set_field k v fields) ≡ (if k == j then some v else get_field j fields)
unfolding get_field set_field
get_field-set_field k j v end = refl
get_field-set_field k j v (field i w rest) =
    ground (arith, eq_iff k j, eq_iff i k, eq_iff i j, get_field-set_field k j v rest)
