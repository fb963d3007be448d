-- ===== src/Prelude/Json.antt =====
-- The values of JSON, as `JSON.parse` returns them, and the `typeof` tests on them. Numbers are
-- the natural numbers: the program reads one number from a payload, the round of a counter-offer.
use Prim.Native.Nat.{ℕ}
use Prim.Native.String.{String}
use mathlib.Core.Bool.{Bool}
use mathlib.Core.Option.{Option, none, some}
use ghost_bazaar.Prelude.Tests.{if◌then◌else◌, ◌===◌}

mutual
  pub data Value : Type 0 where
    null : Value
    boolean : Bool → Value
    num : ℕ → Value
    str : String → Value
    arr : Items → Value
    obj : Payload → Value

  pub data Items : Type 0 where
    nil : Items
    cons : Value → Items → Items

  -- `Record<string, unknown>`
  pub data Payload : Type 0 where
    end : Payload
    field : String → Value → Payload → Payload

-- `payload[key]`; `none` is `undefined`.
unfoldable pub get : Payload → String → Option Value
unfolding ◌===◌
get end key = none
get (field k v p) key = if k === key then some v else get p key

-- The text behind a value whose `typeof` is "string".
abbrev pub as_string : Option Value → Option String
as_string (some (str s)) = some s
as_string _ = none

-- `v !== undefined && v !== null && typeof v === "object"`, which arrays pass too.
abbrev pub as_object : Option Value → Option Value
as_object (some (obj p)) = some (obj p)
as_object (some (arr xs)) = some (arr xs)
as_object _ = none

-- `{ ...payload, key: value }`
unfoldable pub put : String → Value → Payload → Payload
unfolding ◌===◌
put key v end = field key v end
put key v (field k w p) = if k === key then field key v p else field k w (put key v p)

-- `...(value !== undefined ? { key: value } : {})`
abbrev pub opt_field : String → Option Value → Payload → Payload
opt_field key none p = p
opt_field key (some v) p = field key v p
