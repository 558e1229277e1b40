-- ===== src/Authz/Message.antt =====
-- security/authz/openfga/middleware.go: the resource that a request names by the path of a field. A
-- message is what protobuf's reflection shows of it: its fields in order, each with its name, its
-- kind and its value. The texts of numbers and the trimming of spaces are parameters.
use servora_platform.Common.{
  ℕ, Bool, not, ◌&&◌, ◌||◌, List, [], ◌∷◌, Option, none, some, if◌then◌else◌,
}
use servora_platform.Cap.Bytes.{Bytes, same}
use servora_platform.Authz.Text.{Failure, Result, ok, fail, ◌>>=◌, ◌>>◌, when, is_empty}
use servora_platform.Authz.Check.{required}

-- What the descriptor of a field and the message say of it.
pub record Descriptor : Type 0 where
  pub name : Bytes
  -- part of a oneof that is not synthetic
  pub in_oneof : Bool
  pub is_list_or_map : Bool
  pub has_presence : Bool
  -- set in this message
  pub has : Bool

mutual
  -- The fields of a message, in order.
  pub data Fields : Type 0 where
    end : Fields
    field : Descriptor → Value → Fields → Fields

  -- The value by the field's kind: a text, a signed or unsigned number, a message, or a value of
  -- another kind.
  pub data Value : Type 0 where
    text : Bytes → Value
    signed : Bool → ℕ → Value
    unsigned : ℕ → Value
    message : Fields → Value
    other_kind : Value

unfoldable pub by_name : Fields → Bytes → Option (Descriptor × Value)
by_name end segment = none
by_name (field d v fs) segment = if same d.name segment then some (d, v) else by_name fs segment

-- `current.Get(field).Message()` where the kind is that of a message.
unfoldable pub message_of : Value → Result Fields
message_of (message fs) = ok fs
message_of (text s) = fail Failure.other
message_of (signed s n) = fail Failure.other
message_of (unsigned n) = fail Failure.other
message_of other_kind = fail Failure.other

module _ (format_int : Bool → ℕ → Bytes) (format_uint : ℕ → Bytes)
    (trim_space : Bytes → Bytes) where
  unfoldable pub id_text : Value → Result Bytes
  id_text (text s) = ok s
  id_text (signed negative n) = ok (format_int negative n)
  id_text (unsigned n) = ok (format_uint n)
  id_text (message fs) = fail Failure.other
  id_text other_kind = fail Failure.other

  -- The last segment of the path.
  unfoldable pub read_id : Descriptor → Value → Result Bytes
  read_id d v = do
    when d.is_list_or_map Failure.other
    when (d.has_presence && not d.has) Failure.other
    id ← id_text v
    when (is_empty (trim_space id)) Failure.other
    ok id

  -- A segment before the last.
  unfoldable pub enter : Descriptor → Value → Result Fields
  enter d v = do inner ← message_of v; when (d.is_list_or_map || not d.has) Failure.other; ok inner

  abbrev pub find_field : Fields → Bytes → Result (Descriptor × Value)
  find_field fields segment = do
    found ← required (by_name fields segment)
    when found.0.in_oneof Failure.other
    ok found

  unfoldable pub walk : Fields → List Bytes → Result Bytes
  walk fields [] = fail Failure.other
  walk fields (segment ∷ []) = do found ← find_field fields segment; read_id found.0 found.1
  walk fields (segment ∷ next ∷ rest) = do
    found ← find_field fields segment
    inner ← enter found.0 found.1
    walk inner (next ∷ rest)

  -- `resourceIDFromRequest`, on a path split at its dots and a request that may be no message or an
  -- invalid one.
  unfoldable pub resource_id_from_request : List Bytes → Option Fields → Result Bytes
  resource_id_from_request segments none = fail Failure.other
  resource_id_from_request segments (some fields) = walk fields segments
