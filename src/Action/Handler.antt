-- ===== src/Action/Handler.antt =====
-- internal/action/log.go: LogBuffer, the slog handler that writes to a logger and to the ring buffer.
pub mod Nested
use helm_controller.Base.{
  ℕ, ◌<>◌, String, Bool, true, false, List, [], ◌∷◌, ◌++◌, Option, none, some, map, str_eq,
  if◌then◌else◌,
}
use helm_controller.Errors.{Error}
use helm_controller.External.Cluster.{Result, ok, err}
use helm_controller.Action.Log.{Ring, Formats, append_message, is_empty_buffer, buffer_text}

-- slog.Attr, with a text for its value, and an attribute that belongs to a group.
pub record Attribute : Type 0 where
  pub key : String
  pub value : String

pub record GroupedAttribute : Type 0 where
  pub group : List String
  pub attribute : Attribute

pub data Level : Type 0 where
  error_level warn_level other_level : Level

pub record LogRecord : Type 0 where
  pub level : Level
  pub message : String
  pub attributes : List Attribute

-- LogBuffer, whose ring is nil for a trace logger.
pub record LogBuffer : Type 0 where
  pub attrs : List GroupedAttribute
  pub group : List String
  pub buf : Option Ring

-- map[string]any, whose values are values of attributes or such maps.
mutual
  pub data Node : Type 0 where
    leaf : String → Node
    branch : Fields → Node

  pub data Fields : Type 0 where
    end : Fields
    field : String → Node → Fields → Fields

unfoldable pub set_field : String → Node → Fields → Fields
set_field k n end = field k n end
set_field k n (field j m fs) = if str_eq j k then field k n fs else field j m (set_field k n fs)

unfoldable pub get_field : String → Fields → Option Node
get_field k end = none
get_field k (field j m fs) = if str_eq j k then some m else get_field k fs

-- The map under a key, or a new one where there is none.
abbrev pub as_branch : Option Node → Fields
as_branch none = end
as_branch (some (leaf v)) = end
as_branch (some (branch fs)) = fs

-- One round of the loop that builds the nested map.
unfoldable pub set_nested : List String → Attribute → Fields → Fields
set_nested [] a fs = set_field a.key (leaf a.value) fs
set_nested (g ∷ gs) a fs = set_field g (branch (set_nested gs a (as_branch (get_field g fs)))) fs

unfoldable pub nest : List GroupedAttribute → Fields → Fields
nest [] fs = fs
nest (a ∷ attrs) fs = nest attrs (set_nested a.group a.attribute fs)

-- withAttrs and WithGroup, which leave the handler that they are given as it is.
unfoldable pub with_attrs : List Attribute → LogBuffer → LogBuffer
with_attrs attrs l = record l {
  attrs = l.attrs ++ map (λ a. record { group = l.group; attribute = a }) attrs;
}

unfoldable pub with_group : String → LogBuffer → LogBuffer
with_group name l = if str_eq name "" then l else record l { group = l.group ++ name ∷ [] }

unfoldable pub message_of : LogRecord → String
message_of r = elim (r.level) [
  | error_level ↦ "error: " <> r.message
  | warn_level ↦ "warning: " <> r.message
  | other_level ↦ r.message
]

-- Appendf of a buffer that may be nil, which it leaves alone; `none` where it panics.
unfoldable pub append_to : ℕ → String → Option Ring → Option (Option Ring)
append_to now msg none = some none
append_to now msg (some ring) = elim (append_message now msg ring) [
  | none ↦ none
  | some next ↦ some (some next)
]

-- The attributes of a record that is handled, as a nested map.
unfoldable pub attributes_of : LogRecord → LogBuffer → Fields
attributes_of r l = nest (with_attrs r.attributes l).attrs end

-- The handler with its buffer after an append, if that does not panic.
abbrev pub with_buffer : LogBuffer → Option (Option Ring) → Option LogBuffer
with_buffer l none = none
with_buffer l (some buf) = some (record l { buf = buf })

-- Handle, with the JSON encoding of a map: what is sent to the logger, which is the message with the
-- map, the handler or `none` where the append panics, and the error.
module _ (to_json : Fields → Result String) where
  unfoldable pub handle :
      ℕ → LogRecord → LogBuffer → (String × Fields) × Option LogBuffer × Option Error
  handle now r l = elim (to_json (attributes_of r l)) [
    | err e ↦ (
      (message_of r, attributes_of r l),
      with_buffer l (append_to now (message_of r) l.buf),
      some e,
    )
    | ok text ↦ (
      (message_of r, attributes_of r l),
      with_buffer l (append_to now (message_of r <> (": " <> text)) l.buf),
      none,
    )
  ]

-- Empty and String of a handler that may be nil, before the text is trimmed.
unfoldable pub is_empty_log : Formats → Option LogBuffer → Bool
is_empty_log f none = true
is_empty_log f (some l) = elim (l.buf) [ none ↦ true | some ring ↦ is_empty_buffer f ring ]

unfoldable pub log_text : Formats → Option LogBuffer → String
log_text f none = ""
log_text f (some l) = elim (l.buf) [ none ↦ "" | some ring ↦ buffer_text f ring ]
