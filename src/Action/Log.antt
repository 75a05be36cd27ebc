-- ===== src/Action/Log.antt =====
-- internal/action/log.go: the ring buffer of log lines, which shows the last lines of a Helm action and
-- leaves out repeated ones.
pub mod Window
use helm_controller.Base.{
  ℕ, suc, zero, ◌+◌, ◌-◌, ◌<>◌, String, Bool, true, false, not, List, [], ◌∷◌, Option, none, some,
  is_some, str_eq, ltb, if◌then◌else◌,
}

pub record LogLine : Type 0 where
  pub ts : ℕ
  pub last_ts : ℕ
  pub msg : String
  pub count : ℕ

-- A time.Time in the format RFC 3339 with nanoseconds, and a number in decimal digits.
pub record Formats : Type 0 where
  pub time : ℕ → String
  pub decimal : ℕ → String

-- The ring from `buf.Prev()` backwards: the line that was written last, and at the end the place that
-- `buf` points to. `Next` makes that place the first one. A nil ring has no places.
abbrev pub Ring : Type 0
Ring = List (Option LogLine)

-- ring.New, which is nil for no places.
unfoldable pub new_ring : ℕ → Ring
new_ring zero = []
new_ring (suc n) = none ∷ new_ring n

unfoldable pub previous_line : Ring → Option LogLine
previous_line [] = none
previous_line (line ∷ lines) = line

-- The ring without the place that `buf` points to.
unfoldable pub without_current : Ring → Ring
without_current [] = []
without_current (line ∷ []) = []
without_current (line ∷ next ∷ lines) = line ∷ without_current (next ∷ lines)

-- `buf.Value = line` and `buf = buf.Next()`, where there is a place.
unfoldable pub write_line : LogLine → Ring → Ring
write_line line [] = []
write_line line (first ∷ lines) = some line ∷ without_current (first ∷ lines)

unfoldable pub repeat_line : ℕ → LogLine → LogLine
repeat_line now line = record line { count = line.count + 1; last_ts = now }

unfoldable pub write_previous : LogLine → Ring → Ring
write_previous line [] = []
write_previous line (first ∷ lines) = some line ∷ lines

-- A line that is new.
abbrev pub new_line : ℕ → String → LogLine
new_line now msg = record { ts = now; last_ts = 0; msg = msg; count = 0 }

-- Appendf of the ring buffer, for a message that is formatted, at a time; `none` where it panics,
-- as `Prev` does for a nil ring.
unfoldable pub append_message : ℕ → String → Ring → Option Ring
append_message now msg [] = none
append_message now msg (slot ∷ slots) =
    let ring = slot ∷ slots in
    elim (previous_line ring) [
      | none ↦ some (write_line (new_line now msg) ring)
      | some line ↦
          if str_eq line.msg msg
          then some (write_previous (repeat_line now line) ring)
          else some (write_line (new_line now msg) ring)
    ]

module _ (F : Formats) where
  -- String of a line.
  unfoldable pub line_text : LogLine → String
  line_text line =
      let first = F.time line.ts <> (": " <> line.msg) in
      let again =
        if ltb 0 line.count
        then first <> ("\n" <> (F.time line.last_ts <> (": " <> line.msg)))
        else first in
      let omitted =
        if ltb 1 line.count
        then again
          <> (" ("
              <> (F.decimal (line.count - 1)
                  <> (" duplicate "
                      <> ((if ltb 2 line.count then "lines" else "line") <> " omitted)"))))
        else again in
      if str_eq line.msg "" then "" else omitted

  unfoldable pub slot_text : Option LogLine → String
  slot_text none = ""
  slot_text (some line) = line_text line

  -- Empty of the ring buffer.
  unfoldable pub is_empty_buffer : Ring → Bool
  is_empty_buffer [] = true
  is_empty_buffer (slot ∷ slots) =
      let rest = is_empty_buffer slots in if str_eq (slot_text slot) "" then rest else false

  -- String of the ring buffer before it is trimmed: from the oldest line to the newest.
  unfoldable pub buffer_text : Ring → String
  buffer_text [] = ""
  buffer_text (slot ∷ slots) =
      let older = buffer_text slots in
      if str_eq (slot_text slot) "" then older else older <> (slot_text slot <> "\n")
