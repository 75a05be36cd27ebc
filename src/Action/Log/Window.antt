-- ===== src/Action/Log/Window.antt =====
-- The ring buffer as a window on the whole log.
use helm_controller.Base.{
  ◌≡◌, refl, ap, ℕ, suc, zero, ◌+◌, String, List, [], ◌∷◌, Option, ◌∙◌, none, some, str_eq, arith,
  length, Bool-cases, inl, inr, if◌then◌else◌,
}
use helm_controller.Action.Log.{
  LogLine, Ring, new_ring, previous_line, without_current, write_line, repeat_line, write_previous,
  new_line, append_message,
}

-- A message with the time when it is logged.
abbrev pub Message : Type 0
Message = ℕ × String

abbrev pub append_all : List Message → Ring → Option Ring
append_all [] ring = some ring
append_all ((now, msg) ∷ ms) ring = elim (append_message now msg ring) [
  | none ↦ none
  | some next ↦ append_all ms next
]

-- The log without a bound, newest line first, where a message that repeats the one before it is
-- counted.
abbrev pub log_message : ℕ → String → List LogLine → List LogLine
log_message now msg [] = new_line now msg ∷ []
log_message now msg (line ∷ lines) =
    if str_eq line.msg msg then repeat_line now line ∷ lines else new_line now msg ∷ line ∷ lines

abbrev pub log_all : List Message → List LogLine → List LogLine
log_all [] lines = lines
log_all ((now, msg) ∷ ms) lines = log_all ms (log_message now msg lines)

-- The newest lines, as many as there are places, and places without a line.
abbrev pub window : ℕ → List LogLine → Ring
window zero lines = []
window (suc n) [] = none ∷ window n []
window (suc n) (line ∷ lines) = some line ∷ window n lines

-- How many messages the lines stand for.
abbrev pub messages : List LogLine → ℕ
messages [] = 0
messages (line ∷ lines) = line.count + 1 + messages lines

new_ring-window : (n : ℕ) → new_ring n ≡ window n []
unfolding new_ring
new_ring-window zero = refl
new_ring-window (suc n) = ap (λ r. none ∷ r) (new_ring-window n)

without_current-none : (n : ℕ) → without_current (window (suc n) []) ≡ window n []
unfolding without_current
without_current-none zero = refl
without_current-none (suc n) = ap (λ r. none ∷ r) (without_current-none n)

without_current-window :
    (n : ℕ) (lines : List LogLine) → without_current (window (suc n) lines) ≡ window n lines
unfolding without_current
without_current-window n [] = without_current-none n
without_current-window zero (line ∷ lines) = refl
without_current-window (suc n) (line ∷ []) = ap (λ r. some line ∷ r) (without_current-window n [])
without_current-window (suc n) (line ∷ next ∷ lines) =
    ap (λ r. some line ∷ r) (without_current-window n (next ∷ lines))

write_line-window :
    (n : ℕ) (line : LogLine) (lines : List LogLine)
    → write_line line (window n lines) ≡ window n (line ∷ lines)
unfolding write_line
write_line-window zero line lines = refl
write_line-window (suc n) line [] = ap (λ r. some line ∷ r) (without_current-window n [])
write_line-window (suc n) line (l ∷ lines) =
    ap (λ r. some line ∷ r) (without_current-window n (l ∷ lines))

append_message-window :
    (n : ℕ) (now : ℕ) (msg : String) (lines : List LogLine)
    → append_message now msg (window (suc n) lines)
      ≡ some (window (suc n) (log_message now msg lines))
unfolding append_message previous_line write_previous write_line
append_message-window n now msg [] = ap some (write_line-window (suc n) (new_line now msg) [])
append_message-window n now msg (line ∷ lines) = elim (Bool-cases (str_eq line.msg msg)) [
  | inl e ↦ rw e refl
  | inr e ↦ rw e (ap some (write_line-window (suc n) (new_line now msg) (line ∷ lines)))
]

append_all-window :
    (n : ℕ) (ms : List Message) (lines : List LogLine)
    → append_all ms (window (suc n) lines) ≡ some (window (suc n) (log_all ms lines))
append_all-window n [] lines = refl
append_all-window n ((now, msg) ∷ ms) lines =
    rw (append_all, append_message-window n now msg lines)
      (append_all-window n ms (log_message now msg lines))

log_message-messages :
    (now : ℕ) (msg : String) (lines : List LogLine)
    → messages (log_message now msg lines) ≡ messages lines + 1
unfolding repeat_line
log_message-messages now msg [] = refl
log_message-messages now msg (line ∷ lines) = ground arith

log_all-messages :
    (ms : List Message) (lines : List LogLine)
    → messages (log_all ms lines) ≡ messages lines + length ms
log_all-messages [] lines = ground arith
log_all-messages ((now, msg) ∷ ms) lines =
    ground
      (arith, log_all-messages ms (log_message now msg lines), log_message-messages now msg lines)

length-window : (n : ℕ) (lines : List LogLine) → length (window n lines) ≡ n
length-window zero lines = refl
length-window (suc n) [] = ground (arith, length-window n [])
length-window (suc n) (line ∷ lines) = ground (arith, length-window n lines)

-- Appending messages to a buffer with at least one place does not panic, and the buffer then holds
-- the newest lines of the log without a bound, as many as it has places, and its size is the same.
-- No message is lost in that log: its lines with their repetitions are as many as the messages. A
-- buffer without places panics at the first message.
pub append_all_lem :
    (n : ℕ) (ms : List Message)
    → ((ring : Ring) × (append_all ms (new_ring (suc n)) ≡ some ring)
        × (ring ≡ window (suc n) (log_all ms []))
        × (length ring ≡ suc n)
        × (messages (log_all ms []) ≡ length ms))
      × ((now : ℕ) (msg : String) → append_all ((now, msg) ∷ ms) (new_ring 0) ≡ none)
unfolding append_message new_ring
append_all_lem n ms =
    let same : new_ring (suc n) ≡ window (suc n) [] = new_ring-window (suc n) in
    (
      (
        window (suc n) (log_all ms []),
        ap (append_all ms) same ∙ append_all-window n ms [],
        refl,
        length-window (suc n) (log_all ms []),
        ground (arith, log_all-messages ms []),
      ),
      λ now msg. refl,
    )
