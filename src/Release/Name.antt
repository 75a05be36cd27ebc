-- ===== src/Release/Name.antt =====
-- internal/release/name.go: the name that a release is stored under. Sizes are in bytes.
use Prim.Native.String.{len, slice}
use helm_controller.Base.{ℕ, ◌+◌, ◌-◌, String, ◌<>◌, leb, if◌then◌else◌}

abbrev max_length : ℕ
max_length = 53

abbrev short_hash_length : ℕ
short_hash_length = 12

-- `hash` is the hexadecimal SHA-256 sum of a text.
unfoldable pub shorten_name : (String → String) → String → String
shorten_name hash name =
    if leb (len name) 53
    then name
    else slice name 0 (max_length - (short_hash_length + 1))
      <> "-"
      <> slice (hash name) 0 short_hash_length
