-- ===== src/Agent/Store/Names.antt =====
-- The names of the index files, and which names may become part of one: agent/src/store.rs.
use kubimo.Common.{
  ℕ, zero, suc, ◌+◌, ◌*◌, ◌/◌, ◌%◌, ◌^◌, ◌-◌, Bool, true, false, ◌&&◌, ◌||◌, not, List, [], ◌∷◌,
  ◌++◌, all, length, leb, ltb, ◌==◌, number_partial_eq, if◌then◌else◌,
}
use Prim.Native.Nat.{bit_xor}
use kubimo.Common.Result.{Result, ok, err}
use kubimo.Common.Text.{Text, codes, as_bytes}
use kubimo.Agent.Slot.{SlotId}
use kubimo.Agent.Volume.{StoreError, invalid_workspace_name, Store}

name_char : ℕ → Bool
name_char ch = leb b'a' ch && leb ch b'z' || leb b'0' ch && leb ch b'9' || ch == b'-' || ch == b'.'

is_edge : ℕ → Bool
is_edge ch = ch == b'-' || ch == b'.'

starts_at_edge : Text → Bool
unfolding is_edge
starts_at_edge [] = false
starts_at_edge (c ∷ s) = is_edge c

ends_at_edge : Text → Bool
unfolding is_edge
ends_at_edge [] = false
ends_at_edge (c ∷ []) = is_edge c
ends_at_edge (c ∷ d ∷ s) = ends_at_edge (d ∷ s)

has_two_dots : Text → Bool
has_two_dots [] = false
has_two_dots (c ∷ []) = false
has_two_dots (c ∷ d ∷ s) = (c == b'.') && (d == b'.') || has_two_dots (d ∷ s)

unfoldable pub is_empty : Text → Bool
is_empty [] = true
is_empty (_ ∷ _) = false

unfoldable pub is_invalid_name : Text → Bool
unfolding name_char starts_at_edge ends_at_edge has_two_dots is_empty
is_invalid_name name =
    is_empty name
    || ltb 253 (length (as_bytes name))
    || not (all name_char name)
    || starts_at_edge name
    || ends_at_edge name
    || has_two_dots name

unfoldable pub validate_workspace_name : Text → Result StoreError (Unit {0})
unfolding is_invalid_name
validate_workspace_name name =
    if is_invalid_name name then err (invalid_workspace_name name) else ok tt

both_valid : Result StoreError (Unit {0}) → Text → Result StoreError (Unit {0})
unfolding validate_workspace_name
both_valid (err e) workspace = err e
both_valid (ok _) workspace = validate_workspace_name workspace

-- The guard that the operations on a workspace or a pool pod start with.
unfoldable pub validate_names : Text → Text → Store (Unit {0})
unfolding both_valid
validate_names namespace workspace v = (both_valid (validate_workspace_name namespace) workspace, v)

abbrev pub workspace_prefix : Text
workspace_prefix = codes "ws-"

abbrev pub pool_prefix : Text
pool_prefix = codes "pool-"

abbrev pub project_id_prefix : Text
project_id_prefix = codes "projid-"

abbrev pub publish_prefix : Text
publish_prefix = codes "vol-"

abbrev pub counter_path : Text
counter_path = codes "next-project-id"

abbrev pub draining_path : Text
draining_path = codes "draining"

unfoldable pub workspace_link : Text → Text → Text
workspace_link namespace workspace = workspace_prefix ++ (namespace ++ b'.' ∷ workspace)

unfoldable pub legacy_link : Text → Text
legacy_link workspace = workspace_prefix ++ workspace

unfoldable pub pool_link : Text → Text → Text
pool_link namespace pod = pool_prefix ++ (namespace ++ b'.' ∷ pod)

unfoldable pub project_id_path : SlotId → Text
project_id_path id = project_id_prefix ++ id.as_str

unfoldable pub flushed_path : SlotId → Text
flushed_path id = codes "flushed-" ++ id.as_str

-- The 64-bit FNV-1a hash of the bytes.
fnv_step : List ℕ → ℕ → ℕ
fnv_step [] hash = hash
fnv_step (byte ∷ bytes) hash = fnv_step bytes (bit_xor hash byte * 0x100000001B3 % 2 ^ 64)

hex_digit : ℕ → ℕ
hex_digit d = if ltb d 10 then b'0' + d else b'a' + (d - 10)

hex : ℕ → ℕ → Text
unfolding hex_digit
hex zero n = []
hex (suc w) n = hex_digit (n / 16 ^ w % 16) ∷ hex w n

unfoldable pub publish_path : Text → Text
unfolding fnv_step hex
publish_path volume_id = publish_prefix ++ hex 16 (fnv_step (as_bytes volume_id) 0xCBF29CE484222325)
