-- ===== src/Registry/Labels.antt =====
-- Node ids and labels (internal/cluster/registry_node.go). Of a map with too many labels the first
-- entries are kept: Go leaves open which.
use Prim.Native.Char.{code}
use Prim.Native.String.{[], ◌∷◌}
use mathlib.Core.List as List
use Prim.Native.String.{len}
use helion_v.Prelude.{
  ℕ, zero, suc, String, Bool, true, false, not, ◌&&◌, ◌||◌, Assoc, length, leb, ltb, ◌==◌, str_eq,
  if◌then◌else◌,
}

abbrev in_range : ℕ → ℕ → ℕ → Bool
in_range low high c = leb low c && leb c high

abbrev alphanumeric : ℕ → Bool
alphanumeric c = in_range b'a' b'z' c || in_range b'A' b'Z' c || in_range b'0' b'9' c

-- [a-zA-Z0-9\-]{0,n}
unfoldable pub id_tail : ℕ → String → Bool
id_tail n [] = true
id_tail zero (c ∷ s) = false
id_tail (suc n) (c ∷ s) = (alphanumeric (code c) || (code c == b'-')) && id_tail n s

-- validateNodeID
unfoldable pub valid_node_id : String → Bool
unfolding id_tail
valid_node_id [] = false
valid_node_id (c ∷ s) = alphanumeric (code c) && id_tail 62 s

-- No control character.
unfoldable pub printable : String → Bool
printable [] = true
printable (c ∷ s) = not (ltb (code c) 32 || (code c == 127)) && printable s

unfoldable pub without_equals : String → Bool
without_equals [] = true
without_equals (c ∷ s) = not (code c == b'=') && without_equals s

-- validLabelKey
unfoldable pub valid_label_key : String → Bool
unfolding printable without_equals
valid_label_key k = if str_eq k "" || ltb 63 (len k) then false else printable k && without_equals k

-- validLabelValue
unfoldable pub valid_label_value : String → Bool
unfolding printable
valid_label_value v = if ltb 253 (len v) then false else printable v

-- truncateLabelMap
unfoldable pub truncate_label_map : ℕ → Assoc String → Assoc String
truncate_label_map n List.[] = List.[]
truncate_label_map zero (List.◌∷◌ x xs) = List.[]
truncate_label_map (suc n) (List.◌∷◌ x xs) = List.◌∷◌ x (truncate_label_map n xs)

unfoldable pub valid_labels : Assoc String → Assoc String
unfolding valid_label_key valid_label_value
valid_labels List.[] = List.[]
valid_labels (List.◌∷◌ (k, v) rest) =
    let others = valid_labels rest in
    if not (valid_label_key k) || not (valid_label_value v) then others else List.◌∷◌ (k, v) others

-- sanitiseNodeLabels
unfoldable pub sanitise_node_labels : Assoc String → Assoc String
unfolding truncate_label_map valid_labels
sanitise_node_labels src =
    if ltb 32 (length src) then valid_labels (truncate_label_map 32 src) else valid_labels src
