-- ===== src/Examples/Scopes.antt =====
-- Variables in two frames, one of them twice.
use bqemulator.Prelude.{◌≡◌, refl, true, List, [], ◌∷◌, text, text_eq, list_beq}
use bqemulator.Dict.{get}
use bqemulator.Scripting.Syntax.{null, boolean}
use bqemulator.Scripting.Frames.{Frame, Variable, block, root, lookup, all_visible}
use bqemulator.Scripting.Scopes.{value_in, SetsOrRefuses, lookup-set, get-all_visible}

abbrev holds_null : Variable Unit
holds_null = record { type_name = text "INT64"; value = null }

abbrev nested : List (Frame Unit)
nested =
    record { kind = block; variables = (text "x", holds_null) ∷ [] }
    ∷ record { kind = root; variables = (text "y", holds_null) ∷ (text "x", holds_null) ∷ [] }
    ∷ []

lookup-set_example : SetsOrRefuses nested (text "y") (boolean true)
lookup-set_example = lookup-set nested (text "y") (boolean true)

get-all_visible_example : value_in (get (all_visible nested) (text "x")) ≡ lookup (text "x") nested
unfolding get list_beq
get-all_visible_example = get-all_visible nested (text "x") ((refl, tt), ((refl, (refl, tt)), tt))
