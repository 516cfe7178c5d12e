-- ===== src/Tests/Editors.antt =====
-- Runs of the editor service.
use dyrectorio.Prelude.{
  Bool, List, String, [], false, none, refl, suc, true, zero, ℕ, ◌∷◌, ◌≡◌, ◌⊎◌,
}
use dyrectorio.EditorService.{
  EditorMessage, EditorEvent, joined, left, input_focused, item_deleted, white, new_service,
  find_color, generate_or_get, free, on_focus, on_client_join, on_client_left, on_delete_item,
  on_event, on_events,
}
use dyrectorio.EditorService.Events.{color-IsOwn}

-- A search that finds two colours, and one that finds none.
abbrev two_colors : ℕ → String × Bool
two_colors zero = ("#204080", true)
two_colors (suc n) = ("#804020", true)

abbrev no_colors : ℕ → String × Bool
no_colors n = ("#000000", false)

abbrev editor_of : String → String → EditorMessage
editor_of id color = record {
  id = id;
  name = "Ada";
  color = color;
  focused_item_id = none;
  focused_input_id = none;
}

abbrev joins : List EditorEvent
joins =
    joined two_colors "a" "Ada"
    ∷ joined two_colors "b" "Ada"
    ∷ left "a"
    ∷ joined no_colors "c" "Ada"
    ∷ joined no_colors "d" "Ada"
    ∷ joined two_colors "e" "Ada"
    ∷ []

-- The colour of the user that left is given again, and two users are white.
joins_test :
    (on_events joins new_service).editors
    ≡ ("b", editor_of "b" "#804020")
      ∷ ("c", editor_of "c" white)
      ∷ ("d", editor_of "d" white)
      ∷ ("e", editor_of "e" "#204080")
      ∷ []
unfolding on_events on_event on_client_join on_client_left generate_or_get find_color free
joins_test = refl

color-IsOwn_example : (white ≡ white) ⊎ ◌≡◌ {A = String} "c" "d"
unfolding on_events on_event on_client_join on_client_left generate_or_get find_color free
color-IsOwn_example =
    color-IsOwn joins "c" "d" (editor_of "c" white) (editor_of "d" white) refl refl refl

focus_test :
    (on_events
      (joined two_colors "a" "Ada"
        ∷ input_focused "a" (record { item_id = "image"; input_id = "tag" })
        ∷ item_deleted "image"
        ∷ [])
      new_service).editors
    ≡ ("a", editor_of "a" "#204080") ∷ []
unfolding on_events on_event on_client_join on_focus on_delete_item generate_or_get find_color
focus_test = refl
