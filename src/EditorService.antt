-- ===== src/EditorService.antt =====
-- app/editor/editor.service.ts and editor.color.provider.ts: who edits what, and in which colour. The
-- colours that are tried are an argument: for each attempt the random colour as a text, and whether
-- its saturation and its lightness are in range. The name of a user is that of the identity.
pub mod Colors
pub mod Events
use dyrectorio.Prelude.{
  Bool, List, Option, String, [], contains, false, filter, if◌then◌else◌, lookup, map, none, not,
  set, some, suc, zero, ℕ, ◌&&◌, ◌*◌, ◌++◌, ◌+◌, ◌-◌, ◌==◌, ◌∷◌, string_eq, nat_eq,
}
use dyrectorio.AgentCommand.{CruxError, Result, ok, err}

-- The rounds of the loop over the multipliers 1, 0.8, 0.6000000000000001, 0.4000000000000001 and
-- 0.2000000000000001, which is above 0.2.
abbrev pub rounds : ℕ
rounds = 5

abbrev pub attempts_per_multiplier : ℕ
attempts_per_multiplier = 256

abbrev pub white : String
white = "#ffffff"

pub record EditorColorProvider : Type 0 where
  pub colors : List (String × String)
  pub in_use : List String

pub record EditorMessage : Type 0 where
  pub id : String
  pub name : String
  pub color : String
  pub focused_item_id : Option String
  pub focused_input_id : Option String

pub record EditorLeftMessage : Type 0 where
  pub id : String
  pub focused_item_id : Option String
  pub focused_input_id : Option String

pub record InputFocusMessage : Type 0 where
  pub item_id : String
  pub input_id : String

pub record InputFocusChangeMessage : Type 0 where
  pub message : InputFocusMessage
  pub user_id : String

pub record EditorService : Type 0 where
  pub editors : List (String × EditorMessage)
  pub provider : EditorColorProvider

abbrev pub new_provider : EditorColorProvider
new_provider = record { colors = []; in_use = [] }

abbrev pub new_service : EditorService
new_service = record { editors = []; provider = new_provider }

-- The colour of the first attempt that is in range and not in use, from an attempt on.
unfoldable pub find_color : ℕ → ℕ → (ℕ → String × Bool) → List String → Option String
find_color zero attempt candidate in_use = none
find_color (suc left) attempt candidate in_use =
    let rest = find_color left (attempt + 1) candidate in_use in
    let (color, in_range) = candidate attempt in
    if in_range && not (contains in_use color) then some color else rest

abbrev pub take_color : Option String → String → EditorColorProvider → EditorColorProvider × String
take_color none id p = (p, white)
take_color (some color) id p =
    (record { colors = set id color p.colors; in_use = p.in_use ++ color ∷ [] }, color)

abbrev pub generate_for :
    Option String
    → (ℕ → String × Bool)
    → String
    → EditorColorProvider
    → EditorColorProvider × String
generate_for (some color) candidate id p =
    if color == ""
    then take_color (find_color (rounds * attempts_per_multiplier) 0 candidate p.in_use) id p
    else (p, color)
generate_for none candidate id p =
    take_color (find_color (rounds * attempts_per_multiplier) 0 candidate p.in_use) id p

unfoldable pub generate_or_get :
    (ℕ → String × Bool) → String → EditorColorProvider → EditorColorProvider × String
unfolding find_color
generate_or_get candidate id p = generate_for (lookup id p.colors) candidate id p

abbrev pub free_color : Option String → String → EditorColorProvider → EditorColorProvider
free_color none id p = p
free_color (some color) id p = if color == "" then p else record {
  colors = filter (λ e. not (e.0 == id)) p.colors;
  in_use = filter (λ c. not (c == color)) p.in_use;
}

unfoldable pub free : String → EditorColorProvider → EditorColorProvider
free id p = free_color (lookup id p.colors) id p

abbrev pub focus_editor :
    Option EditorMessage
    → String
    → Option String
    → Option String
    → InputFocusMessage
    → EditorService
    → EditorService × Result InputFocusChangeMessage
focus_editor none token item input message s = (s, err CruxError.type_error)
focus_editor (some editor) token item input message s = (
  record s {
    editors =
        set token (record editor { focused_item_id = item; focused_input_id = input }) s.editors;
  },
  ok (record { message = message; user_id = token }),
)

unfoldable pub on_focus :
    String → InputFocusMessage → EditorService → EditorService × Result InputFocusChangeMessage
on_focus token message s =
    focus_editor (lookup token s.editors) token (some message.item_id) (some message.input_id)
      message s

unfoldable pub on_blur :
    String → InputFocusMessage → EditorService → EditorService × Result InputFocusChangeMessage
on_blur token message s = focus_editor (lookup token s.editors) token none none message s

abbrev pub is_item : Option String → String → Bool
is_item none item = false
is_item (some i) item = i == item

abbrev pub unfocus : String → EditorMessage → EditorMessage
unfocus item user =
    if is_item user.focused_item_id item
    then record user { focused_item_id = none; focused_input_id = none }
    else user

unfoldable pub on_delete_item : String → EditorService → EditorService
on_delete_item item s = record s { editors = map (λ e. (e.0, unfocus item e.1)) s.editors }

unfoldable pub on_client_join :
    (ℕ → String × Bool) → String → String → EditorService → EditorService × EditorMessage
unfolding generate_or_get
on_client_join candidate token name s =
    let (provider, color) = generate_or_get candidate token s.provider in
    let editor : EditorMessage = record {
      id = token;
      name = name;
      color = color;
      focused_item_id = none;
      focused_input_id = none;
    } in
    (record { editors = set token editor s.editors; provider = provider }, editor)

abbrev pub left_message : String → Option EditorMessage → Option EditorLeftMessage
left_message token none = none
left_message token (some editor) = some (record {
  id = token;
  focused_item_id = editor.focused_item_id;
  focused_input_id = editor.focused_input_id;
})

unfoldable pub on_client_left : String → EditorService → EditorService × Option EditorLeftMessage
unfolding free
on_client_left token s = (
  record { editors = filter (λ e. not (e.0 == token)) s.editors; provider = free token s.provider },
  left_message token (lookup token s.editors),
)

-- The calls of the websocket handlers.
pub data EditorEvent : Type 0 where
  joined : (ℕ → String × Bool) → String → String → EditorEvent
  left : String → EditorEvent
  input_focused : String → InputFocusMessage → EditorEvent
  input_blurred : String → InputFocusMessage → EditorEvent
  item_deleted : String → EditorEvent

unfoldable pub on_event : EditorEvent → EditorService → EditorService
unfolding on_client_join on_client_left on_focus on_blur on_delete_item
on_event (joined candidate token name) s = (on_client_join candidate token name s).0
on_event (left token) s = (on_client_left token s).0
on_event (input_focused token message) s = (on_focus token message s).0
on_event (input_blurred token message) s = (on_blur token message s).0
on_event (item_deleted item) s = on_delete_item item s

unfoldable pub on_events : List EditorEvent → EditorService → EditorService
unfolding on_event
on_events [] s = s
on_events (e ∷ es) s = on_events es (on_event e s)
