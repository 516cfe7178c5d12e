-- ===== src/EditorService/Events.antt =====
-- The calls of app/editor/editor.service.ts in any order.
use mathlib.Core.Option
use mathlib.Core.Path.{subst}
use dyrectorio.Prelude.{
  ◌∙◌, set, filter, Bool, Bool-cases, List, Option, String, [], arith, false, inl, inr, lookup,
  lookup-filter, lookup-set, map, none, not, refl, some, string_eq, ℕ, ◌*◌, ◌==◌, ◌∷◌, ◌≡◌, ◌⊎◌,
  nat_eq,
}
use dyrectorio.EditorService.{
  EditorColorProvider, EditorService, EditorMessage, InputFocusMessage, EditorEvent, joined, left,
  input_focused, input_blurred, item_deleted, white, new_service, find_color, take_color,
  generate_for, generate_or_get, free_color, free, focus_editor, on_focus, on_blur, unfocus,
  on_delete_item, on_client_join, on_client_left, is_item, rounds, attempts_per_multiplier,
  on_event, on_events,
}
use dyrectorio.EditorService.Colors.{
  IsDistinct, take_color-IsDistinct, free_color-IsDistinct, find_color-unused,
}

-- The colour of a user is white, or the one that is kept for the user.
abbrev pub IsColor : EditorColorProvider → String → String → Type 0
IsColor p token color = (color ≡ white) ⊎ (lookup token p.colors ≡ some color)

abbrev pub IsColored : EditorColorProvider → String → Option EditorMessage → Type 0
IsColored p token none = Unit {0}
IsColored p token (some e) = IsColor p token e.color

abbrev pub IsConsistent : EditorService → Type 0
IsConsistent s =
    IsDistinct s.provider × ((token : String) → IsColored s.provider token (lookup token s.editors))

take_color-IsColor :
    (found : Option String) (id : String) (p : EditorColorProvider)
    → IsColor (take_color found id p).0 id (take_color found id p).1
take_color-IsColor none id p = inl refl
take_color-IsColor (some color) id p =
    inr (ground (arith, lookup-set id id color p.colors, string_eq.beq_iff id id))

take_color-lookup :
    (found : Option String) (id j : String) (p : EditorColorProvider)
    → (id == j) ≡ false
    → lookup j (take_color found id p).0.colors ≡ lookup j p.colors
take_color-lookup none id j p h = refl
take_color-lookup (some color) id j p h = ground (arith, lookup-set id j color p.colors)

-- What a call for a colour gives: the provider and the colour.
abbrev IsGenerated : String → EditorColorProvider → EditorColorProvider × String → Type 0
IsGenerated id p r =
    IsDistinct r.0
    × IsColor r.0 id r.1
    × ((j : String) → (id == j) ≡ false → lookup j r.0.colors ≡ lookup j p.colors)

take_color-IsGenerated :
    (candidate : ℕ → String × Bool) (id : String) (p : EditorColorProvider)
    → IsDistinct p
    → IsGenerated id p
        (take_color (find_color (rounds * attempts_per_multiplier) 0 candidate p.in_use) id p)
take_color-IsGenerated candidate id p h = (
  take_color-IsDistinct (find_color (rounds * attempts_per_multiplier) 0 candidate p.in_use) id p
      (find_color-unused (rounds * attempts_per_multiplier) 0 candidate p.in_use) h,
  take_color-IsColor (find_color (rounds * attempts_per_multiplier) 0 candidate p.in_use) id p,
  λ j.
      take_color-lookup (find_color (rounds * attempts_per_multiplier) 0 candidate p.in_use) id j p,
)

generate_for-IsGenerated :
    (found : Option String) (candidate : ℕ → String × Bool) (id : String) (p : EditorColorProvider)
    → lookup id p.colors ≡ found
    → IsDistinct p
    → IsGenerated id p (generate_for found candidate id p)
generate_for-IsGenerated none candidate id p e h = take_color-IsGenerated candidate id p h
generate_for-IsGenerated (some color) candidate id p e h = elim (Bool-cases (color == "")) [
  | inl t ↦ rw t (take_color-IsGenerated candidate id p h)
  | inr t ↦ rw t (h, inr e, λ j _. refl)
]

free_color-lookup :
    (found : Option String) (id j : String) (p : EditorColorProvider)
    → (j == id) ≡ false
    → lookup j (free_color found id p).colors ≡ lookup j p.colors
free_color-lookup none id j p h = refl
free_color-lookup (some color) id j p h =
    ground (arith, lookup-filter (λ k. not (k == id)) j p.colors)

-- A user's colour stays the one that is kept when the provider keeps the user's colour.
IsColored-kept :
    (p q : EditorColorProvider) (token : String) (e : Option EditorMessage)
    → lookup token q.colors ≡ lookup token p.colors
    → IsColored p token e
    → IsColored q token e
IsColored-kept p q token none h k = tt
IsColored-kept p q token (some e) h (inl w) = inl w
IsColored-kept p q token (some e) h (inr w) = inr (h ∙ w)

set-IsColored :
    (p : EditorColorProvider) (token t : String) (e : EditorMessage)
    (editors : List (String × EditorMessage))
    → IsColor p token e.color
    → ((token == t) ≡ false → IsColored p t (lookup t editors))
    → IsColored p t (lookup t (set token e editors))
set-IsColored p token t e editors h others =
    rw (lookup-set token t e editors) (elim (Bool-cases (token == t)) [
      | inl same ↦ rw same (subst (λ k. IsColor p k e.color) ((string_eq.beq_iff token t).0 same) h)
      | inr other ↦ rw other (others other)
    ])

focus_editor-IsConsistent :
    (found : Option EditorMessage) (token : String) (item input : Option String)
    (message : InputFocusMessage) (s : EditorService)
    → lookup token s.editors ≡ found
    → IsConsistent s
    → IsConsistent (focus_editor found token item input message s).0
focus_editor-IsConsistent none token item input message s e h = h
focus_editor-IsConsistent (some editor) token item input message s e h = (
  h.0,
  λ t.
      set-IsColored s.provider token t
        (record editor { focused_item_id = item; focused_input_id = input }) s.editors
        (subst (λ x. IsColored s.provider token x) e (h.1 token)) (λ _. h.1 t),
)

joined-IsConsistent :
    (r : EditorColorProvider × String) (token name : String) (s : EditorService)
    → IsGenerated token s.provider r
    → IsConsistent s
    → IsConsistent (record {
      editors =
          set token
            (record {
              id = token;
              name = name;
              color = r.1;
              focused_item_id = none;
              focused_input_id = none;
            })
            s.editors;
      provider = r.0;
    })
joined-IsConsistent r token name s g h = (
  g.0,
  λ t.
      set-IsColored r.0 token t
        (record {
          id = token;
          name = name;
          color = r.1;
          focused_item_id = none;
          focused_input_id = none;
        })
        s.editors g.1
        (λ other. IsColored-kept s.provider r.0 t (lookup t s.editors) (g.2 t other) (h.1 t)),
)

left-IsConsistent :
    (token : String) (s : EditorService)
    → IsConsistent s
    → IsConsistent (record {
      editors = filter (λ e. not (e.0 == token)) s.editors;
      provider = free_color (lookup token s.provider.colors) token s.provider;
    })
left-IsConsistent token s h = (
  free_color-IsDistinct (lookup token s.provider.colors) token s.provider refl h.0,
  λ t. rw (lookup-filter (λ k. not (k == token)) t s.editors) (elim (Bool-cases (t == token)) [
    | inl same ↦ rw same tt
    | inr other ↦ rw other (
        IsColored-kept s.provider (free_color (lookup token s.provider.colors) token s.provider) t
          (lookup t s.editors)
          (free_color-lookup (lookup token s.provider.colors) token t s.provider other) (h.1 t))
  ]),
)

lookup-unfocus :
    (item k : String) (m : List (String × EditorMessage))
    → lookup k (map (λ e. (e.0, unfocus item e.1)) m) ≡ Option.map (unfocus item) (lookup k m)
lookup-unfocus item k [] = refl
lookup-unfocus item k ((i, w) ∷ m) = ground (arith, lookup-unfocus item k m)

unfocus-IsColored :
    (item : String) (p : EditorColorProvider) (token : String) (e : Option EditorMessage)
    → IsColored p token e
    → IsColored p token (Option.map (unfocus item) e)
unfocus-IsColored item p token none h = tt
unfocus-IsColored item p token (some e) h = elim (Bool-cases (is_item e.focused_item_id item)) [
  | inl t ↦ rw t h
  | inr t ↦ rw t h
]

on_event-IsConsistent :
    (event : EditorEvent) (s : EditorService) → IsConsistent s → IsConsistent (on_event event s)
unfolding on_event on_client_join on_client_left on_focus on_blur on_delete_item generate_or_get
    free
on_event-IsConsistent (joined candidate token name) s h =
    joined-IsConsistent (generate_for (lookup token s.provider.colors) candidate token s.provider)
      token name s
      (generate_for-IsGenerated (lookup token s.provider.colors) candidate token s.provider refl
        h.0)
      h
on_event-IsConsistent (left token) s h = left-IsConsistent token s h
on_event-IsConsistent (input_focused token message) s h =
    focus_editor-IsConsistent (lookup token s.editors) token (some message.item_id)
      (some message.input_id) message s refl h
on_event-IsConsistent (input_blurred token message) s h =
    focus_editor-IsConsistent (lookup token s.editors) token none none message s refl h
on_event-IsConsistent (item_deleted item) s h = (
  h.0,
  λ t.
      rw (lookup-unfocus item t s.editors)
        (unfocus-IsColored item s.provider t (lookup t s.editors) (h.1 t)),
)

on_events-IsConsistent :
    (events : List EditorEvent) (s : EditorService)
    → IsConsistent s
    → IsConsistent (on_events events s)
unfolding on_events
on_events-IsConsistent [] s h = h
on_events-IsConsistent (e ∷ es) s h =
    on_events-IsConsistent es (on_event e s) (on_event-IsConsistent e s h)

distinct_of_kept :
    (p : EditorColorProvider) (i j c d : String)
    → IsDistinct p
    → IsColor p i c
    → IsColor p j d
    → c ≡ d
    → (c ≡ white) ⊎ (i ≡ j)
distinct_of_kept p i j c d h (inl w) k e = inl w
distinct_of_kept p i j c d h (inr v) (inl w) e = inl (e ∙ w)
distinct_of_kept p i j c d h (inr v) (inr w) e = inr (h.1 i j c v (rw e w))

-- However users join, leave, focus inputs and blur them, and items are deleted, and whatever colours
-- are tried: two editors of an editor service that have one colour are the same one, unless the
-- colour is the white of a search for a colour that failed.
pub color-IsOwn :
    (events : List EditorEvent) (i j : String) (e f : EditorMessage)
    → lookup i (on_events events new_service).editors ≡ some e
    → lookup j (on_events events new_service).editors ≡ some f
    → e.color ≡ f.color
    → (e.color ≡ white) ⊎ (i ≡ j)
color-IsOwn events i j e f hi hj same =
    let h : IsConsistent (on_events events new_service) =
      on_events-IsConsistent events new_service ((λ _ _ k. cc, λ _ _ _ k. cc), λ _. tt) in
    distinct_of_kept (on_events events new_service).provider i j e.color f.color h.0
      (subst (λ x. IsColored (on_events events new_service).provider i x) hi (h.1 i))
      (subst (λ x. IsColored (on_events events new_service).provider j x) hj (h.1 j)) same
