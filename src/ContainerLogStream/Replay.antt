-- ===== src/ContainerLogStream/Replay.antt =====
-- What a new watcher of domain/container-log-stream.ts is shown.
use mathlib.Core.Option
use dyrectorio.Prelude.{
  refl, is_some, Bool, Bool-cases, List, Option, [], false, fold, if◌then◌else◌, inl, inr, none,
  some, true, ℕ, ◌++◌, ◌==◌, ◌∷◌, ◌≡◌, string_eq, nat_eq, sym, ◌∙◌, arith,
}
use dyrectorio.FixedLengthLinkedList
use dyrectorio.FixedLengthLinkedList.Window.{
  last_items, capacity, IsValid, push-window, resize-window, push-max_size, last_items-append,
}
use dyrectorio.ContainerLogStream.{
  ContainerLogStream, AgentTunnel, Effect, watch, resize, on_agent_stream_started, on_message,
  on_agent_stream_finished, open_tunnel, connect_tunnel, finish_tunnel, new_stream,
  ContainerIdentifier, replay, log_started, command, get_started_message, send_command,
  AgentCommand,
}

-- A call of a method, or of a function given to the library.
pub data Event (M : Type 0) : Type 0 where
  watching : Event M
  resizing : ℕ → Event M
  stream_started : Event M
  message : M → Event M
  stream_finished : Bool → Event M

module _ {M : Type 0} where
  abbrev pub step : ContainerLogStream M → Event M → Option (ContainerLogStream M × List (Effect M))
  step s watching = some (watch s)
  step s (resizing size) = resize s size
  step s stream_started = some (on_agent_stream_started s)
  step s (message m) = some (on_message s m)
  step s (stream_finished watched) = some (on_agent_stream_finished s watched)

  -- The stream after the events.
  abbrev pub run : Option (ContainerLogStream M) → List (Event M) → Option (ContainerLogStream M)
  run none [] = none
  run none (e ∷ es) = none
  run (some s) [] = some s
  run (some s) (e ∷ es) = run (Option.map (λ r. r.0) (step s e)) es

  -- The tail that is asked for, and the messages since it changed.
  abbrev pub received : ℕ × List M → Event M → ℕ × List M
  received (tail, ms) watching = (tail, ms)
  received (tail, ms) (resizing size) = if tail == size then (tail, ms) else (size, [])
  received (tail, ms) stream_started = (tail, ms)
  received (tail, ms) (message m) = (tail, ms ++ m ∷ [])
  received (tail, ms) (stream_finished watched) = (tail, ms)

module _ {M : Type 0} (container : ContainerIdentifier) where
  -- The cache holds the last ones of the messages, as many as the tail says.
  abbrev pub IsReplay : ContainerLogStream M → ℕ × List M → Type 0
  IsReplay s (tail, ms) =
      (s.container ≡ container)
      × (s.tail ≡ tail)
      × (s.cache.max_size ≡ tail)
      × (s.cache.first ≡ last_items (capacity tail) ms)
      × IsValid s.cache

  abbrev pub Replays : Option (ContainerLogStream M) → ℕ × List M → Type 0
  Replays none r = ⊥
  Replays (some s) r = IsReplay s r

  open_tunnel-IsReplay :
      (t : Option AgentTunnel) (s : ContainerLogStream M) (r : ℕ × List M)
      → IsReplay s r
      → IsReplay (open_tunnel t s).0 r
  open_tunnel-IsReplay none s r h = h
  open_tunnel-IsReplay (some t) s r h = h

  connect_tunnel-IsReplay :
      (t : Option AgentTunnel) (s : ContainerLogStream M) (r : ℕ × List M)
      → IsReplay s r
      → IsReplay (connect_tunnel t s).0 r
  connect_tunnel-IsReplay none s r h = h
  connect_tunnel-IsReplay (some t) s r h = elim (Bool-cases t.agent_connected) [
    | inl e ↦ rw e h
    | inr e ↦ rw e h
  ]

  finish_tunnel-IsReplay :
      (t : Option AgentTunnel) (watched : Bool) (s : ContainerLogStream M) (r : ℕ × List M)
      → IsReplay s r
      → IsReplay (finish_tunnel t watched s).0 r
  finish_tunnel-IsReplay none watched s r h = h
  finish_tunnel-IsReplay (some t) true s r h = h
  finish_tunnel-IsReplay (some t) false s r h = h

  on_message-IsReplay :
      (s : ContainerLogStream M) (m : M) (tail : ℕ) (ms : List M)
      → IsReplay s (tail, ms)
      → IsReplay (on_message s m).0 (tail, ms ++ m ∷ [])
  unfolding on_message
  on_message-IsReplay s m tail ms (of, asked, bound, shown, valid) =
      let (same, next) = push-window s.cache m valid in
      (
        of,
        asked,
        push-max_size s.cache m ∙ bound,
        same ∙ rw (bound, shown) (last_items-append (capacity tail) ms (m ∷ [])),
        next,
      )

  resize-Replays :
      (s : ContainerLogStream M) (size tail : ℕ) (ms : List M)
      → IsReplay s (tail, ms)
      → Replays (Option.map (λ r. r.0) (resize s size)) (received (tail, ms) (resizing size))
  unfolding resize FixedLengthLinkedList.clear
  resize-Replays s size tail ms (of, asked, bound, shown, valid) =
      rw (sym asked) (elim (Bool-cases (s.tail == size)) [
        | inl same ↦ rw same (of, refl, bound ∙ sym asked, rw asked shown, valid)
        | inr other ↦
            rw (other, resize-window (FixedLengthLinkedList.clear s.cache) size (refl, omega arith))
              (of, refl, refl, refl, (refl, omega arith))
      ])

  step-Replays :
      (s : ContainerLogStream M) (r : ℕ × List M) (e : Event M)
      → IsReplay s r
      → Replays (Option.map (λ r. r.0) (step s e)) (received r e)
  unfolding watch on_agent_stream_started on_agent_stream_finished
  step-Replays s r watching h = open_tunnel-IsReplay s.current_tunnel s r h
  step-Replays s (tail, ms) (resizing size) h = resize-Replays s size tail ms h
  step-Replays s r stream_started h = connect_tunnel-IsReplay s.current_tunnel s r h
  step-Replays s (tail, ms) (message m) h = on_message-IsReplay s m tail ms h
  step-Replays s r (stream_finished watched) h =
      finish_tunnel-IsReplay s.current_tunnel watched s r h

  run-Replays :
      (s : Option (ContainerLogStream M)) (r : ℕ × List M) (es : List (Event M))
      → Replays s r
      → Replays (run s es) (fold received r es)
  run-Replays none r [] h = h
  run-Replays none r (e ∷ es) h = elim h [ ]
  run-Replays (some s) r [] h = h
  run-Replays (some s) r (e ∷ es) h =
      run-Replays (Option.map (λ r. r.0) (step s e)) (received r e) es (step-Replays s r e h)

  -- What a watcher of the stream is shown: the stream is opened where it is not.
  abbrev pub Shows : ContainerLogStream M → ℕ × List M → Type 0
  Shows s (tail, ms) =
      let shown = replay (last_items (capacity tail) ms) ∷ log_started container tail ∷ [] in
      (watch s).1 ≡ (
        if is_some s.current_tunnel
        then shown
        else command (AgentCommand.container_log container true tail) ∷ shown)

  open_tunnel-Shows :
      (t : Option AgentTunnel) (s : ContainerLogStream M) (r : ℕ × List M)
      → IsReplay s r
      → (open_tunnel t s).1 ++ replay s.cache.first ∷ log_started s.container s.tail ∷ [] ≡ (
          let shown = replay (last_items (capacity r.0) r.1) ∷ log_started container r.0 ∷ [] in
          if is_some t
          then shown
          else command (AgentCommand.container_log container true r.0) ∷ shown)
  unfolding send_command
  open_tunnel-Shows none s r (of, asked, bound, shown, valid) = rw (of, asked, shown) refl
  open_tunnel-Shows (some t) s r (of, asked, bound, shown, valid) = rw (of, asked, shown) refl

  Replays-Shows :
      (o : Option (ContainerLogStream M)) (r : ℕ × List M)
      → Replays o r
      → (s : ContainerLogStream M) × (o ≡ some s) × Shows s r
  unfolding watch get_started_message
  Replays-Shows none r h = elim h [ ]
  Replays-Shows (some s) r h = (s, refl, open_tunnel-Shows s.current_tunnel s r h)

  -- A new log stream takes whatever calls, messages and ends of streams without an exception of its
  -- cache, and whoever watches then is first shown the last messages that came since the tail was
  -- changed, as many as the tail says (one where it is 0), and then the started message with that
  -- tail; the agent is asked for a stream with that tail exactly where there was no tunnel.
  pub new_stream-Shows :
      (tail : ℕ) (es : List (Event M))
      → (s : ContainerLogStream M) × (run (new_stream container tail) es ≡ some s)
        × Shows s (fold received (tail, []) es)
  unfolding new_stream FixedLengthLinkedList.new_list
  new_stream-Shows tail es = Replays-Shows _ _ (
      run-Replays (new_stream container tail) (tail, []) es
        (refl, refl, refl, refl, (refl, omega arith)))
