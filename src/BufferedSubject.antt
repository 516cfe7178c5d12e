-- ===== src/BufferedSubject.antt =====
-- BufferedSubject of domain/utils.ts: what is sent while nobody listens is kept for the first one who
-- does. The calls of `super.next`, the subject of the library, are recorded in order; `observed` is
-- the library's, true from a subscription until the last one ends.
pub mod Order
use dyrectorio.Prelude.{Bool, true, false, List, [], ◌∷◌, ◌++◌, if◌then◌else◌}

pub record BufferedSubject (T : Type 0) : Type 0 where
  pub observed : Bool
  pub buffer : List T
  pub sent : List T

module _ {T : Type 0} where
  abbrev pub new_subject : BufferedSubject T
  new_subject = record { observed = false; buffer = []; sent = [] }

  unfoldable pub next : BufferedSubject T → T → BufferedSubject T
  next s value =
      if s.observed
      then record s { sent = s.sent ++ value ∷ [] }
      else record s { buffer = s.buffer ++ value ∷ [] }

  unfoldable pub subscribe : BufferedSubject T → BufferedSubject T
  subscribe s = record { observed = true; buffer = []; sent = s.sent ++ s.buffer }

  -- The last subscription ends: the library's part.
  unfoldable pub unobserved : BufferedSubject T → BufferedSubject T
  unobserved s = record s { observed = false }
