-- ===== src/Multiplexer/Reached.antt =====
-- The ids in use, in every state that a multiplexer comes to.
use fitz_py.Prelude.{ℕ, Bool, true, false, [], ◌∷◌, List, if◌then◌else◌}
use fitz_py.Prelude.Bytes.{Bytes}
use fitz_py.Prelude.Dict.{Dict, nat_key}
use fitz_py.Errors.{Error}
use fitz_py.Multiplexer.{
  Multiplexer, issue_request, set_connected, set_disconnected, set_capabilities, send_done,
  send_failed, send_cancelled, wait_timed_out, wait_cancelled, dispatch_correlated, dispatch,
}

-- What happens to a multiplexer. A connection that is lost fails every request and drops its id, and
-- until the next one is up requests are refused: the ids start again only when none is registered.
pub data Event : Type 0 where
  issues : Bytes → ℕ → Event
  sent times_out gives_up : ℕ → Event
  send_fails : ℕ → Error → Event
  send_stops : Bool → ℕ → Event
  answers : ℕ → Bytes → Bool → Event
  pushes : ℕ → Bytes → Event
  negotiates : ℕ → ℕ → Event
  disconnects connects : Event

is_none : {A : Type 0} → List A → Bool
is_none [] = true
is_none (x ∷ xs) = false

unfoldable pub step : Event → Multiplexer → Multiplexer
unfolding is_none
step (issues frame flags) m = (issue_request frame flags m).1
step (sent i) m = send_done i m
step (times_out i) m = (wait_timed_out i m).1
step (gives_up i) m = (wait_cancelled i m).1
step (send_fails i e) m = (send_failed i e m).1
step (send_stops b i) m = (send_cancelled b i m).1
step (answers id payload final) m = (dispatch_correlated id payload final m).1
step (pushes kind payload) m = dispatch kind payload m
step (negotiates version capabilities) m = set_capabilities version capabilities m
step disconnects m = set_disconnected m
step connects m = if is_none m.correlated then set_connected m else m

unfoldable pub run : List Event → Multiplexer → Multiplexer
run [] m = m
run (e ∷ es) m = run es (step e m)
