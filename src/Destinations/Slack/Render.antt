-- ===== src/Destinations/Slack/Render.antt =====
-- The message of a row.
use Prim.Native.Char.{Char}
use vortara.Base.{zero, String, false, none, ◌≡◌, refl, ap, arith}
use vortara.Destinations.Slack.{placeholder, render_from, render_message}
use vortara.Runtime.{Runtime}
use vortara.Text.{contains, has_prefix}
use vortara.Value.{Payload}

no_placeholder : (s : String) → has_prefix s "{{" ≡ false → placeholder s ≡ none
unfolding placeholder
no_placeholder s h = rw (h, placeholder) refl

contains_here :
    (c : Char) (s : String)
    → contains (String.◌∷◌ c s) "{{" ≡ false
    → has_prefix (String.◌∷◌ c s) "{{" ≡ false
unfolding contains
contains_here c s h = ground arith

contains_later :
    (c : Char) (s : String) → contains (String.◌∷◌ c s) "{{" ≡ false → contains s "{{" ≡ false
unfolding contains
contains_later c s h = ground arith

render_from-plain :
    (rt : Runtime) (row : Payload) (s : String)
    → contains s "{{" ≡ false
    → render_from rt row s zero ≡ s
unfolding render_from
render_from-plain rt row String.[] h = refl
render_from-plain rt row (String.◌∷◌ c s) h =
    rw (no_placeholder (String.◌∷◌ c s) (contains_here c s h), render_from)
      (ap (λ t. String.◌∷◌ c t) (render_from-plain rt row s (contains_later c s h)))

-- A message template without two opening braces is sent as it is for every row.
render_message-plain :
    (rt : Runtime) (template : String) (row : Payload)
    → contains template "{{" ≡ false
    → render_message rt template row ≡ template
unfolding render_message
render_message-plain rt template row h = render_from-plain rt row template h
