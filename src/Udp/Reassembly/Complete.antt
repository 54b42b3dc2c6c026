-- ===== src/Udp/Reassembly/Complete.antt =====
-- Once each fragment of a frame has come, in any order, the frame is there.
use messaging_app.Prelude.{List, Option, ℕ}
use messaging_app.Udp.Reassembly.{Partial}
use messaging_app.Udp.Reassembly.AnyOrder.{Event, add_message, received}

module _ (conn_id seq : ℕ) (frame : List ℕ) where
  -- What a run makes of the outcome of its first fragment.
  go_on : List Event → List (ℕ × Partial) × Option (List ℕ) → List (List ℕ)
  go_on es r = (add_message r.1 (received conn_id seq frame es r.0)).1
