-- ===== src/Tests/MediaElement.antt =====
-- MediaElementImpl.cpp at elements that are connected to element 1.
use kms_core.Prelude.{ℕ, ◌≡◌, refl, ap, sym, true, Option, none, some, [], ◌∷◌, arith}
use kms_core.MediaElement.{
  audio, Connection, Graph, source_at, erase_source, erase_sink, disconnect, link, connect,
  disconnect_all,
}
use kms_core.MediaElement.Disconnecting.{IsValid}
use kms_core.MediaElement.Clearing.{Clears, disconnect_all-Clears}
use kms_core.MediaElement.Linking.{link-IsValid}
use kms_core.MediaElement.Connecting.{Connects, connect-Connects}

abbrev from : ℕ → Connection
from element = record {
  source = element;
  sink = 1;
  type = audio;
  source_description = 0;
  sink_description = 0;
}

abbrev nothing : Graph
nothing = record { sinks = λ s. []; sources = λ k. [] }

nothing-IsValid : IsValid nothing
nothing-IsValid = record {
  outgoing = λ c s h. absurd (ground arith);
  incoming = λ c k h. absurd (ground arith);
  keyed = λ c d k h. absurd (ground arith);
  distinct_sinks = λ s. refl;
  distinct_sources = λ k. refl;
}

abbrev single : Graph
single = link nothing (from 0)

single-IsValid : IsValid single
single-IsValid = link-IsValid nothing nothing-IsValid (from 0) (λ x key. refl)

abbrev description_of : Option Connection → ℕ
description_of none = 0
description_of (some c) = c.source_description

same_description :
    (old : Connection)
    → source_at (single.sources 1) audio 0 ≡ some old
    → old.source_description ≡ 0
unfolding link source_at erase_source
same_description old found = sym (ap description_of found)

connect-Connects_example :
    (after : Graph) × (connect (λ a b. true) (λ c. true) single (from 2) ≡ (after, true))
    × Connects (from 2) single after
connect-Connects_example =
    connect-Connects (λ a b. true) (λ c. true) single (from 2) refl refl same_description
      single-IsValid

disconnect_all-Clears_example :
    (after : Graph) × (disconnect_all 2 single 1 ≡ some after) × Clears 1 single after
disconnect_all-Clears_example = disconnect_all-Clears 2 single 1 (ground arith) single-IsValid

-- An element that is not connected takes another one's connection from the sink.
foreign_sources : (disconnect single (from 2)).sources 1 ≡ []
unfolding disconnect link source_at erase_source erase_sink
foreign_sources = refl

foreign_sinks : (disconnect single (from 2)).sinks 0 ≡ from 0 ∷ []
unfolding disconnect link source_at erase_source erase_sink
foreign_sinks = refl
