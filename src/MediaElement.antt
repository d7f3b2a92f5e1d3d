-- ===== src/MediaElement.antt =====
-- src/server/implementation/objects/MediaElementImpl.cpp: how media elements are connected. Elements and
-- descriptions are numbers. The connections that an element sends to, and those that it receives from,
-- are lists: the maps of the code, whose keys are fields of the connections in them. The request and the
-- release of pads is GStreamer's: what a request answers is a parameter.
pub mod Links
pub mod Disconnecting
pub mod Clearing
pub mod Linking
pub mod Connecting
use kms_core.Prelude.{
  ℕ, zero, suc, Bool, true, false, not, ◌&&◌, ◌||◌, Option, none, some, List, [], ◌∷◌, ◌++◌, ◌==◌,
  if◌then◌else◌,
}
use kms_core.Prelude.Sets.{at}

-- `MediaType`.
pub data MediaType : Type 0 where
  audio : MediaType
  video : MediaType
  data_channel : MediaType

abbrev pub type_value : MediaType → ℕ
type_value audio = 0
type_value video = 1
type_value data_channel = 2

-- `ElementConnectionDataInternal`, without its pads.
pub record Connection : Type 0 where
  pub source : ℕ
  pub sink : ℕ
  pub type : MediaType
  pub source_description : ℕ
  pub sink_description : ℕ

-- The members `sinks` and `sources` of all elements.
pub record Graph : Type 0 where
  pub sinks : ℕ → List Connection
  pub sources : ℕ → List Connection

-- The keys of `sources` that a connection has.
abbrev pub at_sink : MediaType → ℕ → Connection → Bool
at_sink type description c =
    type_value c.type == type_value type && c.sink_description == description

abbrev pub same_connection : Connection → Connection → Bool
same_connection a b =
    a.source == b.source
    && a.sink == b.sink
    && type_value a.type == type_value b.type
    && a.source_description == b.source_description
    && a.sink_description == b.sink_description

-- `sources.at (mediaType).at (sinkMediaDescription)`; none is the exception.
unfoldable pub source_at : List Connection → MediaType → ℕ → Option Connection
source_at [] type description = none
source_at (c ∷ cs) type description =
    if at_sink type description c then some c else source_at cs type description

-- `sources.at (mediaType).erase (sinkMediaDescription)`.
unfoldable pub erase_source : MediaType → ℕ → List Connection → List Connection
erase_source type description [] = []
erase_source type description (c ∷ cs) =
    if at_sink type description c
    then erase_source type description cs
    else c ∷ erase_source type description cs

-- The loop of `disconnect` over the sinks; what stands there has this element as its source.
unfoldable pub erase_sink : Connection → List Connection → List Connection
erase_sink c [] = []
erase_sink c (d ∷ ds) = if same_connection d c then ds else d ∷ erase_sink c ds

-- `disconnect`, for a sink that is there. The parameters are the fields of `c`.
unfoldable pub disconnect : Graph → Connection → Graph
disconnect g c = elim (source_at (g.sources c.sink) c.type c.sink_description) [
  | none ↦ g
  | some connection_data ↦ record g {
    sources =
        if connection_data.source_description == c.source_description
        then at g.sources c.sink (erase_source c.type c.sink_description (g.sources c.sink))
        else g.sources;
    sinks = at g.sinks c.source (erase_sink c (g.sinks c.source));
  }
]

-- The part of `connect` that makes room at the sink. It gives the old source the source description of
-- the new connection.
unfoldable pub replace_source : Graph → Connection → Graph
replace_source g c = elim (source_at (g.sources c.sink) c.type c.sink_description) [
  | none ↦ g
  | some old ↦ disconnect g (record {
    source = old.source;
    sink = old.sink;
    type = c.type;
    source_description = c.source_description;
    sink_description = old.sink_description;
  })
]

-- The connection enters both maps.
unfoldable pub link : Graph → Connection → Graph
link g c = record {
  sinks = at g.sinks c.source (c ∷ g.sinks c.source);
  sources = at g.sources c.sink (c ∷ erase_source c.type c.sink_description (g.sources c.sink));
}

-- `connect`; false is the exception. `share` tells whether two elements share the pipeline, and
-- `request_pad` whether the source has a pad for the connection.
module _ (share : ℕ → ℕ → Bool) (request_pad : Connection → Bool) where
  unfoldable pub connect : Graph → Connection → Graph × Bool
  connect g c =
      if not (share c.source c.sink)
      then (g, false)
      else if not (request_pad c)
      then (replace_source g c, false)
      else (link (replace_source g c) c, true)

-- The loop of `disconnectAll` over a copy of connections, all locks granted.
unfoldable pub disconnect_each : List Connection → Graph → Graph
disconnect_each [] g = g
disconnect_each (c ∷ cs) g = disconnect_each cs (disconnect g c)

-- The loops of `disconnectAll`, as many rounds as `fuel` allows.
unfoldable pub disconnect_sinks : ℕ → Graph → ℕ → Option Graph
disconnect_sinks zero g element = none
disconnect_sinks (suc fuel) g element =
    let rest = disconnect_sinks fuel (disconnect_each (g.sinks element) g) element in
    elim (g.sinks element) [ [] ↦ some g | c ∷ cs ↦ rest ]

unfoldable pub disconnect_sources : ℕ → Graph → ℕ → Option Graph
disconnect_sources zero g element = none
disconnect_sources (suc fuel) g element =
    let rest = disconnect_sources fuel (disconnect_each (g.sources element) g) element in
    elim (g.sources element) [ [] ↦ some g | c ∷ cs ↦ rest ]

-- `disconnectAll`.
unfoldable pub disconnect_all : ℕ → Graph → ℕ → Option Graph
disconnect_all fuel g element = elim (disconnect_sinks fuel g element) [
  | none ↦ none
  | some next ↦ disconnect_sources fuel next element
]

-- What `connect (sink)` and `disconnect (sink)` go over; `default` is the description "default".
abbrev pub plain : ℕ → ℕ → ℕ → MediaType → Connection
plain default source sink type = record {
  source = source;
  sink = sink;
  type = type;
  source_description = default;
  sink_description = default;
}

-- `disconnect (sink)`.
unfoldable pub disconnect_element : ℕ → Graph → ℕ → ℕ → Graph
disconnect_element default g source sink =
    disconnect
      (disconnect (disconnect g (plain default source sink audio))
        (plain default source sink video))
      (plain default source sink data_channel)

module _ (share : ℕ → ℕ → Bool) (request_pad : Connection → Bool) where
  -- Calls of `connect` up to the first exception.
  unfoldable pub connect_each : List Connection → Graph → Graph × Bool
  connect_each [] g = (g, true)
  connect_each (c ∷ cs) g =
      let (next, done) = connect share request_pad g c in
      elim done [ true ↦ connect_each cs next | false ↦ (next, false) ]

  -- `connect (sink)`.
  unfoldable pub connect_element : ℕ → Graph → ℕ → ℕ → Graph × Bool
  connect_element default g source sink =
      connect_each
        (plain default source sink audio
          ∷ plain default source sink video
          ∷ plain default source sink data_channel
          ∷ [])
        g
