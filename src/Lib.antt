-- ===== src/Lib.antt =====
-- Verification of the fraud detection API: a Go service that scores a card transaction by the
-- labels of its five nearest neighbors in a prebuilt HNSW graph.
--
-- A request to POST /fraud-score runs through these parts, each in the file named.
--
--   Handler     internal/api/handler.go: `Handle` routes by path and method; `handleScore` parses
--               the body, computes the vector, queries the graph, counts the frauds and writes
--               one of six fixed bodies. The pooled work buffer is passed and returned.
--   Parse       internal/api/parse_strict.go: `parseStrictRequest` and its readers over positions in
--               the body (Cursor, Number, Time, Payload). Grammar is a reference parser over the
--               rest of the text, with the same steps for a digit and a time; Document holds the
--               payloads, their text and, on its own terms, their meaning. Numerals, Exactness,
--               Stamps, Fields and Accepted are about numbers and times.
--   Request, Vectorize, Config
--               internal/vectorize/vectorize.go and internal/config/constants.go: the decoded
--               payload, its reset, and the 14 dimensions.
--   Quantize    internal/hnsw/quantize.go: from a dimension to a byte.
--   Dist        internal/hnsw/dist.go: squared distances in int32, with its wrap-around.
--   Graph       internal/hnsw/hnsw.go: the loaded graph and its accessors. WellFormed is the
--               invariant that the queries need: slices of the right lengths, neighbor ids in range.
--   Query       internal/hnsw/query.go: the candidate heap (Heap), the visit slot (Slot), the hill-climb
--               and the search of layer 0 (Search), and the selection of five (Top). The proofs
--               are in Heap.Push, Heap.Pop, Descent, Admit, Visit, Start, Expand, Layer0, Nearest and
--               Answer; Twin, TwinSteps, TwinSearch and Independent compare two slots.
--   Build       internal/hnsw/hnsw.go: the index builder (Build: the record, labels, maps of links;
--               Queue: the heaps; Search, Select, Connect, Insert, Finalize: the steps). Linked and
--               Ready are its invariant; Held, Hunting, Layer, Found and Greedy are about its
--               searches, Diverse, Chosen and Selected about the choice of neighbors, Rows, Edges and
--               Bidirectional about edges, Bits, Copy, Stored, Inserted, Steps and Added about insertions,
--               Sizes, Finalized, Sorted, Slots, Places and Layers about the final graph.
--   BuildIndex  internal/buildindex/buildindex.go: `StreamRecords` and `BuildIndex`, what they make
--               of an input (Built), and a query of the finished index (Asked).
--   Persist     internal/hnsw/persist.go: `Save` as the bytes of the file, and `loadFromBytes` (Load).
--
-- How the code is modelled. A call that can end in an error value or a panic is a `Run`: an index or a
-- slice expression out of range is `panic`. A Go slice is a list, without its capacity. Variables
-- that a loop changes are its arguments. A number of a machine type is a natural number or an
-- integer with the wrap-around written out where the code can reach it.
--
-- Loops. Where a loop does not follow the structure of its data it takes fuel, and gives
-- `out_of_fuel` when that is too little; no theorem excludes this by a hypothesis. The hill-climb gets
-- one round more than the first distance, since each round but the last lowers the distance. The
-- search of layer 0 gets one round more than there are nodes, since a node becomes a candidate only
-- when it is first visited. The heap loops get the length of the heap, and the binary search one
-- round more than the nodes of the layer.
--
-- A search of the builder gets the rounds of the search of layer 0, its hill-climb those of the
-- other hill-climb.
--
-- Parameters. The builder's random source gives the level of a node as an argument, which the
-- theorems take as not negative, and `sort.Slice` on candidates is a `Sorter`: it permutes, and the
-- result ascends. What encoding/json decodes of the input is an argument. Float32 and float64 arithmetic, conversions and package time are the record
-- `Runtime`; the only laws used are that a conversion to uint8 gives a byte (`GivesBytes`), and the
-- order of the constants 0 and 1 (`OrdersConstants`). Exact is an instance on fractions. The
-- HTTP server gives the path, the method and the body.
--
-- Not modelled: the reordering, the recall measurement, the memory mapping,
-- the command lines, and the unused find functions of the parser. The loader checks only some
-- sizes, so that the loaded graph is well-formed is a hypothesis of the theorems on queries.
pub mod Base
pub mod Run
pub mod Maybe
pub mod Follows
pub mod Alike
pub mod Runtime
pub mod Build
pub mod BuildIndex
pub mod Config
pub mod Request
pub mod Vector
pub mod Parse
pub mod Vectorize
pub mod Quantize
pub mod Dist
pub mod Graph
pub mod Query
pub mod Handler
pub mod Persist
pub mod Exact
