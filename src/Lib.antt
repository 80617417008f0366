-- ===== src/Lib.antt =====
-- heaplens, a library that reads heap dumps and analyses the graph of their objects.
--
-- heapdump/goheap/parser.go reads a Go heap dump, byte by byte, into the object graph of graph/graph.go.
-- heapdump/goheap/streaming.go reads the same format and hands each record to a callback.
-- heapdump/goheap/records.go has parsers that keep the whole of each record, and ExtractPointers, which
-- reads the pointers out of an object's contents. On the graph, graph/reverse.go turns the pointers
-- round, graph/paths.go searches for paths from an object to the roots, and graph/dominators.go computes
-- immediate dominators. heapdump/registry.go picks a parser for an input, that of Go dumps or the one of
-- heapdump/json.go. The parsers and the analyses meet in the graph alone.
--
-- Which file models what:
--   Base.antt, Base/       names of the libraries, Boolean tests, lists and Go's maps
--   Run.antt, Run/         code over a state that may return an error or panic
--   GoHeap/Wire.antt       numbers, strings, slices and words (parser.readVarint, readString, readBytes)
--   GoHeap/Records.antt    the structs of heapdump/goheap/records.go; in Records/Parsers the methods
--                          parse…Full, in Records/Encode the writer that they are read against
--   GoHeap/Pointers.antt   ExtractPointers of heapdump/goheap/records.go
--   GoHeap/Parser.antt     the parser's state; in Parser/Skip the methods that skip a record, in
--                          Parser/Objects those that build the graph (parseParams, parseType,
--                          parseObject, parseOtherRoot), in Parser/Loop parser.parse and
--                          GoHeapParser.Parse, as `parse` and `parse_dump`; in
--                          Parser/Items and Parser/Known dumps as lists of records
--   GoHeap/Stream.antt     the state of heapdump/goheap/streaming.go and what it reads with; in
--                          Stream/Records the methods that read a record and call its callback, in
--                          Stream/Seek seekToNextRecord, in Stream/Loop handleError and Parse, as
--                          `parse_stream`; in Stream/Items the writer it is read against
--   GoHeap/Both.antt       the two parsers on one dump
--   Graph.antt             graph/types.go and graph/graph.go
--   Graph/Reverse.antt     graph/reverse.go
--   Graph/Paths.antt       graph/paths.go
--   Graph/Dominators.antt  Dominators and processEdge of graph/dominators.go
--   Graph/Tree.antt        DominatorTree of graph/dominators.go, and graph/domtree.go
--   Graph/Retained.antt    graph/retained.go
--   Graph/Keyed.antt       the map of graph/graph.go, object by object
--   Registry.antt          heapdump/parser.go and heapdump/registry.go; Open is `open_dump`
--   Json.antt              heapdump/json.go
--   Spikes/HeapParser.antt the dump of the prototype spikes/goformat/heap_parser.go; in its children
--                          Records and Loop the methods and Parse, as `parse_heap`, and in Items the
--                          writer they are read against
--   Dumps.antt             the parsers and an analysis, one after the other; in Dumps/Formats the parsers
--                          that the init functions register
-- The functions keep their Go names, in snake case. The children of a module that are not in this list
-- hold what is proved of it.
--
-- State and errors. A Go function that returns an error is a function from the bytes that are left, or
-- from the parser with them, into `Outcome`: `ok` with the result and the state, `err` with the error
-- and the state it leaves, `panic` for a run-time panic, and `stuck` where a loop of the model runs out
-- of fuel. Machine integers are natural numbers with their wrap-around written out. A map is a list of
-- entries with one for each key; what ranges over a map takes the order as an argument.
--
-- Fuel. The loop over records and the two loops over pointer fields read at least one byte in each
-- round, so they have one round more than there are bytes left; the streaming parser's loops have as
-- many, and its search for a tag has the 1000 rounds of the code. The search for paths takes its
-- rounds as an argument, and `rounds` computes how many suffice. For Dominators fuel is an argument,
-- which bounds the depth of its two recursive closures: a vertex for each edge, and one more, are all
-- that the search can meet (`nodes_of`). Fuel is an argument for DominatorDepth and computeRetained
-- too. DominatorPath and IsDominated take a round for each step. On a map without cycles a rank of the
-- node bounds the steps and the depth.
--
-- Not modelled: the locks (each method of the graph is one step, and one goroutine parses), the texts
-- of the wrapped errors, the streaming parser's progress by the clock, and the programs under spikes/
-- other than the prototype of the parser: they generate input, measure and print. encoding/json
-- is a parameter: a decoder of documents and of the one field that detection looks for.
pub mod Base
pub mod Run
pub mod Graph
pub mod GoHeap
pub mod Registry
pub mod Json
pub mod Dumps
pub mod Spikes
