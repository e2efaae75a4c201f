-- ===== src/Lib.antt =====
-- Verification library for Wetware (github.com/wetware/ww): the data structures of its Lisp, the tree
-- and the paths of its anchors, the anchors that hosts serve and clients use, the set of peers of a
-- host, and services of the runtime.
--
-- The program's parts and their files here (paths from the repository's root):
--
-- - pkg/lang/core/vector.go, the persistent bit-partitioned vector. Its memory layout, struct Vector
--   of api/mem.capnp with the accessors of internal/mem/mem.capnp.go, is Memory (Cells, Node). The
--   trie under a deep vector is Vector/Trie, a function for each of apiVectorArrayFor, newPath,
--   pushTail, popTail, apiVectorAssoc and the clone functions. Vector/Data has newVector, asVector and
--   the slices, Vector/Deep and Vector/Shallow the methods of the two non-empty forms, and
--   Vector/Methods the interface, with EmptyPersistentVector. Vector/Digits to Vector/Shrink prove
--   what the trie functions do; Vector/Invariant to Vector/Reading prove what the methods do, against
--   the list that a vector holds (Vector/Contents).
-- - pkg/lang/core/list.go, the persistent list in its four forms: LinkedList/Data has the stored list
--   and asList, LinkedList/Methods a function for each method of a form and one for each method of the
--   interface List. LinkedList/Contents says what values a list holds.
-- - pkg/lang/core/seq.go and chunkedSeq of vector.go: Seq/Data has the interface Seq over lists and
--   vectors, Seq/Iterate has ForEach, ToSlice, Cons and the method Conj of chunkedSeq. Seq/Yields says
--   what values a sequence yields; Seq/Chunks, Seq/VectorSeq and Seq/ListSeq show it of both.
-- - pkg/lang/core/func.go, functions of several arities: Func/Builder has FuncBuilder, whose stages are
--   data that Commit runs, and Func/Match has Match. The parameters of a target are a vector, which is
--   read by the methods of Vector/Methods.
-- - pkg/lang/analyzer.go, pkg/lang/expr.go and pkg/lang/special.go, a part of the evaluator: Lang/Scope
--   has the two lookups of symbols, over the frames of an environment (of the library slurp), Lang/Call
--   the binding of arguments in CallExpr.Eval, on top of Match, and Lang/Special the parsers of if, def
--   and quote, and unpackArgs.
-- - pkg/lang/core/core.go and the integers of pkg/lang/core/numbers.go: Dispatch/Values has the values by
--   their interfaces, Dispatch/Numbers Int64 and BigInt, and Dispatch/Operations IsTruthy, Eq, Pop and
--   Conj over them, on top of the lists and vectors.
-- - pkg/runtime/svc/boot/boot.go, pkg/runtime/svc/discovery/discovery.go and pkg/runtime/svc/join/join.go:
--   Joining/Services has their loops one step at a time, Joining/System the three around the event bus.
-- - pkg/util/anchor/path/anchor.go: AnchorPath/Text has Parts, Clean, Join and Root.
-- - pkg/internal/tree/tree.go, the tree of anchors: Tree/Store has Walk, Path, List, Load, Store, the
--   references and gc, on a store of nodes.
-- - pkg/runtime/svc/neighborhood/neighborhood.go: Neighborhood/Phases has Phase and subloop, as a
--   function from the events that it receives to those that it emits.
-- - pkg/runtime/svc/tracker/tracker.go: Tracker/Counter has connloop, a function from the connection
--   events to the events on peers, and Tracker/Channels has idloop and onDisconnected, as a step
--   relation in which every channel operation, every Emit and every use of the map is a step of its
--   own, and so is every change of the peerstore, which isClient reads. Tracker/Services puts connloop in front of the event loop of the neighborhood.
-- - pkg/runtime/svc/internal/util.go and pkg/runtime/svc/ticker/ticker.go: Timing/Scheduler has Scheduler
--   and the loop of the ticker. pkg/runtime/svc/announcer/announcer.go and
--   pkg/runtime/svc/graph/graph.go: Timing/Services has their loops, as functions from the timesteps
--   and events that they receive to what they send.
-- - pkg/runtime/runtime.go: Runtime/Loader has Start and serviceLoader, as functions on the loader.
-- - pkg/cluster/peerset.go, the peers of a host: PeerSet/Filter has Upsert and Advance as a step relation
--   of goroutines, whose steps are their uses of the mutex. The treap library is a parameter, with its
--   documented behaviour as laws (PeerSet/Treap).
-- - pkg/host/anchor.go: Anchors/Local has localAnchor, over the tree and the paths; Anchors/Host has
--   rootAnchor, rootAnchorCap and anchorCap. pkg/internal/rpc/anchor: Anchors/Client has the client's
--   anchors, which call the host's capabilities.
--
-- How state is modelled. A value of the wire format is a value of a data type. Setting a pointer or a
-- list element in another message copies (capnp's behaviour, which the source relies on), so a value
-- that was built keeps no view of another. What an accessor returns is a view of its owner: pushTail
-- writes into the trie of the vector that it is called on. `cons`, `conj` and `assoc` of a vector
-- therefore return the state of their receiver behind their result. The nodes of the anchor tree are
-- shared and mutable: they are in a store, and a pointer is an index into it. The calls of the wire
-- library are taken to succeed: a message in memory is well formed, and an arena that cannot grow ends
-- the process.
--
-- Integers. Counts, offsets and indexes are cut to 32 bits and shifts and chunk offsets to 8 where the
-- source stores them; Go's int is `ℤ` where a caller may pass a negative number, and a natural number
-- where the source has tested it or where it is a count. A duration is an int64, as its 64 bits with
-- the sign bit and the wrap-around written out; a time is a natural number of nanoseconds.
--
-- Fuel. A recursion over the levels of a trie has fuel `shift + 1`, one more than the levels it can
-- go down; the loop of apiVectorArrayFor has 257, since a uint8 that falls by 5 meets 0 within 256
-- rounds. ForEach and (node).path take their fuel as an argument: more rounds than the sequence has
-- values, and than the index of the node, are enough. `out_of_fuel` is an error of the model only, and
-- the theorems that a function succeeds rule it out. `panic` stands for a Go panic.
--
-- Not modelled: rendering, the conversion between stored and lifted values (AsAny), errors of the wire
-- library, floats and fractions, transactions of the anchor tree, Go of the anchors, the reader, Analyze
-- and the evaluation of expressions beyond the parts above, the network, the other runtime services,
-- how services stop, the command line.
mod Prelude
pub mod Memory
pub mod Vector
pub mod LinkedList
pub mod Func
pub mod Seq
pub mod AnchorPath
pub mod Tree
pub mod Neighborhood
pub mod Tracker
pub mod Anchors
pub mod Timing
pub mod PeerSet
pub mod Runtime
pub mod Lang
pub mod Dispatch
pub mod Joining
