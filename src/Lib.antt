-- ===== src/Lib.antt =====
-- A model of indexer-go, a Go program that indexes the blocks of an Ethereum-like chain into a
-- key-value store and serves them. The fetcher takes blocks and receipts from a node and writes
-- them to the store under keys; the API servers read the store, and ask the node for contract
-- calls, balances and traces through a proxy with a queue, a cache and a circuit breaker.
--
-- The parts and their files:
--
-- Base: what the modules share. Base/Tests has the Boolean tests on numbers, Base/Lists the lists
-- measured by native numbers, Base/Slice the slice operations, Base/Dict Go maps as association
-- lists over an interface of keys that can be compared, Base/Words the bits of machine words.
--
-- Heap: container/heap of the Go library over any order, which the queues stand on: push, pop and
-- the two sift loops over a slice, each loop on fuel. Heap/Order defines the heap order, Heap/Up
-- and Heap/Down show that each loop ends with the fuel given and repairs it, Heap/Ends puts push
-- and pop together.
--
-- Text: texts as lists of bytes and what pkg/storage/schema.go uses of fmt, strconv, strings and
-- bytes: decimal numbers with and without padding, ParseUint, prefixes, Split, and the order of
-- bytes.Compare in which the store iterates. Text/Decimal, Text/Split, Text/Order, Text/Concat
-- and Text/Padded have its lemmas, Text/Equality makes texts keys of maps.
--
-- RpcProxy: pkg/rpcproxy. RpcProxy/Types is the requests of types.go. RpcProxy/Circuit is
-- CircuitBreaker of worker.go, a state machine with three states: Allow, RecordSuccess,
-- RecordFailure and Reset. RpcProxy/Queue is PriorityQueue of queue.go: Enqueue, Dequeue,
-- DequeueWithTimeout, TryDequeue, Drain, Close; the methods that wait are one pass over the queue
-- each, with what they return when they would wait on. RpcProxy/Multi is MultiPriorityQueue.
-- RpcProxy/Cache is the LRU cache with expiry of cache.go, over any type of values: Get, Set,
-- SetWithTTL, Delete, Clear, Size, the cleanup task, GetOrSet. RpcProxy/Worker is processRequest
-- of worker.go, with the handler and the waits as functions on a state of the world. Clock
-- readings are arguments, in nanoseconds. The mutexes make each method one step, so that interleavings are the sequences of
-- calls that the trace theorems are about.
--
-- Storage: pkg/storage. Storage/Prefixes has the key prefixes of schema.go, and Storage/Blocks,
-- System, Wbft, Contracts, Logs, Chains, Services, Holders and Accounts the functions that build
-- keys, in the order of that file; a function's name is that of the source in lower case with
-- underscores, so that block_key is BlockKey. Storage/Parse has ParseBlockKey,
-- ParseTransactionKey, ParseChainKey and the encoding of 64-bit numbers. Address.Hex and Hash.Hex
-- belong to go-ethereum and are the interface Storage/Hex. Storage/AddressIndex is
-- AddTransactionToAddressIndex of pebble_transactions.go with the sequence counters of pebble.go,
-- over Storage/Store, the interface of the pebble database: a write may fail, and one that does
-- not changes its own key only.
--
-- Fetch: pkg/fetch. Fetch itself is DetectGaps of fetcher_gaps.go, with the store and the context
-- as functions of the height; Fetch/Runs is the reference that the scan is compared with.
-- Fetch/Receipts is DetectReceiptGaps, and Fetch/Receipts/Fill is FillReceiptGap and
-- FillReceiptGaps. Fetch/Fill is FillGap, FillGaps, FetchRange of fetcher.go
-- and GetNextHeight of fetcher_processing.go, over an interface of what FetchBlock and
-- FetchRangeConcurrent do to the store. Fetch/Block is FetchBlock with its helpers: the retries,
-- the metadata, the receipts and the events; the single steps on the store, the bus and the
-- processors are fields of a record, each with success or failure. Fetch/Concurrent is the loop of
-- FetchRangeConcurrent that collects the results of the workers, which are a list in the order in
-- which they end; its children compare it with storing the blocks one after the other, and with
-- FetchBlock, and Fetch/Concurrent/Assembled makes the interface of Fetch/Fill out of both. A
-- height is a 64-bit number, and the loops' height++ wraps around. Fetch/Recover is what
-- RunWithGapRecovery does before it calls Run: both scans and both recoveries, up to the latest
-- height, with errors only logged.
--
-- Watchlist: pkg/watchlist. Watchlist/Bloom is BloomFilter of bloom.go: Add, AddBatch,
-- MightContain, Clear, Merge, Bytes and NewBloomFilterFromBytes, with the FNV hash computed.
-- Watchlist/Types is the data of types.go, and Watchlist/Matcher is EventMatcher of filter.go:
-- AddAddress, RemoveAddress, MatchTransaction and MatchLogs with the events that they make.
-- BytesToAddress, Bytes2Hex and the default size of the filter, which the source computes in
-- floating point, are parameters.
--
-- JsonRpc: pkg/api/jsonrpc. JsonRpc/Filters is FilterManager of filter_manager.go and the part of
-- eth_getFilterChanges in methods_filter.go that polls block filters; Hash.Hex, the clock and what
-- the store answers are parameters. JsonRpc/Pending is PendingPool of pending_pool.go; its
-- children show that the map and the list of hashes act as one list (Entries, Arrival, Departure,
-- Expiry, Invariant), how far the pool grows (Bounds), and what clients see (Since, Polls).
--
-- Bounds and fuel: lengths and counters are natural numbers; heights, sequence numbers and parsed
-- numbers are bounded by 2 ^ 64 where the source relies on it. The sift loops and Drain have the
-- length of the slice as fuel, the eviction loop of the cache the number of entries, the scans of
-- Fetch any number above the number of heights, FetchRange inside FillGap 12, since FillGap takes
-- it for ten blocks at most; the loop inside FetchRangeConcurrent has any number above the number
-- of heights. That these are enough is part of the theorems on the results. The retries, the
-- hashes of a filter and the heights of a poll are counted down.
--
-- Not modelled: logging, waits and metrics, floating point, the goroutines of the worker pools,
-- whose results come as lists, the node's client and the decoding of its answers, the polling of log
-- filters and of pending transactions by the manager (the pool they read is modelled), the
-- service and storage of the watchlist, the API servers that convert values and forward calls, and
-- the other packages, since they are outside the index, its keys, its recovery, the proxy and what
-- clients poll, which come first.
--
-- The modules below Tests have the inputs at which the theorems are applied.
pub mod Base
pub mod Heap
pub mod RpcProxy
pub mod Text
pub mod Storage
pub mod Fetch
pub mod Watchlist
pub mod JsonRpc
mod Tests
