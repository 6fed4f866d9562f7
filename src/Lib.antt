-- ===== src/Lib.antt =====
-- A model of an intrusion detection system for vehicles: the IDS manager that qualifies security
-- events, the serializer of the IDS message, the CAN and host probes that feed the manager, the packet
-- handling of the Ethernet probe, and the reporter that takes what the manager qualifies.
--
-- How the parts interact. A probe turns what it sees on a bus into alerts and reports each as a
-- security event (SEv). The manager queues the event; its worker thread takes the queue in batches,
-- runs the filter chain of the event's SEv (reporting mode, block state, forward every nth,
-- aggregation, threshold) and gives the qualified event (QSEv) to the DEM and IdsR callbacks.
-- The IdsR callback is the reporter, which queues each QSEv and sends it on as an IDS message, which
-- the serializer writes.
--
-- Prelude: numbers, lists, 8- to 64-bit words and maps that the parts share.
--
-- Idsm: src/IdsM_Manager.cpp, src/IdsM.c, include/IdsM_Types.h, include/IdsM_Internal.h.
--   Types: the structs; a Manager is the members that the mutex guards, and the calls of the
--     callbacks so far. A callback is its address; what it does is not part of the model.
--   Filters: isBlockedByState, passForwardEveryNth, passAggregation, passThreshold, and the body of
--     processEvent as `judge`, which gives the SEv's next state and a verdict.
--   Manager: dispatchQsev, processEvent and expireWindows on the whole manager.
--   Api: the public operations. Init ends the process where it would assign a joinable thread.
--   Worker: worker_loop and its callers as a relation `Step`; a step is one section under the mutex,
--     or one access outside it, such as DeInit's join. Clocks and context switches are free. A world
--     says whether an Init has started the worker while a DeInit was past its join.
--   Reporting: what a probe's report does to a running manager.
--   Sampling, Threshold, Aggregation, Passing, Verdicts, Sinks, Accounting, Windows, Tally, Pending,
--     Frame: the proofs.
--
-- Protocol: src/IdsM_Protocol.c, include/IdsM_Protocol.h.
--   Serialize: IdsM_Protocol_GetMessageSize and IdsM_Protocol_SerializeQSEv with 16-bit offsets; a
--     buffer is a list of bytes. Decode: a reader of the wire format, written from the layout in the
--     PRS, that the round trip is stated with. Masks, Write, Frames, RoundTrip: the proofs.
--
-- CanProbe: apps/can_probe.
--   Frame (frame.cpp), Alert (alert.h, alert.cpp), Floods and Diagnostics (detectors.h,
--   detectors.cpp), Pipeline (pipeline.cpp), Report (main.cpp), Setup (the configuration that main.cpp
--   gives its detectors and the manager), Shutdown (its flushes at the end). Parsing, Windows,
--   Routing, Context, Delivery: the proofs. A detector is a function from its state to its next
--   state and an alert; the alert callback is a list of alerts in order.
--
-- IdsRm: src/IdsRm_Manager.cpp, include/IdsRm_Types.h, include/IdsRm_Internal.h, the NULL checks of
--   src/IdsRm.c. The reporter takes QSEvs from the manager, posts each to a server and gives it to a
--   local socket.
--   Types: the struct members. Reporter: what Init and DeInit do in each of their sections, the
--     setters and OnQsev. Posting: postWithRetry, the worker's batch and a round of the sink thread;
--     what the HTTP request and the socket answer are arguments. Sections: Init and DeInit as lists
--     of their sections. Steps: every order of the sections of calls and of the threads' steps as a
--     relation. Turns: the runs in which Init, DeInit and SetLocalSink are called one at a time.
--     Lifecycle, Serial, Outcomes: the proofs.
--
-- EthProbe: apps/eth_probe.
--   Memory and Packet: packet.h and packet.cpp; a frame is a list of bytes, and a read outside it has
--     no result. Bounds: the proofs.
--   Alert and Detectors: alert.h, alert.cpp, detectors.h, detectors.cpp. Scanning: the proofs.
--   Stream: a direction of stream_tcp.h and stream_tcp.cpp, from the first packet to the FIN. Advance:
--     the proofs.
--   Fragment, Coverage, Defrag: ip_defrag.h and ip_defrag.cpp. The table is an association list, and
--     the list of keys and the index of its positions are one list. A std::set of ranges is a list in
--     order. Ranges, Copying, Reassembly, Pool, Settling, Feeding, Refinement, Evicting, Expiry: the
--     proofs. The abstract view of the table is a partial map from a datagram's positions to bytes.
--
-- HostProbe: apps/host_probe. Its alerts reach the IDS manager as those of the CAN probe do.
--   Event (event.h), Alert (alert.h, alert.cpp), Names, Detectors and Floods (detectors.h,
--     detectors.cpp), Pipeline (pipeline.h, pipeline.cpp), Report and Setup (main.cpp), Hex
--     (sha256.cpp), Baseline (baseline.cpp): the program. A file is the list of its lines.
--   Keyed: what the detectors that mute keys have in common, as an interface of a feed with its law;
--     Muting fills it for each of the seven. Routing, Storms, Context, Delivery, Cleaning: the
--     proofs.
--
-- Bounds. A loop is recursion on a list or on a count that the source bounds too. Only the evictions
-- of the fragment table are on fuel, as many rounds as there are keys, since each round takes
-- a key away. An unsigned w-bit integer is a natural number below 2^w, and wrap-around is written out.
--
-- Not modelled: sockets, files, threads as such (a join is a step), the parsers of the command line
-- and of the whitelist file, the text of the reporter's JSON, the waits between its requests, the
-- capture and the replay parser of the host probe, SHA-256, the flows, rules and protocol parsers of
-- the Ethernet probe, the manager daemon and the Android application. The instance-wide rate
-- and traffic limits and the buffer size of the configuration are read by no code.
pub mod Prelude
pub mod Idsm
pub mod Protocol
pub mod CanProbe
pub mod IdsRm
pub mod EthProbe
pub mod HostProbe
