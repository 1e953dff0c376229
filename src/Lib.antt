-- ===== src/Lib.antt =====
-- NetNodeGateway: a gateway for sensor telemetry. Datagrams arrive over UDP or from a recording, are
-- parsed and checked, tracked by source and sequence number, counted, logged and published as
-- events. A control node answers commands over TCP.
--
-- The files, with the code that each models (paths from the repository's root):
--   Prelude          lists, maps, texts, little-endian packing and bits that the parts share
--   Types            src/common/types.h: enumerations and sizes
--   Protocol         src/common/protocol.h: packed structs; `memcpy` from and to a struct is `load` and
--                    `store` of Protocol/Layout
--   Crc32            src/common/crc32.cpp: the table and `crc32_update`
--   Parser           src/gateway/telemetry_parser.cpp: `parse_frame`; Parser/Frames says what a frame is
--   Tracker          src/gateway/sequence_tracker.cpp: `track` and the resets
--   Stats            src/gateway/stats_manager.cpp: the counters
--   Recorder         src/gateway/frame_recorder.cpp: recording to a file
--   Replay           src/replay/replay_engine.cpp: frames read back; Replay/Drain has the loop of
--                    src/replay/replay_main.cpp
--   Framer           src/control_node/tcp_framer.cpp: length-prefixed messages
--   Commands         src/control_node/command_handler.cpp: GET and SET
--   EventBus         src/common/event_bus.cpp: subscriptions and delivery
--   Logger           src/common/logger.cpp: levels and lines
--   Gateway          src/gateway/gateway.cpp: `process_frame` and `publish_event`; Gateway/Config and
--                    Gateway/Source have the configuration and `run`
--   Session          src/control_node/control_node.cpp: the loop that serves one client
--   Simulator        src/sensor_sim: Measurements (the frames a sensor sends), Faults (damage to a
--                    batch), Objects (profiles and new objects), World (motion), Scenario (scenario
--                    files) and Run (the loop of sensor_sim_main.cpp); Machine has what they use of the
--                    C++ library
--   Server           src/control_node/control_node.cpp: starting, accepting and stopping; Server/Open
--                    has what is open meanwhile, and Server/Reached the steps of its threads
--   Sockets          src/gateway/udp_socket.cpp: the source and the sink of datagrams
--   Client           src/cli/cli_client.cpp: a command and its response
--   Programs         src/gateway/gateway_main.cpp, src/sensor_sim/sensor_sim_main.cpp and
--                    src/replay/replay_main.cpp: their options; Programs/GatewayMain,
--                    Programs/Simulated and Programs/Replayed have the programs behind these
--
-- How they interact: `Gateway.process_frame` gives a frame to `Recorder.record_frame`, then to
-- `Parser.parse_frame`, then to `Tracker.track` and the methods of `Stats`, and publishes through
-- `Logger.log` and `EventBus.publish`. `Gateway.Source.run_loop` takes its frames from a source, of
-- which `Replay.receive` is one. `Session.client_loop` feeds what a client sends to `Framer.feed` and
-- answers each command with `Commands.handle`, which reads `Stats`. `Simulator.Run.step` spawns and
-- moves objects, makes frames of them, passes these through the injector and sends them; Reception
-- and Run/Delivered put a gateway at the other end. `Client.send_command` encodes a command and feeds
-- what comes back to a framer; Client/Exchange puts a session at the other end. `Sockets.udp_source` and `udp_sink` are what the gateway receives from
-- and what the simulator and the replay tool send over.
--
-- State is passed explicitly: each class is a record, each method a function from the state to its
-- result and the new state. A method that holds a mutex for its whole body is one step. Bytes, words
-- and characters are native numbers, sums wrap as the source's types do, and `std::string` is a list
-- of character codes. `std::unordered_map` is an association list with one entry for each key.
--
-- Parameters, for code outside the repository: the clocks, the callbacks of the event bus
-- (`Gateway.Outside`), the calls on sockets (`Sockets.System`), the readers of numbers
-- (`Programs.Numbers`), what the operating system finds under a path and how much room a device
-- has (`open_file` of Recorder and Replay), the floating-point division by the playback speed
-- (`Replay.Speed`), the source of `run` (`Gateway.Source.FrameSource`), a client's connection
-- (`Session.Link`), `double` with the functions of <cmath> and the random engine with its
-- distributions (`Simulator.Machine`), and the simulator's socket, clock and shutdown flag
-- (`Simulator.Run.Sink`).
--
-- Fuel: `Framer.extract_loop` has as much as there are bytes in the buffer, and each round takes
-- four or more of them. `Session.answer_loop` has one round for each ready frame.
-- `Gateway.Source.run_loop` has no fuel of its own: its number is how often the loop finds
-- `should_stop_` unset. `Replay.Drain.drain` runs with one round more than there are frames.
-- `Simulator.Faults.reorder_loop` has one round for each frame. The loops on the azimuth in
-- `Simulator.World.move` have a number of rounds, and a run has no result when they are used up;
-- Simulator/World/Azimuth says when they are enough, and `Simulator.Run.Ending.run_ends` whether they are.
-- `Simulator.Scenario.load_lines` has one round for each line. `Client.await` has a number of rounds,
-- and its result is `none` when they are used up.
--
-- Not modelled: signals (the gateway's is the end of its rounds, the simulator's a parameter), the
-- interleaving of threads within a method, besides those of the server (a mutex held for a whole
-- method makes it one step; the server's threads run in the steps of `Server.Reached.Step`, in any
-- order, and a `poll` with the `accept` behind it is one of them), callbacks that use the gateway
-- which calls them, and what the simulator and the replay tool print.
pub mod Prelude
pub mod Types
pub mod Protocol
pub mod Crc32
pub mod Parser
pub mod Tracker
pub mod Stats
pub mod Recorder
pub mod Replay
pub mod Framer
pub mod Commands
pub mod EventBus
pub mod Logger
pub mod Gateway
pub mod Session
pub mod Simulator
pub mod Sockets
pub mod Client
pub mod Programs
pub mod Server
