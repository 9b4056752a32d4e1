-- ===== src/Lib.antt =====
-- The crossbow telemetry backend.
--
-- Sensors send one JSON sample in each UDP datagram. The receiver parses and checks it and pushes it on
-- a bounded queue; three consumers work on the samples: the ballistic simulator computes a shot, the
-- accuracy service analyses the spread, and the alarm service compares with thresholds and raises
-- alerts. Each keeps a window of recent values in memory, the storage one of rows. The virtual
-- shooting module lets a user aim at targets, and the configuration is a JSON file.
--
-- Which file models what (paths of the repository; a name of a definition is the one of the source
-- where the source has one):
--   MessageQueue.antt        backend/include/message_queue.h: push, try_pop, wait_pop, stop; a call is
--                            atomic under the queue's mutex, and `run` is a sequence of calls
--   Metrics.antt             backend/src/metrics.cpp: the counters and gauges of the plain build
--   Sensor.antt              backend/include/common.h: the records
--   UdpReceiver.antt         backend/src/udp_receiver.cpp: one datagram is `handle_datagram`, the
--                            loop over those that arrive is `receive_all`
--   AlarmMqttService.antt    backend/src/alarm_mqtt_service.cpp: `check_and_alert`, one round of the
--                            worker, the active alerts
--   ClickHouseStorage.antt   backend/src/clickhouse_storage.cpp: the rows in memory and the answers;
--                            Runs has any calls in order
--   ConfigManager.antt       backend/include/config_manager.h: `load`, `save_default` (the file that
--                            may not be opened and the text that may not be made included),
--                            `parse_json`, `to_json`, the defaults
--   DynamicsModel.antt       backend/src/dynamics_model.cpp: forces, launch, flight, shot results
--   BallisticSimulator.antt  backend/src/ballistic_simulator.cpp: one sample is `work`, one round of
--                            the worker is `worker_round`
--   AccuracyAnalyzer.antt    backend/src/accuracy_analyzer.cpp: the statistics of a crossbow's shots
--   AccuracyAnalyzerService.antt  backend/src/accuracy_analyzer_service.cpp: the critical sections;
--                            its module System has the threads as the steps of a relation
--   MqttAlertManager.antt    backend/src/mqtt_alert_manager.cpp: the older alert interface
--   BroadcastingReceiver.antt  backend/src/main.cpp: the thread that copies each sample to the three
--                            queues, as a step relation, and the gauges of the main loop
--   FormationSimulator.antt  backend/src/formation_simulator.cpp: the database (Designs), targets, and
--                            `generate_formation` (Posts, Generate), the hit probability and the
--                            salvo timing (Chances)
--   FormationRlOptimizer.antt  the same file: the class FormationRLOptimizer; its module Episode has
--                            a step of `train_q_learning`, Learning its loop over the episodes
--   VirtualShooting.antt     backend/src/modules/virtual_shooting.cpp: the session, its operations
--   HttpServer.antt          backend/src/http_server.cpp: Request and Parameters read a request, Handlers has
--                            the handlers that read and run the services, Bowstrings and Formations
--                            further ones, Replies what they write of a record, Routes the thread: `serve_client` is one client, `serve_all` a run
--   BowstringMaterial.antt   backend/src/bowstring_material.cpp: a material; Database has the four, Analyzer,
--                            Curves and Accuracy the class BowstringPerformanceAnalyzer
--   DynamicsSolver.antt      backend/src/modules/dynamics_solver.cpp: the tasks, their queue and the threads, as the
--                            steps of a relation
--   StringComparator.antt    backend/src/modules/string_comparator.cpp: metrics, score, ranking
--   Prelude.antt, Double.antt  shared notation, lists, windows and maps; the interface of `double`
-- The proofs of a component are in the modules below it, the tests in its module Tests.
--
-- Numbers. A `double` is a value of a type with the operations of the interface `Double`; a theorem
-- that needs laws of the comparisons has them as the hypothesis `IsOrdered`, or the one that it
-- needs, and Double/Fixed.antt is an instance in which both can be computed. A `uint32_t` or
-- `uint64_t` counter wraps around at 2 ^ 32 or 2 ^ 64; an `int` of the configuration is an integer,
-- without its range. A time point is a number.
--
-- Code from outside. nlohmann::json is the interface `JsonParser` of the receiver and `Json` of the
-- configuration, with `FindsKeys` for what the library documents of an object's keys and
-- `KeepsValues` for what comes back from its text: finite doubles and strings that are encoded
-- right. A throwing accessor returns `none`; so does a handler of the HTTP server in which one
-- throws, and a run of the server with such a request has no result, as nothing catches it. The
-- text that the library makes of a JSON value, and std::stod, are in the server's `Library`. The
-- clock, the draws from the normal distribution, and the members that a record holds before they
-- are set are arguments.
--
-- Bounds. The loops of the dynamics model recur on the number of rounds left, which starts at the
-- source's own limit (100000 for the flight, 50000 for the launch), so no fuel is added. The rows
-- of a wedge are counted down from the number of crossbows, as each row adds one. The loops that
-- bring an angle into range have a bound on their rounds as an argument, and one more round than
-- turns the angle is away is enough. The other loops recur on their list. `std::sort` is insertion,
-- as the library sorts short sequences.
--
-- Threads. A state changes under a mutex, or in one thread only; a theorem about several calls
-- takes them as a sequence in the order in which they hold the mutex. The accuracy service, the
-- dynamics solver and the broadcasting receiver have their threads as steps of a relation, taken in
-- any order. A handler of the HTTP server is one function of the server; what the other threads do to
-- the accuracy service between its calls in the handler of an analysis is an argument. Other
-- starting and joining threads, and time-outs but for their effect on `wait_pop`, are not
-- modelled.
--
-- Not modelled: the sockets of the HTTP server, the logger, the order in which main builds the
-- services, the sight optics, the handlers of sights and those that simulate formations, the
-- engagements that the formation simulator simulates, and the modules that wrap them. The web front
-- end, the Python simulator and the SQL schema are not part of the C++ backend.
pub mod Prelude
pub mod Double
pub mod Sensor
pub mod MessageQueue
pub mod Metrics
pub mod UdpReceiver
pub mod AlarmMqttService
pub mod ClickHouseStorage
pub mod DynamicsModel
pub mod VirtualShooting
pub mod ConfigManager
pub mod BallisticSimulator
pub mod AccuracyAnalyzer
pub mod AccuracyAnalyzerService
pub mod MqttAlertManager
pub mod BroadcastingReceiver
pub mod FormationSimulator
pub mod FormationRlOptimizer
pub mod HttpServer
pub mod BowstringMaterial
pub mod StringComparator
pub mod DynamicsSolver
