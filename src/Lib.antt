-- ===== src/Lib.antt =====
-- Models of NewCPP, a C++ code base of two programs' parts: MLCommon, a library of building blocks,
-- and DeploymentAgent, a daemon that installs packages for a machine learning platform.
--
-- MLCommon.
--   * Window.antt, MLCommon/inc/Tools/SlidingWindow.h and SlidingWindowMgr.h: a bounded history of
--     data with a reader's cursor, and windows by name. `SlidingWindow` is the deque, the cursor as
--     its distance from `begin()`, and the depth of `MaxHistoryCleanupPolicy`; `add_data`,
--     `get_next_data` and the others are the methods. How many items the deque takes before it
--     moves its table of blocks, and so invalidates the cursor, is a parameter, `room`; what the
--     window does from then on is undefined, `lost`. Window/Manager.antt models the manager.
--   * Stm.antt, MLCommon/inc/Stm/FsmHandler.h and TransitionRow.h: the table-driven state machine.
--     `fire_event`, `run_state_machine`, `push_any_if_guard` and `process_event` are the methods of
--     the same names. The loop of `RunStateMachine` runs on fuel: `Outcome` says if the fuel was
--     enough, and Stm/Ranked.antt and Stm/Termination.antt give tables and a number of rounds for
--     which it is; for other tables the loop need not end, and Stm/Divergence.antt is about these.
--   * Timer.antt and Worker.antt, MLCommon/src/TimerFramework/Timer.cpp and Worker.cpp with their
--     headers: a thread with a queue of events and with timers. A thread is the order of its steps:
--     `Step` in Worker.antt is one step of the dispatcher or one call from outside, and each is taken
--     for indivisible. Calls of `Stop` and `StopWithJoin` are not among them. The callbacks and the
--     handlers of a subclass are recorded as called.
--   * Ipc/Uri.antt, MLCommon/inc/Network/Ipc/NaiveURIParser.h and the constructor in
--     MLCommon/src/Network/Unix/IpcSocketUnix.cpp; Ipc/Sockets.antt, the clients of a socket in
--     MLCommon/inc/Network/Ipc/IIpcSocket.h; Ipc/Transmitter.antt, IpcTransmitter.cpp in
--     MLCommon/src/Network/Ipc and MLCommon/src/Network/Unix: the queue of data and its sending to
--     the clients of a socket. Its loop has as much fuel as there are packets, and takes one out in
--     each round. The calls of `write` are recorded in order.
--   * Ipc/Epoll.antt, MLCommon/inc/Network/Unix/EPoolWorker.h, over the calls of epoll, which are
--     the record `Kernel`; Ipc/Receiver.antt, IpcReceiverUnix.cpp in MLCommon/src/Network/Unix: a turn
--     of its loop, with what was dispatched; Ipc/Connector.antt, IpcConnector.cpp in
--     MLCommon/src/Network/Ipc and IpcConnectorUnix.cpp in MLCommon/src/Network/Unix: `start_connector`,
--     `stop_connector`, and a turn of the loop that accepts clients. How many turns the thread still
--     makes while `Stop` waits for it is an argument.
--   * Tcp.antt, MLCommon/src/Network/Unix/unix_socket.cpp: the TCP socket over the calls of the
--     system, which are the record `Net`. `writeData` has fuel for as many rounds as the buffer has
--     bytes, and one; that is enough when `send` always takes a byte.
--   * Converter.antt, MLCommon/src/Converter/converterutils.cpp with its headers: numbers as bytes.
--   * Frame.antt, MLCommon/src/SensorData/Frame/V4LFrame.cpp: a frame of video data, and its
--     writing; Frame/Reading.antt, its reading at once, `deserialize_from`, and as its bytes come in,
--     `async_deserialize_from`. The streams are parameters, with laws on what they give and take.
--     Each loop of the reading has fuel; one more than the bytes of the frame is enough, if `Read`
--     gives a byte when there is one.
--   * MemWriter.antt, MLCommon/src/Tools/MemWritter.cpp: a stream that writes into a buffer.
--   * DatFile.antt, MLCommon/src/SensorData/DatFile/DatFileWriter.cpp, and from DatFileReader.cpp there
--     the reading of an index; DatFile/Streams.antt, FileReadStream.cpp. DatFile/Playback.antt puts
--     them together with the frames. A stream of a file is its bytes; the loop of `ReadIndicies` has
--     fuel, two more than the entries is enough. `std::map` is the list of its entries.
--
-- DeploymentAgent, all in DeploymentAgent/src. Its parts act on the operating system only through
-- the record `Os` of Deploy/Os.antt, and the shell commands are recorded in order in `Machine`.
--   * Deploy/Watch.antt, folder_monitor.h: the files of a watched folder.
--   * Deploy/Devices.antt, usb_mass_storage_monitor.h: the plugged devices that wait to be mounted.
--     `turns` is the order in which the loop of system_observer.h calls the monitor.
--   * Deploy/Usb.antt, usb_processing_pipeline.h and temporary_folder.h: what is done with a storage
--     that was mounted: detect a package, move it to a temporary folder, hand it on, and remove the
--     folder. The processor of the package is a parameter; in main.cpp it is the deployment. The removal
--     of the folder can fail.
--   * Deploy/Package.antt, install_package_detector.h, over Deploy/Matching.antt,
--     archive_detector.h: which files are a package. A comparison that leaves its text is `none`.
--   * Deploy/Mover.antt, file_mover.h and file_remover.h.
--   * Deploy/Pipeline.antt, deploy_pipeline.h, over Deploy/Unpacker.antt, unpacker.h: stop the
--     platform, unpack the archives, exchange the policy file, and start the platform.
--
-- Numbers are natural numbers; where the code counts in a machine type its range is not part of the
-- model. A text is the list of its bytes. Log output is left out. A missing value, an exception and
-- the descriptor -1 are values of an option or of a type of outcomes.
--
-- Not modelled: the questions to udev and the set-up of epoll in the deployment, which are mostly
-- calls of the system; the loop that plays files of sensor data, the copy of MD5, the reader of
-- JSON; the sources for Windows; the trials in notify_file, inotify, epoll and dir_crawl; tests and
-- build files.
pub mod Prelude
pub mod Window
pub mod Stm
pub mod Timer
pub mod Worker
pub mod DatFile
pub mod MemWriter
pub mod Deploy
pub mod Ipc
pub mod Tcp
pub mod Converter
pub mod Frame
