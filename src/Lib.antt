-- ===== src/Lib.antt =====
-- Modbus simulator and collector, in Go: a Modbus TCP server (internal/modbus), a simulator that
-- replays recorded rows into it or into an RTU endpoint (cmd/server, with its settings in
-- internal/config), a manager of several such servers (internal/servermgr, with the export of their
-- values in internal/output), a mock RTU device (cmd/mocktty), a collector that polls devices, decodes
-- their registers and stores the values that changed (internal/collector, internal/utils), and a client
-- command that prints registers (cmd/client).
--
-- Prelude: Boolean tests, lists over native numbers, bits, exclusive or, texts and the parameter
--   that stands for float64.
-- Go: a function's result (a value, an error or a panic), slices and their indices, and the three
--   counted loops of the handlers.
-- Tcp: internal/modbus. Server is the state, Pdu the handlers and handlePDU, Registers the accessors
--   with those of snapshot.go, Connection the loop handleConnection over the bytes of one peer.
-- Rtu: crc16Modbus, which cmd/mocktty/main.go and cmd/server/main.go both have.
-- Mocktty: cmd/mocktty/main.go. Store is the registers, Pdu handleRTUPDU, Stream handleStream.
-- Simulator: cmd/server/main.go. RtuStore, RtuPdu and RtuStream are its RTU endpoint, Agreement
--   compares that with Mocktty, Load is newSimulator's checks and loadCSV, and Replay the replay of
--   the rows.
-- Config: Load of internal/config/config.go. Config is the data and the assignments of the keys, Parse
--   the loop over the lines, and Print the file that a configuration is written to.
-- Manager: internal/servermgr/manager.go. Apply is applyRowToServer and what it calls, Run the start
--   and the steps of one server, Snapshot the snapshot of the running servers. Its loadCSV has the
--   statements of the one in cmd/server/main.go, and is not modelled again.
-- Collector: Point is readPoint and decodeRegisterData of internal/collector/client.go, Poll its
--   pollOnce, Devices and Settings loadDevicesFromCSV and LoadYAML of internal/collector/config.go,
--   Dedup the cache of internal/utils/cache.go with the handler of Manager.Run in
--   internal/collector/manager.go, Manager the collectors that it starts and the rows of
--   initDatabaseFromConfig there, Opening, Records and Storage the opened outputs, the records, the
--   queue and the writer of internal/collector/storage.go.
-- Export: WriteCSV of internal/output/exporter.go, also behind a snapshot of the manager.
-- Client: cmd/client/main.go. EndToEnd goes from the simulator's write over the server to the
--   client's read.
-- Tests: the theorems at concrete inputs.
--
-- A uint16 or a byte is a native number, with its wrap-around written out; a slice is a list, and
-- an index out of range is a panic. A handler takes the state and returns the state that it leaves,
-- and the mutex makes it one step. A peer is the list of the bytes that it sends before it closes;
-- writes to it succeed. The stream loops run on fuel: each round that goes on takes bytes from the
-- input, so one round more than the input has bytes is enough. A float32 is its bit pattern;
-- float64, its parser and the Modbus client library are parameters, and so are the parsed records of
-- a CSV file. Texts are ASCII, and so are the changes of case and the spaces that are trimmed.
--
-- The steps that run side by side are relations: those of a running server are its ticks and its
-- clients' requests, those of the storage the sends of Handle, Close and the rounds of the writer. A
-- tick is one step, and requests before the first row is shown are left out.
--
-- What NewStorage uses of the operating system and of the data base is a parameter, and so are the
-- tables that the configuration is saved in; KeyedTables is one whose rows have a primary key.
--
-- Not modelled: sockets, serial ports, goroutines and tickers, the YAML library, the data base and
-- its ORM, and the commands' flags and printing.
pub mod Client
pub mod Collector
pub mod Config
pub mod Export
pub mod Go
pub mod Manager
pub mod Mocktty
pub mod Prelude
pub mod Rtu
pub mod Simulator
pub mod Tcp
pub mod Tests
