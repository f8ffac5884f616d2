-- ===== src/Lib.antt =====
-- A verification library for dbus-fronius, the driver that connects PV inverters (Fronius over the
-- Solar API or SunSpec, and SMA) to the D-Bus.
--
-- The parts of the program and how they interact. The gateway (inverter_gateway.cpp) lets the
-- address generator enumerate hosts and detectors probe them; for each inverter found, the mediator
-- sets up an updater, a state machine that polls the inverter and writes power limits. The updaters
-- for SMA and SunSpec talk through the Modbus TCP client, whose replies finish asynchronously. All
-- parts run in one Qt event loop, so a history of an object is a list of calls of its slots.
--
-- Base: operators, Boolean tests, lists, association lists and bits over the native numbers.
-- Crc: software/src/modbus_tcp_client/crc16.h and crc16.cpp. `add`, `add_bytes`, `get_value` and
--   `crc_of_bytes` are Crc16::add, both overloads, and Crc16::getValue, both overloads; the tables
--   are in Crc/Table, the bit-serial register of the standard is in Crc/Reference.
-- Tcp: software/src/modbus_tcp_client/modbus_tcp_client.cpp and modbus_reply.cpp. `Client` holds
--   the fields of ModbusTcpClient, and `Reply` those of its replies, which live in a heap under
--   numbers, as the table of pending replies and a caller share them. `on_ready_read` is onReadyRead
--   with the cases of its switch as `handle_read` and so on; its loop runs on the size of the buffer
--   as fuel, which is enough, as each round removes at least six bytes. Tcp/Requests has the
--   operations that send and the other events. Tcp/History has all events in any order. A server's
--   view of the wire is in Tcp/Stream (answers) and Tcp/Frames (requests).
-- Rtu: software/src/modbus_tcp_client/modbus_rtu_client.cpp and modbus_rtu_client.h. `Client` and
--   `Reply` are the classes, with the replies in a heap under numbers, and the states of reading are
--   those of ReadState. Rtu/Reading has handleByteRead by its cases, processPacket and onReadyRead,
--   and Rtu/Events the requests and the timer. The specification of the client, a queue of requests,
--   is in Rtu/Queue; a device's view of the line is in Rtu/Packets (answers) and Rtu/Frames
--   (requests).
-- Sma: software/src/sma_updater.cpp and sma_inverter.cpp, with a limit requested as any `Double`. `Updater` holds the fields of SMAUpdater
--   and, as `inverter`, the cached values of SMAInverter. The cases of onReadCompleted are in
--   Sma/Cases and the slots in Sma/Handlers, under the names of the source. What the updater asks of
--   other objects is logged.
-- SmaDetector: software/src/sma_detector.cpp and sma_detector.h. `Detection` is the detection of one
--   host, with the cases of onFinished under their registers' names; the slots are in
--   SmaDetector/Runs.
-- SunspecTools: software/src/sunspec_tools.cpp, the texts and scaled values of registers.
-- SunspecDetector: software/src/sunspec_detector.cpp and sunspec_detector.h, over SunspecTools. As in
--   SmaDetector, `Detection` is the detection of one host; the contents of models and the slots are
--   in SunspecDetector/Events.
-- SunspecUpdater: software/src/sunspec_updater.cpp and sunspec_updater.h. `Updater` holds the fields
--   of SunspecUpdater and what it reads and sets of the inverter; the cases of onReadCompleted and
--   startNextAction are in SunspecUpdater/Actions, and the slots in SunspecUpdater/Slots. The record
--   `Doubles` is what the code does with a double.
-- Lan: software/src/local_ip_address_generator.h and local_ip_address_generator.cpp. `Subnet` and
--   `Generator` are the two classes; the loop of Subnet::next runs on the number of addresses up to
--   the last as fuel, which is enough as the last one is below 2^32 - 1.
-- Gateway: software/src/inverter_gateway.h and inverter_gateway.cpp, over Lan. `Gateway` holds the
--   fields of InverterGateway with the parts of other objects that it reads; the slots are in
--   Gateway/Events. The loop of continueScan ends with 64 active hosts, its fuel.
-- Devices: software/src/fronius_device_info.h and fronius_device_info.cpp, with std::lower_bound as a
--   parameter.
-- SolarApi: software/src/froniussolar_api.cpp and solar_api_updater.cpp. The data of the answers are
--   in SolarApi, over the record `Json` for QVariant and the parser; `FroniusSolarApi` with its calls
--   of the HTTP client is in SolarApi/Client, and `SolarApiUpdater` in SolarApi/Updater, where an
--   event of the client runs through both.
-- Defines: software/src/defines.h.
-- SolarDetector: software/src/solar_api_detector.h and solar_api_detector.cpp, over SolarApi/Client
--   and Devices. The slots are in SolarDetector, their composition in SolarDetector/Events. The
--   SunSpec detector appears as events: the number of its reply, and the device or none.
-- Inverter: software/src/inverter.cpp and fronius_inverter.cpp, as far as the mediator uses them.
-- Mediator: software/src/inverter_mediator.h and inverter_mediator.cpp, over Inverter. `abandoned`
--   keeps the inverters that no pointer leads to any more. The events are in Mediator/Events.
-- DbusFronius: software/src/dbus_fronius.h and dbus_fronius.cpp, over Gateway and Mediator. `offer` is
--   the loop of onInverterFound.
-- DataProcessor: software/src/data_processor.cpp, with the values of power_info.cpp, over the record
--   `Doubles` of the arithmetic, of which no laws are supposed.
--
-- Not modelled. Qt, the sockets and the D-Bus are not part of this code: their calls appear as events
-- and logged actions. Assertions are taken as in a release build, where they do nothing. A read
-- behind the end of a buffer, which onReadyRead makes for a frame of less than eight bytes, gives 0.
-- Doubles are kept in the unit of their register, or as a register and a power of ten, but for the
-- SunSpec updater and the parts from SolarApi on, where their type is a parameter, and for a limit
-- requested of an SMA inverter, where they are finite or not, with a sign, a whole part and a rest;
-- what a cast gives that C++ leaves open is a parameter. The sums of the progress of a scan, which
-- are int, are numbers without bound: 100 times the sum passes 2^31 only with more than five
-- thousand subnets of the size that the gateway's mask limit allows. The UDP detector, the texts of items and the generic D-Bus classes are not modelled.
pub mod Base
pub mod Crc
pub mod Tcp
pub mod Rtu
pub mod Sma
pub mod SmaDetector
pub mod SunspecTools
pub mod SunspecDetector
pub mod SunspecUpdater
pub mod Lan
pub mod Devices
pub mod Gateway
pub mod SolarApi
pub mod Defines
pub mod DataProcessor
pub mod SolarDetector
pub mod Inverter
pub mod Mediator
pub mod DbusFronius
