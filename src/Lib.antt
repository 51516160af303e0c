-- ===== src/Lib.antt =====
-- Verification of the aquaOne controllers: firmware for aquarium devices (top-up, dosing, light) on a
-- shared core library.
--
-- The program. aquaOneCore is the library of the devices: storage, time, safety, system state, network
-- and web. aquaOneHydro refills an aquarium from a reserve tank: each pass of HydroSenseApp::update reads
-- the button, measures the tank, decides by the reserve's hysteresis whether the pump may run, runs the
-- top-up state machine, and raises alarms. aquaOneDoser gives doses by eight pumps on a weekly schedule.
-- Its firmware is updated over the web: the web task parses the upload and hands it, piece by piece, to the
-- application task, which writes the flash. aquaOneLuma dims the light by a profile of the day, with modes
-- that override one another; aquaOneGas, aquaOneClima and aquaOneFauna are skeletons.
--
-- Hydro (aquaOneHydro/src). Hydro/Devices is hardware/Pump.cpp, FloatSensor.cpp and Button.cpp;
-- Hydro/Topup is hydrosense/TopupController.cpp; Hydro/Tank is hardware/UltrasonicSensor.cpp and
-- hydrosense/WaterTank.cpp; Hydro/Reserve is WaterReserve.cpp, Hydro/Alarm AlarmManager.cpp, Hydro/Buzzer
-- BuzzerController.cpp; Hydro/App is HydroSenseApp::update, handleButton and handleRestartRequest with
-- HydroWebApplication::execute. An object is a record of its fields and a method a function from record
-- to record; objects that share another hold it, and the application writes it back where the code
-- mutates it. Each reading of millis() and of a pin is an argument.
--
-- Core (aquaOneCore). Core/Storage is src/Config/StorageService.cpp: Core/Storage/Record the bytes of a
-- record with src/Config/Crc32.cpp, Core/Storage the two slots with load and save, Core/Storage/Raw
-- begin, loadLatestRaw and saveCurrentRaw. StorageBackend is a parameter: a backend that keeps its keys
-- apart, and for the theorem that a save succeeds one that stores whole blobs. Every read may fail or be
-- short: whether the reads of a call are whole is an argument of it. Core/Time is
-- src/Time/EuropeWarsawTimeService.cpp, Core/Safety include/AquaCore/Safety/ActionLockCoordinator.h and
-- Core/Alarms include/AquaCore/Alarms/AlarmState.h. Core/Network is src/Network/NetworkService.cpp over the
-- answers of its backend, and Core/Runtime src/System/RuntimeStateCoordinator.cpp over what its providers
-- contribute. Core/Web is src/Web/HttpStreamingReceive.cpp, with the handler, the reader and the transport as
-- arguments; its loop has the length of the content for fuel, since every turn that goes on takes a byte.
-- Core/Web/Control is src/Web/WebSocketControlFrames.h, whose loop over a text has its length for fuel.
--
-- Doser (aquaOneDoser/src). Doser/Driver is PumpDriver.cpp, Doser/Pumps the setters of PumpManager.cpp,
-- Doser/Scheduler and Doser/Scheduler/Loop SchedulerManager.cpp: begin, loop and all that loop calls.
-- mktime and localtime_r are parameters. Doser/Upload is the update of the firmware. Of
-- DoserMultipartFirmwareParser.cpp, Size is parseFirmwareSize, Header parseContentType, Part parseHeaders and
-- Feed begin, feed and finish; the sink is a parameter, and where it is said to stream, it takes bytes in
-- pieces as it takes them together. Bridge is StreamingUploadBridge.cpp, one operation for each hold of its
-- lock, with the two tasks as a step relation. Update is DoserOtaApplication.cpp: what it asks of the flash,
-- the pumps and the restart is a list of calls, and what they and the bridge answer an argument.
--
-- Luma (aquaOneLuma/src). Luma/Modes is core/ModeManager.cpp, Luma/Levels core/LightEngine.cpp, Luma/Fade
-- core/TransitionEngine.cpp and Luma/Day profiles/DayEngine.cpp, of which the places of the stages are a
-- parameter.
--
-- Numbers. uint32_t and unsigned long are natural numbers with the wrap-around at 2^32 written out in
-- `elapsed` and `add32`. A float is a type with the operations that the code uses (Hydro/Floats, Luma/Floats,
-- Doses in Doser/Pumps); where a theorem needs an order, it is a hypothesis. Lists stand for arrays, and an index
-- of -1 is `none`. A loop over an array or a fixed number of things is recursion on the list or the
-- number. These loops run on fuel, besides those of Core/Web named above. That of addMinutes has 46 turns: its minutes are a uint16_t, of which
-- 1440 go in each turn. Those of parseHeaders over the lines and the parameters have as many turns as there
-- are bytes, of which each turn takes at least one; emitRange has one turn for each byte too.
--
-- Not modelled: pages, JSON, MQTT texts, log messages, pin modes and network set-up, which only do input
-- and output; the parts of the Core beside those named, the storage and the time of the Doser, and of Luma
-- the core that joins the parts named, its storage and its web pages.
pub mod Base
pub mod Core
pub mod Doser
pub mod Hydro
pub mod Luma
