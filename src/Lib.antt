-- ===== src/Lib.antt =====
-- The Technosoft TML motor driver: its serial protocol library, technosoftSup/src/tmlSerial.cpp and
-- tmlSerial.h, from the bytes on the line up to the TS_* interface, and the EPICS motor driver on
-- top of it, technosoftSup/src/drvTmlMotor.cpp.
--
-- The parts, from the line upwards:
-- - Frame (checksum, serialiseMessage, deserialiseMessage): a message and its bytes. A byte is a
-- number below 256, a WORD one below 65536, the buffer a list.
-- - VarMap (TmlVariableMap): variable names and their addresses; a std::map is an association list.
-- - Channel (readBytes, writeBytes, waitAck, resync, sendMessage, receiveMessage, close of
-- TmlChannel): Channel.System is the operating system as a parameter, `Posix`, with the laws that
-- the code relies on; Channel.Defs has the operations, as functions on a `Port`, the transport
-- fields of a TmlChannel. gettimeofday, select, read, write, tcdrain and usleep are calls of the
-- parameter. Channel.Time relates the clock to the time behind it.
-- - Channel.Address, Channel.Network, Channel.Connect, Channel.Open (open, baudToSpeed,
-- configurePort, looksLikeTcp, connectTcp of TmlChannel): opening a port or a connection.
-- Channel.Network is the part of the operating system that opening uses, on the same world:
-- getaddrinfo, socket, connect, the waits for a connection, the attributes of a terminal. strtol
-- and atoi of `host:port` are written out as glibc's.
-- - SetupFile (zipExtractFile, TmlVariableMap::loadFromZip): SetupFile.Zip reads a ZIP archive,
-- SetupFile.Config the lines of variables.cfg, SetupFile.Load joins them; inflate of zlib and the
-- bytes of the files are arguments. SetupFile.Zip.Archive is a writer of archives after the format,
-- and SetupFile.Config.RoundTrip one of lines, which the theorems compare the readers with.
-- - Link: what the drive operations need of a transport, with the history of the messages handed to
-- it; `channel_link` is sendMessage and receiveMessage as such a transport.
-- - Drive (sendCommand, sendMcrConfig, sendSAP, writeData16, writeData32, readData16, readData32):
-- each operation makes one message for the selected axis, and the reads wait for an answer.
-- - Api.Act, Api.Commands, Api.Variables, Api.Motion, Api.Events (TS_* calls on a channel): a call
-- is a function of the channel that ends well, with the channel's error, or with an error of its
-- own. Api.Plan says what it means for the messages handed over to follow an order. Api.Real is C's
-- double as a parameter, and doubleToFixed1616 and fixed1616ToDouble on it.
-- - Api.Table (g_channels, g_activeCh, g_activeFd, g_setups, g_lastError; TS_OpenChannel,
-- TS_SelectChannel, TS_CloseChannel, TS_LoadSetup, TS_SetupAxis, TS_SelectAxis): the tables, and
-- how a call reaches the active channel. g_activeCh is the index of its slot. The results of
-- TmlChannel::open and of loadFromZip are arguments, which Api.Table.Opening and Api.Table.Firmware
-- fill with Channel.Open and SetupFile.Load. Api.Table.Abstract is what the tables promise their
-- callers, a map from descriptors to channels and a list of setups, which Api.Table.Refines
-- compares them with.
-- - Motor (TmlController and TmlAxis of technosoftSup/src/drvTmlMotor.cpp): Motor.Calls is the TS_*
-- interface as the driver uses it, Motor.Library fills it with the calls of Api; Motor.Axis has the
-- fields and the published parameters; Motor.Select has reinitAxis, selectAxis, ensureChannel, and
-- Motor.Power powerOn and powerOff, Motor.Decode and Motor.Poll have poll, Motor.Commands and
-- Motor.Homing the commands, Motor.Parameters writeInt32, Motor.Status setConnStatus and
-- Motor.Lifecycle the constructors, the destructors, configAxis and TmlAxisConfig. The axes of a
-- controller are a list. Motor.Runs has the sequences of commands and polls, Motor.Recovery those
-- from the constructor on. Motor.Ownership is what the driver relies on of the library about its
-- channel, as an interface that Motor.Ownership.Tables fills with the tables. Motor.Select.Even and
-- Motor.Poll.Homing follow the notes of a homing run and of a stop through selectAxis and poll.
-- - Tests: an operating system, doubles and channels to run the properties on.
--
-- Loops: readBytes and writeBytes have as much fuel as bytes, since every round but the last moves
-- one at least. A wait has as much fuel as there are readings of the clock in its time and a
-- microsecond more; that this is enough is proved, so the ending `starved` never occurs.
--
-- Numbers: 16- and 32-bit values are native numbers with their wrap-around written out; int32_t and
-- short are the integers of Prelude.Int with their two's-complement words. An error text is a
-- constructor with the values that the text shows. Log output is left out, with the reads that
-- serve it kept.
--
-- The loops of the setup file reader are recursions on the entries and offsets left.
--
-- Assumed: memory is always granted. `%x` is glibc's. Accesses outside of fname and of the buffers
-- that zipExtractFile allocates are a result of their own, which the theorems speak of; a setup
-- that has it is taken to leave the map as it is. The clock is not set back while a channel is in
-- use, and a reading of it takes some time, however short. Each channel has a world of its own, so
-- that two channels do not see each other's bytes.
--
-- Not modelled: report and hexDump, which only print, readRegisters, which nothing calls, and the
-- tables and registrations of the IOC shell. The driver's lock is not modelled: each command and
-- each poll is one step. A drive's firmware is not part of the program: what it answers is what the
-- line delivers.
pub mod Prelude
pub mod Frame
pub mod VarMap
pub mod SetupFile
pub mod Channel
pub mod Link
pub mod Drive
pub mod Api
pub mod Motor
pub mod Tests
