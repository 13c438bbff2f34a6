-- ===== src/Lib.antt =====
-- modbusgw, a Modbus gateway, and modbusgw_client, its client library: frontends take requests
-- from clients, a bus carries them to a dispatcher, a router chooses a backend, the backend asks a
-- device, and a responder takes the reply back to the frontend.
--
-- The parts, and where they are modelled:
-- - Base: what the files share. Base/Errors has Python's exceptions as values (Result), Base/Exec
--   coroutines as functions on a state that return, raise or are suspended for good, Base/Words
--   the packing of numbers in bytes, Base/Texts Python's strip and lower on the ASCII part of a
--   text, for the command line, Base/Bits the bit operations as arithmetic.
-- - Crc: modbusgw/utils/crc.py (crc16_modbus). Crc/Frames is about frames that end in their
--   checksum.
-- - Messages: modbusgw/core/messages.py. Pdu is the class ModbusPDU (to_adu, with_unit,
--   _split_adu, _attach_raw), Coils is _pack_coils and _unpack_coils, Requests and Responses are
--   the two families of classes (encode, _from_payload, from_adu), Routing is RoutedRequest and
--   RoutedResponse. A data unit is its unit id, the fields of its class and the raw bytes that it
--   keeps.
-- - Router: modbusgw/core/router.py (Router.resolve, _matches, _match_list, _match_operations,
--   _match_range). A Query holds what _value finds under each key. Router/Config is the route part
--   of modbusgw/config/models.py and build_router_from_config of modbusgw/app.py.
-- - Bus: modbusgw/core/bus.py (GatewayBus.publish, get, queue, register_tracer).
-- - Dispatcher: modbusgw/core/dispatcher.py (run_once, _handle_request, _run). A backend is a
--   function on the world behind it; what the dispatcher relies on is the record IsFaithful, and
--   both backends have a theorem that fills it. Dispatcher/Served adds that backends always come
--   back.
-- - Responder: modbusgw/core/responder.py (the loop _run).
-- - Backends/Tcp: modbusgw/backends/tcp.py. Pool is about the changes of the pool in any order,
--   Submit is submit, _exchange and close for a caller that awaits each request before the next,
--   as the dispatcher does; Submit/Gateway puts it behind the dispatcher.
-- - Backends/Serial: modbusgw/backends/serial.py (_read_response, _decode_response, submit with
--   its retries, which Submit/Retries compares with the attempts of Submit/Attempts; calls of a
--   session may be suspended for good).
-- - Frontends/Mbap: modbusgw/frontends/tcp_modbus.py and the same code in
--   modbusgw/frontends/unix_modbus_tcp.py (_handle_client, handle_response). Frontends/Rtu:
--   modbusgw/frontends/serial_rtu.py (_finalize_frame, handle_response).
-- - Frontends/Unix: modbusgw/frontends/unix_modbus_tcp.py (start, stop, and who is served: the
--   limit of _handle_client and its finally clause, with the wait for the connection in it).
--   Frontends/Tcp: the policies of modbusgw/frontends/tcp_modbus.py (__init__, _allow_connection,
--   _extract_client_dn, _is_client_dn_allowed, and _handle_client up to its loop).
-- - App: modbusgw/app.py (GatewayApplication: run, _reload_runtime, _start_runtime, _stop_runtime,
--   _write_pid_file, _cleanup_pid_file) and modbusgw/config/loader.py (load_config). The
--   application calls start, stop and close of components; the calls are written down in their
--   order, and what they answer is the system's choice. Its runtime holds the bus of Bus and the
--   router that Router/Config builds.
-- - Cli: modbusgw/cli.py. Cli holds the process functions (_read_pid_file, _pid_is_running,
--   _wait_for_exit), Cli/Numbers the numbers it reads (_parse_umask, int), Cli/Control the class
--   ServiceController and the commands up to main.
-- - Client/Codecs: modbusgw_client/codecs.py. Client/Tcp: modbusgw_client/tcp_client.py (connect,
--   close, execute, _read_exact, _next_transaction_id). Client/Serial:
--   modbusgw_client/serial_client.py (connect, close, execute, _read_frame). Client/Facade:
--   modbusgw_client/api.py, whose calls in Client/Facade/Calls go to any transport's execute;
--   Calls/OverSerial puts them above the serial client.
--
-- Conventions: a byte is a number, and a theorem that needs it to be below 256 says so. Python's
-- integers are numbers without bound; they stay natural numbers here, and the differences that it
-- writes are taken where they cannot be negative, or as a sum on the other side; only the client's
-- _read_exact can be asked for -1 bytes, and reads none, as for 0. A method on an object is a
-- function that also returns the object's new state. A coroutine that asyncio would suspend for
-- good (a put into a full queue, a get from an empty one, a drain to a peer that does not read)
-- gives none.
--
-- Bounds and fuel: run_rounds of the dispatcher and run of the responder go for a given number of
-- rounds, since their loops have no end of their own. client_loop of the Modbus/TCP frontends has
-- as fuel the length of the stream and one; each round takes at least a header of seven bytes. The
-- retries of the serial backend count down from max_attempts. The loops that wait for a clock,
-- _wait_for_exit of the command line and _read_frame of the serial client, go as many rounds as
-- the clock allows, a number that the system gives and that nothing bounds. main_loop of the
-- application goes over the batches of signals that come in, and waits for ever when none come any
-- more. read_exact of the client has as fuel the number of bytes asked for, since each round
-- brings one or raises. All other loops go over a list.
--
-- Parameters: the system of the application and of the command line (files, processes, the clock,
-- the components' answers, JSON and pydantic's check of a configuration), Python's module
-- ipaddress, strip and lower on the names of clients, its struct and the tests on its objects, the
-- port of the serial client, the network, the client's sockets, the serial line and the sessions
-- on it, the writers of the frontends, Python's str on exceptions and on numbers, and the
-- frontends and backends where a client of them is modelled. The hypotheses on them are that a
-- backend answers the request it was given (IsFaithful), that a peer reads what it is sent
-- (Drains), that a socket's recv brings no more bytes than it is asked for
-- (Client.Tcp.Laws.Bounded), that the system of the application does what it is asked (IsCalm),
-- that a frontend does not wait for ever (AllAwake), nor a call of a serial session or its factory
-- (IsAwake), that a read of a serial port brings no more bytes than it is asked for
-- (Client.Serial.Laws.Bounded) or brings a frame byte by byte (Delivers), that struct unpacks what
-- it packed by a format (Restores), and that a device gives back the registers that were written
-- to it (Keeps).
--
-- Not modelled: sockets, TLS, terminals, timers and the installation of signal handlers;
-- timestamps and metadata of messages, which nothing reads; that to_adu in a backend also writes
-- the raw bytes into the request that an error reply of the dispatcher names, which nothing reads
-- either; start and stop of the tasks of dispatcher and responder; log messages and printing; the
-- parser of the command line's arguments; the checks of the configuration's values, which are
-- pydantic's; the facade's constructors; brokers, filters and tracing, which are placeholders.
-- modbusgw_client/pdu.py repeats modbusgw/core/messages.py.
pub mod Base
pub mod Crc
pub mod Messages
pub mod Router
pub mod Bus
pub mod Dispatcher
pub mod Responder
pub mod Frontends
pub mod Client
pub mod App
pub mod Cli
pub mod Backends
