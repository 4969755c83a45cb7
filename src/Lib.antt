-- ===== src/Lib.antt =====
-- h11 is an HTTP/1.1 library that does no I/O: its user hands it the bytes that came in, takes
-- events out, hands it events, and sends the bytes that it gives back. This library models its core,
-- the Python modules of h11/, and proves what they promise.
--
-- The parts, and how they meet. A `Connection` (h11/_connection.py) holds a `ConnectionState`
-- (h11/_state.py), a `ReceiveBuffer` (h11/_receivebuffer.py), a reader (h11/_readers.py) for the
-- peer's state and a writer (h11/_writers.py) for its own. `receive_data` fills the buffer;
-- `next_event` calls the reader, which takes bytes from the buffer, matches them with the grammar
-- (h11/_abnf.py), normalises headers (h11/_headers.py) and builds an event (h11/_events.py). `send`
-- hands an event to the writer. Either way the event goes through the state machine, and a role
-- whose state has changed gets the reader or the writer of its new state.
--
-- The files, and the code that they model:
--   Prelude      Python's bytes, exceptions and mutable objects: `Result` is a value or an
--                exception, `Exec S A` is a method of an object with the fields `S`, whose
--                assignments stay where it raises
--   State        h11/_state.py: Table has the two transition tables, Defs has `ConnectionState` and
--                each of its methods
--   Buffer       h11/_receivebuffer.py: Search has `find` and the search of `blank_line_regex`, Defs
--                has the class; Plain is the reference without the two search positions
--   Abnf         h11/_abnf.py, and `validate` of h11/_util.py: each regular expression is the
--                function that matches the whole of its input and gives the named groups
--   Grammar      h11/_abnf.py once more: Regex has regular expressions and what it is to match one,
--                Defs the expressions as the source writes them, the other files compare the
--                functions of Abnf with them
--   Headers      h11/_headers.py
--   Events       h11/_events.py: the event classes, and what their constructors check
--   Readers      h11/_readers.py: Lines has requests and responses, Defs the readers and READERS
--   Writers      h11/_writers.py: the writers and WRITERS; what is handed to `write` is a list
--   Connection   h11/_connection.py: Framing has `_keep_alive` and `_body_framing`, Defs the class
--                and `_process_event`, Receive has `receive_data` and `next_event`, Send has `send`,
--                Runs has the connections that calls of these bring about
--   Body         the body writers against the body readers
--   Protocol     which exceptions the methods of `Connection` let out: each method again, with what
--                it raises, and the reader and the writer against the states of the roles
--   Message      requests and responses from their constructors through the writers to the readers;
--                Exchange has a first request through two connections
--   Examples     the theorems at concrete inputs, and a conversation
-- An underscore before a Python name is left out, and a method whose name another class has takes
-- `_of` in Connection (`process_event_of` for `Connection._process_event`).
--
-- Bounds. The `while True` loop of `_fire_state_triggered_transitions` is a recursion on fuel, run
-- with a bound of two rounds; Body/Digits writes a number with as much fuel as the number itself,
-- and one. A byte is a natural number; Python's unbounded `int` is ℕ, or ℤ where a subtraction may go
-- below zero. The grammar allows a chunk size at most 20 hexadecimal digits, so chunks are taken
-- to be shorter than 16 ^ 20 bytes.
--
-- Not modelled: the texts of error messages, `str` arguments (`bytesify`), objects in a Data event
-- that are not bytes, and `__eq__`, `__repr__` and `__hash__`, which add no behaviour to the
-- protocol; the metaclass `Sentinel`, whose instances are the constructors of data types; tests,
-- examples, benchmarks and documentation.
pub mod Prelude
pub mod State
pub mod Buffer
pub mod Abnf
pub mod Headers
pub mod Events
pub mod Readers
pub mod Writers
pub mod Body
pub mod Connection
pub mod Protocol
pub mod Grammar
pub mod Message
mod Examples
