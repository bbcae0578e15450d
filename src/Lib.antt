-- ===== src/Lib.antt =====
-- A verification library for NAGUS, an Uru Live server written in Python (src/nagus).
--
-- The program reads and writes binary structures on all its connections: scene object names (UOIDs)
-- and strings in src/nagus/structs.py, the Plasma messages that clients send each other through the game
-- server in src/nagus/pl_messages.py, and SDL blobs in src/nagus/sdl.py. The connections are encrypted with
-- the cipher of src/nagus/crypto.py, which also hashes the passwords. The server keeps its vault, a graph
-- of nodes for avatars, ages, folders and links, in an SQLite database behind src/nagus/state.py, and tells
-- the connections of src/nagus/auth_server.py about changes of the nodes that they care about. The
-- requests of clients on the vault are handled in auth_server.py as well. The rest of the servers
-- (game_server.py, gatekeeper_server.py, and of auth_server.py the login), the connections themselves
-- (base.py but for string fields), the configuration and the console are not modelled.
--
-- The parts of the library:
--   Prelude     numbers, tests, lists and bits that the other parts share.
--   Stream      binary streams: a reader is a function from the bytes that are left to a value and
--               the bytes after it, or an exception; a writer is the bytes that it appends, or an
--               exception. Stream/Format models Python's `struct` formats with `stream_unpack`,
--               Stream/Enums the `IntEnum` classes, and Stream/Reads what it means that a reader
--               reads back what a writer wrote, with one rule for each way to build readers.
--   Structs     src/nagus/structs.py. SafeString: `read_safe_string` and `write_safe_string`;
--               WideString: the functions for SafeWStrings, with UTF-16; BitVector: the bit vectors;
--               SequenceNumber: `can_split_`, `split_` and `make_sequence_number`; Time: the unified
--               times; Uoid: `Location` and `Uoid` with `from_stream`, `write` and the keys.
--   Messages    src/nagus/pl_messages.py. Enums: the enumerations; Animation: the animation stages and
--               two tasks; Brain: `AvatarBrainGeneric` and the choice of a task; Header: `Message`;
--               Events: the notification events; Simple: the classes that hold no other message;
--               Classes: the others; Tree: the table of classes by index, and messages inside
--               messages.
--   Crypto      src/nagus/crypto.py. Rc4: `Rc4State`; Sha: `_slow_sha_0_1` and `byte_swap_hash`;
--               Credentials: the truncation of credentials, the password hashes and the challenge
--               hash.
--   Sdl         src/nagus/sdl.py. Header: `SDLStreamHeader` and the header of a record; Variables: the
--               headers of variable values, and `SimpleVariableValue`; Search: the searches for the
--               start of a variable and of a blob body.
--   Vault       src/nagus/state.py. NodeData: `VaultNodeData`, one function over the list of the kinds
--               of its 32 fields; Table: lists of rows; Database: the tables that `setup_database`
--               declares and the SQL statements of the program, with Integrity, the constraints;
--               Server: `ServerState`, and methods as actions that return or raise and leave a state;
--               Nodes: the methods on nodes and references; Refs: the recursive query; Ages: the age
--               instances; Avatars: the avatars, and `kick_async` of src/nagus/auth_server.py;
--               ObjectStates: the SDL states of objects; Setup: `setup_database`; Reachable: the states
--               that the operations lead to.
--   Connections src/nagus/base.py: the string fields of messages.
--   Auth        src/nagus/auth_server.py: `NetError` of src/nagus/base.py and the replies. Handling: the
--               replies to a client, and the nodes that it cares about; Packing: the replies as
--               bytes; Requests: the handlers for
--               vault nodes, references, age instances and the deletion of avatars; Players:
--               the one for their creation; Quiet and Replies: which actions send replies; Integrity: the constraints of the tables;
--               Outcomes: what becomes of requests.
--   Examples    test vectors, and the theorems at concrete inputs.
--
-- How the model stands to the code: a method `from_stream` or `read` of a class is a function
-- `read_<class>`, and `write` is `write_<class>`. Floats are the bit patterns of their binary form,
-- and byte strings are lists of numbers. An `IntFlag` is a number, since it admits any. A `datetime`
-- is its microseconds from the epoch on. The exceptions are the constructors of `Error`, and in the
-- vault of `VaultError`. A mapping from columns to values is a row in which a column that it lacks is
-- `none`, and a UUID is its 16 bytes. The methods of the server state have the names of the code. A
-- transaction is one statement; what it changed is gone where it raises an exception. What SQLite does is
-- written out as its documentation has it, for the statements that the program makes; where its
-- documentation leaves the order of rows open, it is the order in which they were inserted, and for the
-- references from a node and the SDL states of an age that of the index that SQLite takes. The clock
-- and the random UUIDs are sequences that the state holds.
--
-- Bounds: the searches in SDL blobs run at most once for each byte. SHA runs once for each chunk of
-- the padded message. A message inside messages is of a type `Message depth`, with less than `depth`
-- levels; reading at depth `depth` raises `recursion` where the bytes nest deeper, which stands for
-- Python's limit of recursion. The recursive query of the vault takes one reference in each round, so
-- that it ends after as many rounds as there are references. NodeId is any number, below the limit of
-- SQLite, 2 ^ 63 - 1. The messages hold IDs of 32 bits. A client may create a node with the ID 2 ^ 32 - 1,
-- and the next node gets one of more bits, of which no reply can be packed: then `respond` raises
-- struct.error. Values of 64 bits and more, and strings with lone surrogates, which SQLite refuses, come
-- neither from the binary forms nor from the program.
--
-- Not modelled: `repr` and `str` of objects, hashing and comparison; `UnknownMessage`, which no class
-- index creates; the fixed-size strings and the public age instances, which are made of them; the
-- parser of SDL blobs that guesses their structure; what other tasks do while a method of the server
-- state awaits; requests as bytes, so that a handler starts from a request that has been read;
-- notifications as bytes, so that the model sends one about an ID of more than 32 bits where struct.error
-- is raised, once the change has been committed; and the rest of the servers.
pub mod Prelude
pub mod Stream
pub mod Structs
pub mod Messages
pub mod Crypto
pub mod Sdl
pub mod Vault
pub mod Connections
pub mod Auth
pub mod Examples
