-- ===== src/Lib.antt =====
-- pyignite, the Python thin client of Apache Ignite: the binary protocol, the connection and the
-- choice of a node.
--
-- The parts, in the order in which a value goes out and comes back. A data class writes a value to a
-- stream and reads it back through a ctypes structure; a query puts a header in front of its fields;
-- a connection receives the answer, in whatever pieces it arrives; a cursor asks for page after page;
-- the client keeps a pool of connections and chooses one of them, by the hash code of a key when it
-- is aware of partitions.
--
--   Stream (pyignite/stream/binary_stream.py): a byte buffer and a position. `write`, `read`,
--     `slice`, `tell` and `read_ctype` are the methods; `seek_cur` and `seek_set` are the two uses of
--     `seek`. `decode_with` is the sequence of calls by which the client decodes with any data type.
--   Types.Primitive, Types.DataObject (pyignite/datatypes/primitive.py, primitive_objects.py): one
--     constructor of `Primitive` for each class; floats are left out.
--   Types.Nullable (pyignite/datatypes/null_object.py): a record of the three methods that a subclass
--     defines, and the methods over it.
--   Types.String (pyignite/datatypes/standard.py): `String`.
--   Types.Standard (pyignite/datatypes/standard.py): UUIDs, enums and arrays of standard objects.
--   Types.Sequence: the header with a count and the elements behind it, which the arrays, collections
--     and maps of standard.py and complex.py share.
--   Types.Complex (pyignite/datatypes/complex.py): object arrays, collections, maps and wrapped data,
--     over the type of their elements.
--   Types.Any (`tc_map`, `AnyDataObject`, `AnyDataArray` and `infer_from_python` of
--     pyignite/datatypes/internal.py, `is_hinted` of utils.py): the class of a type code, and the class
--     chosen for a value. `elements others d` is what an element goes through that is nested less than
--     `d` deep. Types.Any.Wire describes the values that can be nested, and their bytes.
--   Types.Array (pyignite/datatypes/primitive_arrays.py): arrays of primitives, with a type code and
--     without.
--   Hash (pyignite/utils.py): hash codes over unbounded integers.
--   Query (pyignite/queries/query.py, pyignite/datatypes/expiry_policy.py): the request. The random
--     query id is an argument.
--   Response (pyignite/queries/response.py, pyignite/api/result.py, and the part of `Query.perform`
--     behind the request): the header, errors, values and the affinity version. The types of the
--     values are arguments.
--   Api (pyignite/api/key_value.py, `query_perform` of queries/query.py): each function is the request it
--     makes, and `query_perform` the way from there to the result. What the connection gives for the
--     bytes of a request is an argument.
--   Cache (pyignite/cache.py, `unwrap_binary` of client.py, `status_to_exception` of utils.py): the
--     methods of `Cache` for keys and values. What becomes of a request that is sent over the node
--     for a key, and reading a binary object, are arguments.
--   Connection.Recv (`Connection.recv` of pyignite/connection/connection.py): the loop, one round at
--     a time. The socket is a list of what it does on successive calls; behind the end of the list the
--     peer is silent, and the call blocks. Recv.Failed has the test for a closed connection and the
--     handler of an error.
--   Connection.Protocol (pyignite/connection/protocol_context.py): versions and features.
--   Connection.State (pyignite/connection/connection.py, handshake.py): `connect`, `reconnect` and
--     `close`, on the fields of a connection that they change and the client's context. What the network
--     does in each of the two runs of `_connect_version` is an argument.
--   Pool, Affinity (pyignite/client.py): the pool of connections, and partition awareness.
--   Affinity.Best (`get_best_node` and `_get_affinity` of pyignite/client.py): the node for a key. What
--     becomes of the request for the mappings, and the hash code of a key by its class, are arguments.
--   Cursor (pyignite/cursors.py): the state of a synchronous cursor and its `__next__`. What
--     `unwrap_binary` makes of a row is an argument.
--
-- The other modules hold what the client uses of the standard library (Ctypes, Text, Value), results
-- with Python's exceptions (Result) and shared lemmas (Base). Runs has the theorems at concrete
-- inputs.
--
-- Numbers. Python's integers are integers without bounds; what ctypes stores is cut to its bytes
-- (`wrap`) and read in two's complement (`signed`), and `struct.pack` and `to_bytes` raise out of
-- their ranges.
--
-- Fuel. `recv_loop` runs on as many rounds as the socket holds bytes, and one more: each round takes
-- a byte at least, so `recv` is none only where the call blocks. The decoder of UTF-8 has a round for each byte. A loop over a cursor (`drain`) has
-- its fuel as an argument, as has the loop of `get_best_node` (`refresh`), whose rounds go on while
-- connections fail. The depth of `elements` stands for Python's limit of recursion: beyond it the
-- model raises, and a value nested less deep than `d` is written and read with any depth from `d` on.
--
-- Not modelled: the asynchronous twins, which do the same on asyncio; TLS; the C extension; the API
-- functions other than those for keys and values; creation, settings and scans of caches; clusters;
-- structures and complex objects, dates, decimals and floats, whose classes are the argument `others`
-- where a value may have any class; the asserts and messages of exceptions.
pub mod Base
pub mod Result
pub mod Ctypes
pub mod Stream
pub mod Value
pub mod Text
pub mod Types
pub mod Hash
pub mod Affinity
pub mod Connection
pub mod Pool
pub mod Query
pub mod Response
pub mod Api
pub mod Cache
pub mod Cursor
pub mod Runs
