-- ===== src/Lib.antt =====
-- libamqp-cpp, a client of AMQP 0-9-1.
--
-- The program. A client holds a connection, and on it channels; a channel makes calls by methods,
-- which travel in frames. The layers from below:
--   * src/detail/byteswap.h and src/detail/wireformat.h, .cpp write integers in network order and
--     strings to a std::ostream, and read them from a std::istream;
--   * src/table.h, .cpp and src/table_entry.h, .cpp hold field values and tables of them, with
--     their sizes on the wire; wireformat.cpp writes and reads these too;
--   * src/detail/frame.*, frame_builder.* and frame_writer.* make a frame of a method and lay it
--     out, and build a frame of the bytes that a socket delivers;
--   * src/detail/connection_manager.* reads and writes frames, synchronously during the handshake
--     and by handlers of an io_service afterwards, and keeps the table of channels;
--   * src/detail/channel_impl.*, channel0.* and connection_impl.* are channels and the handshake,
--     with src/amqp_sasl.* for its credentials;
--   * src/codegen.py generates the methods' classes, which use wireformat, src/detail/bitset.h and
--     src/detail/string_utils.h.
--
-- The files, each definition with the name of the function it models:
--   * Base: how a call ends (a value, an exception, undefined behaviour, or the end of the model's
--     fuel), Boolean tests, lists and integers;
--   * Byteswap: byteswap.h. Stream: the flags and contents of the standard streams. Wire: the
--     integers and strings of wireformat; a loop of read_longstring is read_chunks;
--   * Table: field_value_t, array_t, table and table_entry, with datatype_size_counter as
--     data_size, array_size and entries_size. Its children are the order of the keys (Keys), the
--     contract of a map (Map), the order of insertion (Order) and tables joined end to end (Join);
--   * TableFormat: table_value_writer as write_table_value, write_table, read_field_value with its
--     switch as field_type_of and read_typed, and read_table. Its children are the bytes that are
--     written (Bytes), the sizes against them (Size), the values that are carried without loss
--     (Plain), the end of reading (Read), the round trips (RoundTrip) and the losses (Losses);
--   * Frame: frame, frame_builder and frame_writer, with read_frame and write_frame of
--     connection_manager. Its children are the layout (Wire), the builder on it (Builder), the
--     reading and the writing side (Reader, Writer), and what a frame that was read says of the bytes
--     (Octets, Soundness);
--   * Method: the classes that the generator writes, as a reader, a writer and a size over the
--     arguments that a specification lists, and method::read of a frame. Its children are a run of
--     bits in an octet (Bits), the bytes that are written (Layout), the size against them (Size),
--     reading them back (RoundTrip), the end of reading (Total), what is returned (Typed), a method
--     from one connection to another (Transfer), and method_cast with what the channels use of the
--     generated classes (Interface);
--   * Properties: the content properties that the generator writes, and detail/properties.*. Its
--     children are the bytes and their announced size (Bytes), reading them back (RoundTrip), and a
--     table among them (Tables);
--   * Printing: data_stringifier as value_to_string, the to_string of entries and tables, and
--     print_string. Its children are the digits of numbers (Numbers) and the texts (Texts);
--   * Promise: the promises of boost, as an interface with its documented behaviour;
--   * Channel: channel_impl with its m_continuation; continue_with is the call of the continuation,
--     settle and handle_end are the catch clauses. Its children are what stays of the object
--     (Identity), the opening (Opening), and the calls and the closing (Calls);
--   * ConnectionManager: the state of connection_manager with its handlers that write, close and
--     make channels. Its child Dispatch has the reading loop, the dispatch of frames to channels,
--     start_open_channel and the end of channel objects. The other children are what handlers leave
--     (Outcomes), the steps between states (Steps), the writes (Extends, Handlers, Writes), the
--     table of channels (Entries, Channels, Invariant, Runs, Table), and the bytes that come in, up
--     to the promise of a call (Delivery, Responses), with the generated methods too (Generated);
--   * Connection: the constructor of connection_impl, as connect, with the handshake as shake_hands.
--     Its children are the handshake with a broker that takes part (Handshake), the generated
--     methods of the class connection (Interface) and the handshake with these (Generated), and a
--     connection that is refused (Errors);
--   * Waiting: open_channel of connection_impl from its first future on, and declare_exchange of
--     channel_impl from its wait on, as await_declared. Its children are the promises through the
--     handlers (Stalled, Closing), the end of the waiting (Opening), and a channel from its request
--     to its opening (Success);
--   * StringUtils, Sasl and Bitset: string_utils.h, amqp_sasl.* and bitset.h;
--   * Examples: runs on concrete inputs.
--
-- Conventions. A number is a natural number within its type; a conversion that wraps is written
-- out. Signed numbers are integers. A float and a double are their IEEE 754 bit patterns, and
-- reading one through a pointer to another type takes its first bytes. A string is the list of its
-- bytes. The machine is little-endian, with the sizes of a 64-bit one. Memory is never exhausted.
-- The address of the first element of an empty byte array, which is taken to write or read none, is
-- not followed.
--
-- Fuel. The readers of field values and tables call each other, and are given fuel: a value takes a
-- byte at least, an entry two and a table four, so the bytes of the stream and two more are enough
-- for any of them on any input. The loop of read_longstring is given a round for each 1024 bytes
-- and two more.
--
-- Parameters. The constants and the specification of methods come from files that are not in the
-- repository: FrameConstants with IsFrameSpec, a list of ClassSpec, and for the methods that the
-- library names itself ChannelClass and ConnectionClass. Frames, channels and the handshake use a
-- method by interfaces, Serializable, Methods and HandshakeMethods, that the generated classes fill.
-- The socket of boost is a Transport, whose reads take the bytes that came first (IsFifo, IsExact), a
-- promise of boost a PromiseOf, that is satisfied once only (IsPromise), and the split of boost an
-- argument of select_sasl_mechanism. What the connection manager uses of these is the record World;
-- the constructor of a connection uses a Network, with its resolver, whose socket takes what is
-- written (IsDuplex); who waits uses boost::wait_for_any (IsWaitForAny).
--
-- Not modelled. Of the generator the printing of methods, the constants and the default values of
-- fields are left out, with is_synchronous and has_content, which nothing asks for. Nothing in the
-- repository sends or receives content properties; they are read and written by themselves. The
-- texts of floats are the standard library's, and a parameter. Handlers run one after the other: what
-- another thread does is a step between two of them, and a thread that waits looks at the state that
-- they leave. A handler that ends by an exception ends the thread of the io_service, and no step
-- follows it. A channel object lives in the table that points to it; a pointer to it is its place
-- there. The operations of a channel with empty bodies, and Statement, which has none, have no
-- counterpart. Nothing in the repository throws a channel_exception; the catch clause for it and
-- close_ are modelled as they stand.
pub mod Base
pub mod Byteswap
pub mod Stream
pub mod Wire
pub mod Table
pub mod TableFormat
pub mod Frame
pub mod StringUtils
pub mod Sasl
pub mod Bitset
pub mod Method
pub mod Promise
pub mod Channel
pub mod ConnectionManager
pub mod Connection
pub mod Waiting
pub mod Printing
pub mod Properties
pub mod Examples
